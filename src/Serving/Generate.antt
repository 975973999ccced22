-- ===== src/Serving/Generate.antt =====
-- GenerateServiceV1 and GenerateState of serving/turbine_serving/llm/impl/service_v1.py, and the
-- requests of serving/turbine_serving/llm/service.py. `await` on the cache's methods does not give up
-- control, so `set_sequences` is one step, and so is what `recycle` does after its queue has synced.
pub mod Sequences
pub mod Ownership
pub mod Server
pub mod EntryPoints
pub mod Success
pub mod Prefill
use shark_turbine.Common.{
  ℕ, zero, suc, ◌+◌, ◌/◌, Bool, true, false, List, [], ◌∷◌, ◌++◌, Option, none, some, Name, codes,
  length, max, slice, nat_beq, leb, ltb, if◌then◌else◌, ◌==◌, nat_key, list_key,
}
use shark_turbine.Common.Exc.{
  Result, Exec, ok, err, assertion_error, key_error, zero_division_error, or_raise, check, ◌>>=◌,
  ◌>>◌,
}
use shark_turbine.Common.Dict.{Dict, lookup, has_key, insert}
use shark_turbine.Common.Decimal.{show_nat}
use shark_turbine.Serving.Session.Pool.{Store, recycle_all}
use shark_turbine.Serving.BlockCache.{Entry, Cache, acquire_attn_blocks, release_attn_blocks}

-- GenerateRequest, without the fields that no code here reads
pub record Request : Type 0 where
  pub prompt_token_ids : Option (List ℕ)

unfoldable pub required_prompt_token_ids : Request → Result (List ℕ)
required_prompt_token_ids req = or_raise req.prompt_token_ids assertion_error

-- _Sequence
pub record Sequence : Type 0 where
  pub attn_blocks : List Entry
  pub attn_blocks_needed : ℕ
  pub prefill_token_ids : List ℕ
  pub request : Request
  pub seq_length : ℕ

abbrev pub new_sequence : Request → Sequence
new_sequence req = record {
  attn_blocks = [];
  attn_blocks_needed = 0;
  prefill_token_ids = [];
  request = req;
  seq_length = 0;
}

-- The service's fields that a batch reads.
pub record Service (F : Type 0) : Type 0 where
  pub block_pos_stride : ℕ
  pub batch_sizes : List ℕ
  pub prefill_functions : Dict ℕ F
  pub decode_functions : Dict ℕ F

-- GenerateState. A field that `set_sequences` has not set yet is `none`.
pub record Batch (F : Type 0) : Type 0 where
  pub sequences : List Sequence
  pub prefill_function : Option F
  pub decode_function : Option F
  pub bs : Option ℕ
  pub max_attn_blocks_length : Option ℕ
  pub max_seq_length : Option ℕ
  -- the transfer buffers in `_resources`
  pub resources : List ℕ

module _ {F : Type 0} where
  -- One loop of the constructor: the entry point of each batch size, by its symbol.
  unfoldable pub entry_points : (Name → Result F) → Name → List ℕ → Dict ℕ F → Result (Dict ℕ F)
  entry_points function stem [] table = ok table
  entry_points function stem (bs ∷ sizes) table = do
    check (if has_key bs table then false else true) assertion_error
    f ← function (stem ++ show_nat bs)
    entry_points function stem sizes (insert bs f table)

  -- GenerateServiceV1.__init__, for a module set whose symbols `function` looks up
  unfoldable pub new_service : (Name → Result F) → ℕ → List ℕ → List ℕ → Result (Service F)
  new_service function stride prefill_batch_sizes decode_batch_sizes = do
    check (decode_batch_sizes == prefill_batch_sizes) assertion_error
    prefill ← entry_points function (codes "prefill_bs") prefill_batch_sizes []
    decode ← entry_points function (codes "decode_bs") prefill_batch_sizes []
    ok (record {
      block_pos_stride = stride;
      batch_sizes = prefill_batch_sizes;
      prefill_functions = prefill;
      decode_functions = decode;
    })

  -- GenerateServiceV1.start
  unfoldable pub start : Batch F
  start = record {
    sequences = [];
    prefill_function = none;
    decode_function = none;
    bs = none;
    max_attn_blocks_length = none;
    max_seq_length = none;
    resources = [];
  }

-- The variables of the first loop of `set_sequences`.
pub record Reserve : Type 0 where
  pub bs : ℕ
  pub sequences : List Sequence
  pub max_attn_blocks_length : ℕ
  pub max_seq_length : ℕ
  pub attn_blocks_required : ℕ

abbrev pub reserve_start : Reserve
reserve_start = record {
  bs = 0;
  sequences = [];
  max_attn_blocks_length = 0;
  max_seq_length = 0;
  attn_blocks_required = 0;
}

-- The loop's body after the tokens are known.
unfoldable pub reserve_one : ℕ → Request → List ℕ → Reserve → Reserve
reserve_one stride req tokens r =
    let seq_length = length tokens in
    let initial_block_count = seq_length / stride + 1 in
    let seq : Sequence = record {
      attn_blocks = [];
      attn_blocks_needed = initial_block_count;
      prefill_token_ids = tokens;
      request = req;
      seq_length = seq_length;
    } in
    record {
      bs = r.bs + 1;
      sequences = r.sequences ++ seq ∷ [];
      max_attn_blocks_length = max r.max_attn_blocks_length initial_block_count;
      max_seq_length = max r.max_seq_length seq_length;
      attn_blocks_required = r.attn_blocks_required + initial_block_count;
    }

-- A request that raises has its fresh sequence appended by then.
unfoldable pub reserve : ℕ → List Request → Exec Reserve (Unit {0})
unfolding required_prompt_token_ids
reserve stride [] r = (ok tt, r)
reserve stride (req ∷ requests) r = elim (required_prompt_token_ids req) [
  | err e ↦ (err e, record r { bs = r.bs + 1; sequences = r.sequences ++ new_sequence req ∷ [] })
  | ok tokens ↦ elim (nat_beq stride 0) [
    | true ↦ (
      err zero_division_error,
      record r {
        bs = r.bs + 1;
        sequences =
            r.sequences
            ++ record (new_sequence req) { prefill_token_ids = tokens; seq_length = length tokens }
              ∷ [];
        max_seq_length = max r.max_seq_length (length tokens);
      },
    )
    | false ↦ reserve stride requests (reserve_one stride req tokens r)
  ]
]

-- for allowed_bs in batch_sizes: if allowed_bs >= bs: break
unfoldable pub allowed_batch_size : List ℕ → ℕ → Option ℕ
allowed_batch_size [] bs = none
allowed_batch_size (allowed_bs ∷ sizes) bs =
    if leb bs allowed_bs then some allowed_bs else allowed_batch_size sizes bs

-- The loop that hands each sequence its part of the blocks.
unfoldable pub distribute : List Entry → ℕ → List Sequence → List Sequence
distribute all_blocks block_index [] = []
distribute all_blocks block_index (seq ∷ seqs) =
    record seq {
      attn_blocks =
          seq.attn_blocks ++ slice all_blocks block_index (block_index + seq.attn_blocks_needed);
    }
    ∷ distribute all_blocks (block_index + seq.attn_blocks_needed) seqs

module _ {F : Type 0} where
  -- What follows the acquisition: the caller's list goes to the sequences, and the state is saved.
  unfoldable pub save :
      ℕ
      → Reserve
      → Batch F
      → Result (Unit {0}) × (Cache × List Entry)
      → Result (Unit {0}) × (Batch F × Cache)
  save allowed_bs r b (err e, (cache, _)) = (err e, (b, cache))
  save allowed_bs r b (ok _, (cache, all_attn_blocks)) = (
    ok tt,
    (
      record b {
        sequences = distribute all_attn_blocks 0 r.sequences;
        bs = some allowed_bs;
        max_attn_blocks_length = some r.max_attn_blocks_length;
        max_seq_length = some r.max_seq_length;
      },
      cache,
    ),
  )

  -- The end of `set_sequences`, once the entry points are chosen.
  unfoldable pub place : ℕ → Reserve → Exec (Batch F × Cache) (Unit {0})
  unfolding save
  place allowed_bs r (b, cache) =
      save allowed_bs r b (acquire_attn_blocks r.attn_blocks_required (cache, []))

  -- The choice of the batched entry points.
  unfoldable pub choose : Service F → Reserve → Exec (Batch F × Cache) (Unit {0})
  choose service r (b, cache) = elim (allowed_batch_size service.batch_sizes r.bs) [
    | none ↦ (err assertion_error, (b, cache))
    | some allowed_bs ↦ elim (lookup allowed_bs service.prefill_functions) [
      | none ↦ (err key_error, (b, cache))
      | some prefill ↦
          let b' : Batch F = record b { prefill_function = some prefill } in
          elim (lookup allowed_bs service.decode_functions) [
            | none ↦ (err key_error, (b', cache))
            | some decode ↦ place allowed_bs r (record b' { decode_function = some decode }, cache)
          ]
    ]
  ]

  -- What follows the first loop.
  unfoldable pub assign :
      Service F
      → Batch F
      → Cache
      → Result (Unit {0}) × Reserve
      → Result (Unit {0}) × (Batch F × Cache)
  assign service b cache (err e, r) = (err e, (record b { sequences = r.sequences }, cache))
  assign service b cache (ok _, r) =
      let b' : Batch F = record b { sequences = r.sequences } in
      if ltb 0 r.bs then choose service r (b', cache) else (err assertion_error, (b', cache))

  -- GenerateState.set_sequences
  unfoldable pub set_sequences : Service F → List Request → Exec (Batch F × Cache) (Unit {0})
  unfolding assign
  set_sequences service requests (b, cache) = elim b.sequences [
    | _ ∷ _ ↦ (err assertion_error, (b, cache))
    | [] ↦ assign service b cache (reserve service.block_pos_stride requests reserve_start)
  ]

-- all_blocks.extend(seq.attn_blocks); seq.attn_blocks.clear()
unfoldable pub collect : List Sequence → List Entry
collect [] = []
collect (seq ∷ seqs) = seq.attn_blocks ++ collect seqs

unfoldable pub clear : List Sequence → List Sequence
clear [] = []
clear (seq ∷ seqs) = record seq { attn_blocks = [] } ∷ clear seqs

module _ {F : Type 0} where
  -- What `recycle` does with the blocks of the sequences.
  unfoldable pub recycle_blocks : Batch F × Cache → Batch F × Cache
  recycle_blocks (b, cache) =
      (record b { sequences = clear b.sequences }, release_attn_blocks (collect b.sequences) cache)

  -- GenerateState.recycle, after the queue has synced: a transfer buffer that raises keeps the blocks
  -- from being released.
  unfoldable pub recycle : Exec (Batch F × (Cache × Store)) (Unit {0})
  unfolding recycle_blocks
  recycle (b, (cache, store)) =
      let (result, (store', resources)) = recycle_all (store, b.resources) in
      let b' : Batch F = record b { resources = resources } in
      elim result [
        | err e ↦ (err e, (b', (cache, store')))
        | ok _ ↦ let (b'', cache') = recycle_blocks (b', cache) in (ok tt, (b'', (cache', store')))
      ]
