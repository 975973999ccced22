-- ===== src/Serving/Generate/Success.antt =====
-- When `set_sequences` succeeds, and what the batch then holds.
use mathlib.Core.List.{reverse}
use shark_turbine.Common.{
  ℕ, ◌+◌, ◌*◌, ◌/◌, ◌<◌, ◌≤◌, ◌≡◌, refl, sym, ap, ◌∙◌, false, List, [], ◌∷◌, ◌++◌, map, append-nil,
  append_assoc, some, length, arith, All, lt→ltb, nat_key, nat_beq, length-take, length-drop, ◌-◌,
  take, drop,
}
use shark_turbine.Common.Exc.{ok}
use shark_turbine.Common.Dict.{lookup}
use shark_turbine.Serving.BlockCache.{Entry, Cache, acquire_attn_blocks}
use shark_turbine.Serving.BlockCache.Accounting.{acquire_attn_blocks_ok}
use shark_turbine.Serving.Generate.{
  Request, Sequence, Service, Batch, Reserve, reserve_start, reserve_one, reserve,
  allowed_batch_size, distribute, place, save, choose, assign, set_sequences,
}
use shark_turbine.Serving.Generate.Sequences.{needed, IsEmpty, allowed_batch_size_first}
use shark_turbine.Serving.Generate.Ownership.{started, length-reverse}

abbrev pub request_of : List ℕ → Request
request_of tokens = record { prompt_token_ids = some tokens }

-- The blocks of one prompt: enough for its positions and for the position behind them.
abbrev pub blocks_for : ℕ → List ℕ → ℕ
blocks_for stride tokens = length tokens / stride + 1

abbrev pub blocks_required : ℕ → List (List ℕ) → ℕ
blocks_required stride [] = 0
blocks_required stride (t ∷ ts) = blocks_for stride t + blocks_required stride ts

abbrev sequence_for : ℕ → List ℕ → Sequence
sequence_for stride tokens = record {
  attn_blocks = [];
  attn_blocks_needed = blocks_for stride tokens;
  prefill_token_ids = tokens;
  request = request_of tokens;
  seq_length = length tokens;
}

-- The loop's variables after prompts that all have tokens.
abbrev pub plan : ℕ → List (List ℕ) → Reserve → Reserve
plan stride [] r = r
plan stride (t ∷ ts) r = plan stride ts (reserve_one stride (request_of t) t r)

reserve-plan :
    (stride : ℕ) (prompts : List (List ℕ)) (r : Reserve)
    → 0 < stride
    → reserve stride (map request_of prompts) r ≡ (ok tt, plan stride prompts r)
unfolding reserve
reserve-plan stride [] r h = refl
reserve-plan stride (t ∷ ts) r h =
    let some_stride : nat_beq stride 0 ≡ false = ground arith in
    rw (reserve, some_stride) (reserve-plan stride ts (reserve_one stride (request_of t) t r) h)

-- What the plan is, in terms of the prompts.
plan_lem :
    (stride : ℕ) (prompts : List (List ℕ)) (r : Reserve)
    → let p = plan stride prompts r in
      (p.sequences ≡ r.sequences ++ map (sequence_for stride) prompts)
      × (p.bs ≡ r.bs + length prompts)
      × (p.attn_blocks_required ≡ r.attn_blocks_required + blocks_required stride prompts)
unfolding reserve_one
plan_lem stride [] r = (sym (append-nil r.sequences), omega arith, omega arith)
plan_lem stride (t ∷ ts) r =
    let (seqs, count, blocks) = plan_lem stride ts (reserve_one stride (request_of t) t r) in
    (
      seqs ∙ append_assoc r.sequences (sequence_for stride t ∷ []) (map (sequence_for stride) ts),
      omega (arith, count),
      omega (arith, blocks),
    )

-- A sequence whose blocks cover its prompt and the next position, at `stride` positions to a block.
abbrev pub Serves : ℕ → Sequence → Type 0
Serves stride s =
    (length s.attn_blocks ≡ blocks_for stride s.prefill_token_ids)
    × (length s.prefill_token_ids < length s.attn_blocks * stride)

distribute-Serves :
    (stride : ℕ) (blocks : List Entry) (i : ℕ) (prompts : List (List ℕ))
    → 0 < stride
    → i + blocks_required stride prompts ≤ length blocks
    → let ss = distribute blocks i (map (sequence_for stride) prompts) in
      All (Serves stride) ss × (map (λ s. s.prefill_token_ids) ss ≡ prompts)
unfolding distribute
distribute-Serves stride blocks i [] h fits = (tt, refl)
distribute-Serves stride blocks i (t ∷ ts) h fits =
    let n = blocks_for stride t in
    let given : length (take (i + n - i) (drop i blocks)) ≡ n =
      omega (arith, length-take {0} (i + n - i) (drop i blocks), length-drop {0} i blocks) in
    let (served, prompts) = distribute-Serves stride blocks (i + n) ts h (omega arith) in
    (((given, rw given (grind arith)), served), ap (λ l. t ∷ l) prompts)

needed-plan :
    (stride : ℕ) (prompts : List (List ℕ))
    → (needed (map (sequence_for stride) prompts) ≡ blocks_required stride prompts)
      × IsEmpty (map (sequence_for stride) prompts)
needed-plan stride [] = (refl, tt)
needed-plan stride (t ∷ ts) = let (n, e) = needed-plan stride ts in (omega (arith, n), (refl, e))

module _ {F : Type 0} where
  -- What a batch holds once its sequences are set: the compiled functions of the batch size `a`, and
  -- for each prompt, in order, a sequence with that prompt and enough blocks.
  pub record Ready (stride a : ℕ) (pf df : F) (prompts : List (List ℕ)) (b : Batch F) : Type 0 where
    pub batch_size : b.bs ≡ some a
    pub prefill : b.prefill_function ≡ some pf
    pub decode : b.decode_function ≡ some df
    pub served : All (Serves stride) b.sequences
    pub in_order : map (λ s. s.prefill_token_ids) b.sequences ≡ prompts

  module _ (service : Service F) (prompts : List (List ℕ)) (b : Batch F) (cache : Cache) where
    open service use {block_pos_stride as stride, batch_sizes, prefill_functions, decode_functions}

    abbrev pub Succeeds : ℕ → F → F → Type 0
    Succeeds a pf df =
        (b' : Batch F) × (cache' : Cache) × (set_sequences service (map request_of prompts)
            (b, cache)
          ≡ (ok tt, (b', cache')))
        × Ready stride a pf df prompts b'

    taken_run :
        (a : ℕ) (pf df : F) (r : Reserve) (cache : Cache) (blocks kept : List Entry)
        → 0 < r.bs
        → allowed_batch_size batch_sizes r.bs ≡ some a
        → lookup a prefill_functions ≡ some pf
        → lookup a decode_functions ≡ some df
        → acquire_attn_blocks r.attn_blocks_required (cache, [])
          ≡ (ok tt, (record cache { attn_block_free = kept }, blocks))
        → assign service b cache (ok tt, r) ≡ (
          ok tt,
          (
            record b {
              sequences = distribute blocks 0 r.sequences;
              prefill_function = some pf;
              decode_function = some df;
              bs = some a;
              max_attn_blocks_length = some r.max_attn_blocks_length;
              max_seq_length = some r.max_seq_length;
            },
            record cache { attn_block_free = kept },
          ),
        )
    unfolding assign choose place save
    taken_run a pf df r cache blocks kept some_prompt size prefill decode run =
        rw (assign, lt→ltb 0 r.bs some_prompt, choose, size, prefill, decode, place, run)

    -- A batch that has no sequences yet takes any non-empty list of tokenized prompts that one of the
    -- service's batch sizes holds, if the first such size has its two functions, the stride is
    -- positive and the cache has enough free blocks. The batch then has this size and its functions,
    -- and for each prompt, in order, a sequence with that prompt and blocks for its positions and one
    -- more.
    pub set_sequences-Succeeds :
        (before after : List ℕ) (a : ℕ) (pf df : F)
        → b.sequences ≡ []
        → 0 < stride
        → 0 < length prompts
        → batch_sizes ≡ before ++ a ∷ after
        → All (λ s. s < length prompts) before
        → length prompts ≤ a
        → lookup a prefill_functions ≡ some pf
        → lookup a decode_functions ≡ some df
        → blocks_required stride prompts ≤ length cache.attn_block_free
        → Succeeds a pf df
    set_sequences-Succeeds before after a pf df new some_stride some_prompt sizes small holds
          prefill decode room =
        let size : allowed_batch_size batch_sizes (length prompts) ≡ some a =
          rw sizes (allowed_batch_size_first before after a (length prompts) small holds) in
        let r = plan stride prompts reserve_start in
        let (seqs, bs, blocks) = plan_lem stride prompts reserve_start in
        let count : r.bs ≡ length prompts = omega (arith, bs) in
        let (kept, taken, parts, amount, run) =
          acquire_attn_blocks_ok r.attn_blocks_required cache [] (omega (arith, blocks)) in
        let (served, in_order) =
          distribute-Serves stride (reverse taken) 0 prompts some_stride
            (omega (arith, length-reverse taken, amount, blocks)) in
        (
          record b {
            sequences = distribute (reverse taken) 0 r.sequences;
            prefill_function = some pf;
            decode_function = some df;
            bs = some a;
            max_attn_blocks_length = some r.max_attn_blocks_length;
            max_seq_length = some r.max_seq_length;
          },
          record cache { attn_block_free = kept },
          rw
              (
                started service (map request_of prompts) b cache new,
                reserve-plan stride prompts reserve_start some_stride,
              )
              (taken_run a pf df r cache (reverse taken) kept (omega (arith, bs))
                (ap (allowed_batch_size batch_sizes) count ∙ size) prefill decode run),
          record {
            batch_size = refl;
            prefill = refl;
            decode = refl;
            served = rw seqs served;
            in_order = rw seqs in_order;
          },
        )
