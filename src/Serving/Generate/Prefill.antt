-- ===== src/Serving/Generate/Prefill.antt =====
-- `_initialize_transfer_pools` and `prefill` of serving/turbine_serving/llm/impl/service_v1.py, and
-- `h2d_array` of serving/turbine_serving/framework/session.py. The host arrays are lists of rows;
-- a numpy write that does not fit its row raises. The views of a transfer buffer, the conversion of
-- a number to an element type and the invocation of a compiled function are those of the IREE
-- runtime and of numpy, and enter as an interface (Backend).
pub mod Bounds
pub mod Buffers
pub mod Rows
use shark_turbine.Common.{
  ℕ, zero, suc, ◌+◌, ◌*◌, ◌/◌, ◌-◌, Bool, true, false, List, [], ◌∷◌, ◌++◌, map, Option, none, some,
  length, replicate, leb, nat_beq, if◌then◌else◌,
}
use shark_turbine.Common.Exc.{
  Result, Exec, ok, err, attribute_error, index_error, value_error, zero_division_error, check,
  or_raise, ◌>>=◌, ◌>>◌,
}
use shark_turbine.Serving.Config.{Hal, ServiceParams, max_batch_size}
use shark_turbine.Serving.Session.Pool.{Store, acquire_transfer_buffer, shaped_size, prod}
use shark_turbine.Serving.Session.WorkQueue.{
  WorkQueue, Span, Guarded, execute_sequential, step_fences, guard,
}
use shark_turbine.Serving.BlockCache.{Entry}
use shark_turbine.Serving.Generate.{Sequence, Batch}

-- The bytes of one buffer of each transfer pool.
pub record PoolSizes : Type 0 where
  pub block_indices : ℕ
  pub prefill_tokens : ℕ
  pub prefill_seq_lens : ℕ

-- The initial capacity and growth of the pools do not bear on their sizes.
unfoldable pub initialize_transfer_pools :
    (hal : Hal) → ServiceParams hal.ElementType → Result PoolSizes
initialize_transfer_pools hal params = do
  max_bs ← max_batch_size params.model
  let max_sl = params.model.max_seq_len
  check (if nat_beq params.cache.block_pos_stride 0 then false else true) zero_division_error
  blocks ← shaped_size hal (max_bs ∷ max_sl / params.cache.block_pos_stride ∷ []) hal.int_16
  tokens ← shaped_size hal (max_bs ∷ max_sl ∷ []) hal.int_32
  seq_lens ← shaped_size hal (max_bs ∷ []) hal.int_16
  ok (record { block_indices = blocks; prefill_tokens = tokens; prefill_seq_lens = seq_lens })

-- The length of the view that `h2d_array` makes of its buffers.
unfoldable pub h2d_array_bytes : (hal : Hal) → List ℕ → hal.ElementType → ℕ
unfolding prod
h2d_array_bytes hal shape t = prod shape * hal.dense_byte_count t

-- The views that `prefill` makes: of the tokens, the sequence lengths and the block indices.
unfoldable pub prefill_bytes : (hal : Hal) → ℕ → ℕ → ℕ → PoolSizes
unfolding h2d_array_bytes
prefill_bytes hal bs max_seq_length max_attn_blocks_length = record {
  block_indices = h2d_array_bytes hal (bs ∷ max_attn_blocks_length ∷ []) hal.int_16;
  prefill_tokens = h2d_array_bytes hal (bs ∷ max_seq_length ∷ []) hal.int_32;
  prefill_seq_lens = h2d_array_bytes hal (bs ∷ []) hal.int_32;
}

-- The host side of the three arrays.
pub record Arrays : Type 0 where
  pub tokens : List (List ℕ)
  pub seq_lens : List ℕ
  pub block_indices : List (List ℕ)

-- What prefill uses of the IREE runtime and of numpy.
pub record Backend (hal : Hal) (F : Type 0) : Type 1 where
  -- The array over the host side of a buffer of this size, the view of its device side, and the
  -- recording of the copy, for this shape and element type.
  pub view : ℕ → List ℕ → hal.ElementType → Result (Unit {0})
  -- A number that is assigned to an element of this type.
  pub convert : hal.ElementType → ℕ → Result ℕ
  pub BufferView : Type 0
  -- The invocation of a function on the arrays, and its first output.
  pub invoke : F → Arrays → Result BufferView

-- The pools of the service, by their numbers in the store.
pub record TransferPools : Type 0 where
  pub block_indices : ℕ
  pub prefill_tokens : ℕ
  pub prefill_seq_lens : ℕ

-- A row of zeros whose first places are written.
unfoldable pub fill_row : ℕ → List ℕ → List ℕ
fill_row width values = values ++ replicate (width - length values) 0

-- What `prefill` submits and returns: the arrays, the transfer's and the invocation's timepoints,
-- and the guarded result.
pub record Prefilled (V : Type 0) : Type 0 where
  pub arrays : Arrays
  pub transfer : Span
  pub invocation : Span
  pub result : Guarded V

module _ {hal : Hal} {F : Type 0} (D : Backend hal F) where
  -- resources.acquire_transfer_buffer(pool).h2d_array(cb, shape, element_type, fill_value=0)
  unfoldable pub acquire_array :
      (pool : ℕ) → List ℕ → hal.ElementType → Exec (Store × List ℕ) (Unit {0})
  acquire_array pool shape t s =
      let (acquired, (store, resources)) = acquire_transfer_buffer pool s in
      elim acquired [
        | err e ↦ (err e, (store, resources))
        | ok tb ↦ (D.view (store.size tb) shape t, (store, resources))
      ]

  abbrev pub followed_by :
      Result (Unit {0}) × (Store × List ℕ)
      → Exec (Store × List ℕ) (Unit {0})
      → Result (Unit {0}) × (Store × List ℕ)
  followed_by (err e, s) next = (err e, s)
  followed_by (ok _, s) next = next s

  -- The three arrays, in the order in which `prefill` acquires them.
  unfoldable pub acquire_arrays :
      TransferPools → (bs width blocks : ℕ) → Exec (Store × List ℕ) (Unit {0})
  unfolding acquire_array
  acquire_arrays pools bs width blocks s =
      followed_by
        (followed_by (acquire_array pools.prefill_tokens (bs ∷ width ∷ []) hal.int_32 s)
          (acquire_array pools.prefill_seq_lens (bs ∷ []) hal.int_32))
        (acquire_array pools.block_indices (bs ∷ blocks ∷ []) hal.int_16)

  -- The conversion of a list that is assigned.
  unfoldable pub convert_all : List ℕ → Result (List ℕ)
  convert_all [] = ok []
  convert_all (n ∷ ns) = D.convert hal.int_32 n >>= λ m. convert_all ns >>= λ ms. ok (m ∷ ms)

  -- The places of a row that are written one after the other.
  unfoldable pub write_blocks : ℕ → List ℕ → Result (List ℕ)
  write_blocks zero [] = ok []
  write_blocks zero (n ∷ ns) = err index_error
  write_blocks (suc width) [] = ok (replicate (suc width) 0)
  write_blocks (suc width) (n ∷ ns) =
      D.convert hal.int_16 n >>= λ m. write_blocks width ns >>= λ ms. ok (m ∷ ms)

  -- Both fill the rows of the sequences in order, and leave the rest zero.
  unfoldable pub populate : ℕ → ℕ → ℕ → List Sequence → Result Arrays
  unfolding fill_row convert_all write_blocks
  populate zero width blocks [] = ok (record { tokens = []; seq_lens = []; block_indices = [] })
  populate zero width blocks (s ∷ ss) = err index_error
  populate (suc rows) width blocks [] = do
    rest ← populate rows width blocks []
    ok (record {
      tokens = replicate width 0 ∷ rest.tokens;
      seq_lens = 0 ∷ rest.seq_lens;
      block_indices = replicate blocks 0 ∷ rest.block_indices;
    })
  populate (suc rows) width blocks (s ∷ ss) = do
    tokens ← convert_all s.prefill_token_ids
    check (leb (length s.prefill_token_ids) width) value_error
    seq_len ← D.convert hal.int_32 (length s.prefill_token_ids)
    indices ← write_blocks blocks (map (λ b. b.index) s.attn_blocks)
    rest ← populate rows width blocks ss
    ok (record {
      tokens = fill_row width tokens ∷ rest.tokens;
      seq_lens = seq_len ∷ rest.seq_lens;
      block_indices = indices ∷ rest.block_indices;
    })

  -- The end of `prefill`: the queue's steps, and the invocation behind them.
  unfoldable pub submit : Batch F → Arrays → Exec WorkQueue (Prefilled D.BufferView)
  unfolding execute_sequential step_fences guard
  submit b arrays q =
      let (transfer, q₁) = execute_sequential q in
      let (fences, q₂) = step_fences q₁ in
      (
        (or_raise b.prefill_function attribute_error >>= λ f. D.invoke f arrays >>= λ output.
            ok (record {
              arrays = arrays;
              transfer = transfer;
              invocation = fences;
              result = guard q₂ output;
            })),
        q₂,
      )

  -- `_bs`, `_max_seq_length` and `_max_attn_blocks_length`; reading one that is not set raises.
  unfoldable pub prefill_dims : Batch F → Result (ℕ × (ℕ × ℕ))
  prefill_dims b = do
    bs ← or_raise b.bs attribute_error
    max_seq_length ← or_raise b.max_seq_length attribute_error
    max_attn_blocks_length ← or_raise b.max_attn_blocks_length attribute_error
    ok (bs, (max_seq_length, max_attn_blocks_length))

  -- What follows the acquisition of the arrays.
  unfoldable pub fill_and_submit :
      (bs width blocks : ℕ)
      → Batch F
      → WorkQueue
      → Result (Unit {0}) × (Store × List ℕ)
      → Result (Prefilled D.BufferView) × ((Batch F × Store) × WorkQueue)
  unfolding populate submit
  fill_and_submit bs width blocks b q (acquired, (store, resources)) =
      let b' : Batch F = record b { resources = resources } in
      elim (acquired >> populate bs width blocks b.sequences) [
        | err e ↦ (err e, ((b', store), q))
        | ok arrays ↦ let (result, q') = submit b' arrays q in (result, ((b', store), q'))
      ]

  -- GenerateState.prefill, on the batch with its resources, the store of buffers, and the queue
  unfoldable pub prefill :
      TransferPools → Exec ((Batch F × Store) × WorkQueue) (Prefilled D.BufferView)
  unfolding prefill_dims acquire_arrays fill_and_submit
  prefill pools ((b, store), q) = elim (prefill_dims b) [
    | err e ↦ (err e, ((b, store), q))
    | ok (bs, (width, blocks)) ↦
        fill_and_submit bs width blocks b q
          (acquire_arrays pools bs width blocks (store, b.resources))
  ]
