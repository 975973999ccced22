-- ===== src/Layers/KvCache.antt =====
-- layers/kv_cache.py: PagedKVCache, a cache of keys and values on a table of pages. A tensor is
-- torch's, and enters by its shape and its elements in row-major order; a tensor of page ids is its
-- two dimensions and its elements in that order.
pub mod Tensors
pub mod Cells
pub mod Access
pub mod Writes
pub mod RoundTrip
pub mod Timestep
pub mod Step
use shark_turbine.Common.{
  ℕ, zero, suc, ◌+◌, ◌*◌, ◌/◌, ◌%◌, ◌&&◌, nat_beq, get_elem?, Bool, true, false, List, [], ◌∷◌,
  ◌++◌, Option, none, some, length, map, if◌then◌else◌, ltb,
}
use shark_turbine.Common.Exc.{
  Exc, assertion_error, index_error, runtime_error, check, ◌>>◌, or_raise, Result, ok, err, Exec,
  ◌>>=◌,
}

-- math.prod
unfoldable pub prod : List ℕ → ℕ
prod [] = 1
prod (d ∷ dims) = d * prod dims

pub record Torch : Type 1 where
  pub Tensor : Type 0
  pub Elem : Type 0
  pub shape : Tensor → List ℕ
  pub flat : Tensor → ℕ → Elem
  -- torch.empty(dims)
  pub empty : List ℕ → Tensor
  -- t.reshape([-1, *dims]) and t.reshape(dims)
  pub reshape_inferred : List ℕ → Tensor → Result Tensor
  pub reshape : List ℕ → Tensor → Result Tensor
  -- t.flatten(0, 2), t.flatten(0, 1), t.flatten(1, 2) and t.unflatten(0, [m, n])
  pub flatten_0_2 : Tensor → Tensor
  pub flatten_0_1 : Tensor → Tensor
  pub flatten_1_2 : Tensor → Tensor
  pub unflatten : ℕ → ℕ → Tensor → Result Tensor
  -- torch.index_select(t, 0, ids) and t.index_copy_(0, ids, source): what t is then
  pub index_select : Tensor → List ℕ → Result Tensor
  pub index_copy : Tensor → List ℕ → Tensor → Result Tensor
  -- t[i, j], and table.index_put_(([p], [b], [i], [o]), values): what the table is then
  pub index : Tensor → ℕ → ℕ → Result Tensor
  pub index_put : Tensor → (p b i o : ℕ) → Tensor → Result Tensor
  -- into[...] = t: what `into` is then
  pub copy_into : Tensor → Tensor → Result Tensor
  -- Whether a reshape to these dimensions, the first one inferred, is a view and not a copy.
  pub reshape_is_view : Tensor → List ℕ → Bool
  -- A tensor, once a view of it has been written to and is now the second tensor.
  pub through_view : Tensor → Tensor → Tensor

-- A tensor [bs, block_seq_len] of page ids.
pub record PageIds : Type 0 where
  pub bs : ℕ
  pub block_seq_len : ℕ
  pub ids : List ℕ

-- The attributes that the constructor is given.
pub record PagedKvCache : Type 0 where
  pub transformer_block_count : ℕ
  pub attn_head_count : ℕ
  pub attn_head_dim : ℕ
  pub cache_partition_count : ℕ
  pub block_seq_stride : ℕ

-- self.sub_page_dims and self.page_slab_flat_dim
unfoldable pub sub_page_dims : PagedKvCache → List ℕ
sub_page_dims c =
    c.transformer_block_count ∷ c.cache_partition_count ∷ c.block_seq_stride ∷ c.attn_head_count
    ∷ c.attn_head_dim ∷ []

unfoldable pub page_slab_flat_dim : PagedKvCache → ℕ
page_slab_flat_dim c = prod (sub_page_dims c)

-- page_stride, transformer_block_stride and base_subblock_ids
unfoldable pub base_subblock_ids : PagedKvCache → (transformer_block_index : ℕ) → List ℕ → List ℕ
base_subblock_ids c b ids =
    let page_stride = c.transformer_block_count * c.cache_partition_count in
    let transformer_block_stride = c.cache_partition_count in
    map (λ id. id * page_stride + b * transformer_block_stride) ids

unfoldable pub subblock_ids : (index : ℕ) → List ℕ → List ℕ
subblock_ids index base = if ltb 0 index then map (λ id. id + index) base else base

-- The last dimensions of a block: those of a sub-block of a page.
unfoldable pub block_dims : PagedKvCache → List ℕ
block_dims c = c.block_seq_stride ∷ c.attn_head_count ∷ c.attn_head_dim ∷ []

-- blocked_shape
unfoldable pub blocked_shape : PagedKvCache → PageIds → List ℕ
blocked_shape c pages = pages.bs ∷ pages.block_seq_len ∷ block_dims c

module _ (T : Torch) where
  -- `[page_slab] = state`, with the assertion on the length of the state.
  unfoldable pub page_slab : List T.Tensor → Result T.Tensor
  page_slab [] = err assertion_error
  page_slab (t ∷ []) = ok t
  page_slab (t ∷ u ∷ ts) = err assertion_error

  unfoldable pub unflatten_page_table : PagedKvCache → List T.Tensor → Result T.Tensor
  unflatten_page_table c state = page_slab state >>= T.reshape_inferred (sub_page_dims c)

  -- The slab, once its table was written to: a table that is a copy leaves it.
  unfoldable pub after_writes : PagedKvCache → (slab table : T.Tensor) → T.Tensor
  after_writes c slab table =
      if T.reshape_is_view slab (sub_page_dims c) then T.through_view slab table else slab

  unfoldable pub allocate_pages : PagedKvCache → (page_count : ℕ) → List T.Tensor
  allocate_pages c page_count = T.empty (page_count ∷ page_slab_flat_dim c ∷ []) ∷ []

  unfoldable pub read_cache_partition :
      PageIds → (table : T.Tensor) → (base : List ℕ) → ℕ → T.Tensor → Result T.Tensor
  read_cache_partition pages table base index into =
      T.index_select table (subblock_ids index base) >>= λ blocks.
      T.unflatten pages.bs pages.block_seq_len blocks >>= λ selected.
      T.copy_into into (T.flatten_1_2 selected)

  -- The loop over the partitions to read into, from an index on.
  unfoldable pub read_partitions :
      PageIds → (table : T.Tensor) → (base : List ℕ) → ℕ → List T.Tensor → Result (List T.Tensor)
  read_partitions pages table base index [] = ok []
  read_partitions pages table base index (into ∷ rest) =
      read_cache_partition pages table base index into >>= λ now.
      read_partitions pages table base (index + 1) rest >>= λ later. ok (now ∷ later)

  -- PagedKVCache.read: what the partitions are then.
  unfoldable pub read :
      PagedKvCache → List T.Tensor → List T.Tensor → ℕ → PageIds → Result (List T.Tensor)
  read c state partitions b pages = unflatten_page_table c state >>= λ table.
      read_partitions pages (T.flatten_0_2 table) (base_subblock_ids c b pages.ids) 0 partitions

  unfoldable pub write_cache_partition :
      PagedKvCache → PageIds → (base : List ℕ) → ℕ → T.Tensor → (table : T.Tensor) → Result T.Tensor
  write_cache_partition c pages base index part table =
      T.reshape (blocked_shape c pages) part >>= λ blocks.
      T.index_copy table (subblock_ids index base) (T.flatten_0_1 blocks)

  -- The loop over the partitions to write, from an index on, on the table.
  unfoldable pub write_partitions :
      PagedKvCache → PageIds → (base : List ℕ) → ℕ → List T.Tensor → Exec T.Tensor (Unit {0})
  write_partitions c pages base index [] table = (ok tt, table)
  write_partitions c pages base index (part ∷ rest) table =
      elim (write_cache_partition c pages base index part table) [
        | err e ↦ (err e, table)
        | ok now ↦ write_partitions c pages base (index + 1) rest now
      ]

  -- PagedKVCache.write. The table of sub-blocks is a view of the slab.
  unfoldable pub write :
      PagedKvCache → List T.Tensor → ℕ → PageIds → Exec (List T.Tensor) (Unit {0})
  write c partitions b pages state = elim (page_slab state) [
    | err e ↦ (err e, state)
    | ok slab ↦ elim (unflatten_page_table c state) [
      | err e ↦ (err e, state)
      | ok table ↦
          let out =
            write_partitions c pages (base_subblock_ids c b pages.ids) 0 partitions
              (T.flatten_0_2 table) in
          (out.0, after_writes c slab out.1 ∷ [])
    ]
  ]

  -- `page_ids[i, :].index_select(0, j)`
  unfoldable pub page_at : PageIds → (i j : ℕ) → Result ℕ
  page_at pages i j =
      if ltb i pages.bs && ltb j pages.block_seq_len
      then or_raise (get_elem? pages.ids (i * pages.block_seq_len + j)) index_error
      else err index_error

  -- The loop over the partitions of a position, from an index on.
  unfoldable pub put_partitions : (i p o b : ℕ) → ℕ → List T.Tensor → Exec T.Tensor (Unit {0})
  put_partitions i p o b index [] table = (ok tt, table)
  put_partitions i p o b index (part ∷ rest) table =
      elim (T.index part i 0 >>= T.index_put table p b index o) [
        | err e ↦ (err e, table)
        | ok now ↦ put_partitions i p o b (index + 1) rest now
      ]

  -- The loop over the sequences, from the `i`-th on. torch raises RuntimeError for a stride of 0.
  unfoldable pub put_positions :
      PagedKvCache → PageIds → (b : ℕ) → List T.Tensor → (i : ℕ) → List ℕ → Exec T.Tensor (Unit {0})
  put_positions c pages b parts i [] table = (ok tt, table)
  put_positions c pages b parts i (position ∷ positions) table =
      elim (check (ltb 0 c.block_seq_stride) runtime_error
        >> page_at pages i (position / c.block_seq_stride)) [
          | err e ↦ (err e, table)
          | ok p ↦
              let out = put_partitions i p (position % c.block_seq_stride) b 0 parts table in
              elim out.0 [
                | err e ↦ (err e, out.1)
                | ok _ ↦ put_positions c pages b parts (i + 1) positions out.1
              ]
        ]

  -- PagedKVCache.write_timestep, which takes as many partitions as a page has. The table is a view
  -- of the slab.
  unfoldable pub write_timestep :
      PagedKvCache
      → List T.Tensor
      → (b : ℕ) → (seq_positions : List ℕ) → PageIds
      → Exec (List T.Tensor) (Unit {0})
  write_timestep c parts b positions pages state = elim (page_slab state) [
    | err e ↦ (err e, state)
    | ok slab ↦
        elim (unflatten_page_table c state >>= λ table.
        check (nat_beq (length parts) c.cache_partition_count) assertion_error >> ok table) [
          | err e ↦ (err e, state)
          | ok table ↦
              let out = put_positions c pages b parts 0 positions table in
              (out.0, after_writes c slab out.1 ∷ [])
        ]
  ]
