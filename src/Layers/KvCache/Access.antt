-- ===== src/Layers/KvCache/Access.antt =====
-- layers/kv_cache.py: what a write leaves in the table and what a read takes from it.
use shark_turbine.Common.{
  true, ℕ, ◌+◌, ◌*◌, ◌<◌, ◌≡◌, ◌≢◌, sym, ap, ◌∙◌, List, [], ◌∷◌, some, length, get_elem?, All, map,
  arith, length-map,
}
use shark_turbine.Common.Exc.{Result, ok}
use shark_turbine.Layers.KvCache.{
  Torch, prod, PageIds, PagedKvCache, sub_page_dims, page_slab_flat_dim, base_subblock_ids,
  block_dims, blocked_shape, page_slab, unflatten_page_table, write_cache_partition,
}
use shark_turbine.Layers.KvCache.Tensors.{Distinct, Lawful}
use shark_turbine.Layers.KvCache.Cells.{
  cell, cell_unique, cell_lt, get_elem-map, map-get_elem, Distinct-map, All-map, subblock_ids_lem,
}

-- The ids are those of pages, one for each block, and distinct.
pub record ArePages (n : ℕ) (pages : PageIds) : Type 0 where
  pub count : length pages.ids ≡ pages.bs * pages.block_seq_len
  pub in_range : All (λ p. p < n) pages.ids
  pub differ : Distinct pages.ids

times_one : (m k : ℕ) → m * (k * 1) ≡ m * k
times_one m k = grind arith

module _ (T : Torch) (L : Lawful T) (c : PagedKvCache) (n : ℕ) where
  -- A slab of `n` pages.
  pub record IsSlab (slab : T.Tensor) : Type 0 where
    pub dims_are : T.shape slab ≡ n ∷ page_slab_flat_dim c ∷ []
    pub nonempty : 0 < prod (sub_page_dims c)
    pub viewed : T.reshape_is_view slab (sub_page_dims c) ≡ true

  abbrev pub rows : ℕ
  rows = n * c.transformer_block_count * c.cache_partition_count

  slab_size : prod (n ∷ page_slab_flat_dim c ∷ []) ≡ n * prod (sub_page_dims c)
  unfolding prod page_slab_flat_dim
  slab_size = times_one n (prod (sub_page_dims c))

  pub record HasTable (slab : T.Tensor) : Type 0 where
    pub table : T.Tensor
    pub unflattened : unflatten_page_table T c (slab ∷ []) ≡ ok table
    pub table_dims : T.shape table ≡ n ∷ sub_page_dims c
    pub table_elements : (k : ℕ) → T.flat table k ≡ T.flat slab k
    pub dims_are : T.shape (T.flatten_0_2 table) ≡ rows ∷ block_dims c
    pub same_elements : (k : ℕ) → T.flat (T.flatten_0_2 table) k ≡ T.flat slab k

  pub IsSlab-HasTable : (slab : T.Tensor) → IsSlab slab → HasTable slab
  unfolding unflatten_page_table page_slab sub_page_dims block_dims
  IsSlab-HasTable slab h =
      let size : prod (T.shape slab) ≡ n * prod (sub_page_dims c) =
        ap prod h.dims_are ∙ slab_size in
      let t = L.reshape_inferred_law slab n (sub_page_dims c) h.nonempty size in
      let flat =
        L.flatten_0_2_law t.tensor n c.transformer_block_count c.cache_partition_count
          (block_dims c) t.resized.dims_are in
      record {
        table = t.tensor;
        unflattened = t.returned;
        table_dims = t.resized.dims_are;
        table_elements = t.resized.same_elements;
        dims_are = flat.dims_are;
        same_elements = λ k. flat.same_elements k ∙ t.resized.same_elements k;
      }

  module _ (b : ℕ) (pages : PageIds) (ok_pages : ArePages n pages)
      (in_block : b < c.transformer_block_count) where
    abbrev pub inner : ℕ
    inner = prod (block_dims c)

    abbrev pub cells : ℕ → List ℕ
    cells i = map (λ p. cell c p b i) pages.ids

    pub cells_lt : (i : ℕ) → i < c.cache_partition_count → All (λ q. q < rows) (cells i)
    cells_lt i hi =
        All-map _ _ (λ p. cell c p b i) pages.ids (λ p hp. cell_lt c n p b i hp in_block hi)
          ok_pages.in_range

    cells-Distinct : (i : ℕ) → i < c.cache_partition_count → Distinct (cells i)
    cells-Distinct i hi =
        Distinct-map (λ p. cell c p b i) pages.ids
          (λ p q e. (cell_unique c p q b b i i in_block in_block hi hi e).0) ok_pages.differ

    pub length-cells : (i : ℕ) → length (cells i) ≡ pages.bs * pages.block_seq_len
    length-cells i = length-map (λ p. cell c p b i) pages.ids ∙ ok_pages.count

    -- The elements of a partition, block by block: those of the table's cells.
    pub record Holds (table part : T.Tensor) (i : ℕ) : Type 0 where
      pub blocks :
          (r p k : ℕ)
          → get_elem? pages.ids r ≡ some p
          → k < inner
          → T.flat table (cell c p b i * inner + k) ≡ T.flat part (r * inner + k)

    -- A part has as many elements as the blocks.
    pub record IsPart (part : T.Tensor) : Type 0 where
      pub size : prod (T.shape part) ≡ prod (blocked_shape c pages)

    pub record Wrote (table part : T.Tensor) (i : ℕ) (result : Result T.Tensor) : Type 0 where
      pub now : T.Tensor
      pub returned : result ≡ ok now
      pub dims_are : T.shape now ≡ T.shape table
      pub holds : Holds now part i
      pub kept :
          (q k : ℕ)
          → ((r p : ℕ) → get_elem? pages.ids r ≡ some p → q ≢ cell c p b i)
          → k < inner
          → T.flat now (q * inner + k) ≡ T.flat table (q * inner + k)

    pub write_cache_partition-Wrote :
        (i : ℕ) (table part : T.Tensor)
        → i < c.cache_partition_count
        → T.shape table ≡ rows ∷ block_dims c
        → IsPart part
        → Wrote table part i
            (write_cache_partition T c pages (base_subblock_ids c b pages.ids) i part table)
    unfolding write_cache_partition blocked_shape
    write_cache_partition-Wrote i table part hi hd hp =
        let blocks = L.reshape_law part (blocked_shape c pages) hp.size in
        let source =
          L.flatten_0_1_law blocks.tensor pages.bs pages.block_seq_len (block_dims c)
            blocks.resized.dims_are in
        let copied =
          L.index_copy_law table (T.flatten_0_1 blocks.tensor) rows (cells i) (block_dims c) hd
            (cells_lt i hi) (cells-Distinct i hi)
            (source.dims_are ∙ ap (λ m. m ∷ block_dims c) (sym (length-cells i))) in
        record {
          now = copied.tensor;
          returned =
              rw (write_cache_partition, blocks.returned, subblock_ids_lem c b i pages.ids)
                copied.returned;
          dims_are = copied.dims_are;
          holds = record {
            blocks = λ r p k hr hk.
                copied.written r (cell c p b i) k
                  (get_elem-map (λ p. cell c p b i) pages.ids r p hr) hk
                ∙ source.same_elements _
                ∙ blocks.resized.same_elements _;
          };
          kept = λ q k other hk.
              copied.kept q k
                (λ r e.
                  let (p, hp1, same) = map-get_elem (λ p. cell c p b i) pages.ids r q e in
                  other r p hp1 (sym same))
                hk;
        }
