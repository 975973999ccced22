-- ===== src/Layers/KvCache/RoundTrip.antt =====
-- layers/kv_cache.py: whole writes and reads of a slab.
use shark_turbine.Common.{
  ℕ, suc, ◌+◌, ◌*◌, ◌<◌, ◌≤◌, ◌≡◌, refl, sym, ap, ◌∙◌, List, [], ◌∷◌, some, length, get_elem?, All,
  arith,
}
use shark_turbine.Common.Exc.{Result, ok}
use shark_turbine.Layers.KvCache.{
  Torch, prod, PageIds, PagedKvCache, base_subblock_ids, block_dims, read_cache_partition,
  read_partitions, read,
}
use shark_turbine.Layers.KvCache.Tensors.{Lawful}
use shark_turbine.Layers.KvCache.Cells.{cell, get_elem-map, subblock_ids_lem}
use shark_turbine.Layers.KvCache.Access.{
  ArePages, IsSlab, IsSlab-HasTable, cells, cells_lt, length-cells,
}
use shark_turbine.Layers.KvCache.Writes.{HoldsPart, HoldsParts, Apart}

module _ (T : Torch) (L : Lawful T) (c : PagedKvCache) (n b : ℕ) (pages : PageIds)
    (ok_pages : ArePages n pages) (in_block : b < c.transformer_block_count) where
  abbrev pub Stored : T.Tensor → List T.Tensor → ℕ → Type 0
  Stored slab parts i = HoldsParts T L c n b pages ok_pages in_block slab parts i

  -- A tensor to read a partition into.
  pub record IsInto (into : T.Tensor) : Type 0 where
    pub dims_are :
        T.shape into
        ≡ pages.bs
          ∷ pages.block_seq_len * c.block_seq_stride
          ∷ c.attn_head_count
          ∷ c.attn_head_dim
          ∷ []

  Holds-same :
      (t u part : T.Tensor) (i : ℕ)
      → ((k : ℕ) → T.flat u k ≡ T.flat t k)
      → HoldsPart T L c n b pages ok_pages in_block t part i
      → HoldsPart T L c n b pages ok_pages in_block u part i
  Holds-same t u part i same h = record { blocks = λ r p k hr hk. same _ ∙ h.blocks r p k hr hk }

  Stored-same :
      (t u : T.Tensor) (parts : List T.Tensor) (i : ℕ)
      → ((k : ℕ) → T.flat u k ≡ T.flat t k)
      → Stored t parts i
      → Stored u parts i
  Stored-same t u [] i same h = tt
  Stored-same t u (part ∷ parts) i same h =
      (Holds-same t u part i same h.0, Stored-same t u parts (i + 1) same h.1)

  record ReadOne (table : T.Tensor) (i : ℕ) (result : Result T.Tensor) : Type 0 where
    now : T.Tensor
    returned : result ≡ ok now
    holds : HoldsPart T L c n b pages ok_pages in_block table now i

  read_cache_partition-ReadOne :
      (i : ℕ) (table into : T.Tensor)
      → i < c.cache_partition_count
      → T.shape table ≡ n * c.transformer_block_count * c.cache_partition_count ∷ block_dims c
      → IsInto into
      → ReadOne table i
          (read_cache_partition T pages table (base_subblock_ids c b pages.ids) i into)
  unfolding read_cache_partition block_dims
  read_cache_partition-ReadOne i table into hi hd hp =
      let ids = cells T L c n b pages ok_pages in_block i in
      let selected =
        L.index_select_law table _ ids (block_dims c) hd
          (cells_lt T L c n b pages ok_pages in_block i hi) in
      let count = length-cells T L c n b pages ok_pages in_block i in
      let blocks =
        L.unflatten_law selected.tensor pages.bs pages.block_seq_len (block_dims c)
          (selected.dims_are ∙ ap (λ m. m ∷ block_dims c) count) in
      let joined =
        L.flatten_1_2_law blocks.tensor pages.bs pages.block_seq_len c.block_seq_stride
          (c.attn_head_count ∷ c.attn_head_dim ∷ []) blocks.resized.dims_are in
      let read =
        L.copy_into_law into (T.flatten_1_2 blocks.tensor) (hp.dims_are ∙ sym joined.dims_are) in
      record {
        now = read.tensor;
        returned =
            rw
              (
                read_cache_partition,
                subblock_ids_lem c b i pages.ids,
                selected.returned,
                blocks.returned,
              )
              read.returned;
        holds = record {
          blocks = λ r p k hr hk. sym (
              read.resized.same_elements _
              ∙ joined.same_elements _
              ∙ blocks.resized.same_elements _
              ∙ selected.rows r (cell c p b i) k (get_elem-map (λ p. cell c p b i) pages.ids r p hr)
                  hk);
        };
      }

  pub record ReadAll (slab : T.Tensor) (parts : List T.Tensor) (i : ℕ)
      (result : Result (List T.Tensor)) : Type 0 where
    pub parts_now : List T.Tensor
    pub returned : result ≡ ok parts_now
    pub as_many : length parts_now ≡ length parts
    pub stored : Stored slab parts_now i

  read_partitions-ReadAll :
      (parts : List T.Tensor) (i : ℕ) (table : T.Tensor)
      → i + length parts ≤ c.cache_partition_count
      → T.shape table ≡ n * c.transformer_block_count * c.cache_partition_count ∷ block_dims c
      → All IsInto parts
      → ReadAll table parts i
          (read_partitions T pages table (base_subblock_ids c b pages.ids) i parts)
  unfolding read_partitions
  read_partitions-ReadAll [] i table hi hd hp = record {
    parts_now = [];
    returned = refl;
    as_many = refl;
    stored = tt;
  }
  read_partitions-ReadAll (part ∷ parts) i table hi hd hp =
      let one = read_cache_partition-ReadOne i table part (omega arith) hd hp.0 in
      let rest = read_partitions-ReadAll parts (i + 1) table (omega arith) hd hp.1 in
      record {
        parts_now = one.now ∷ rest.parts_now;
        returned = rw (read_partitions, one.returned, rest.returned) refl;
        as_many = ap suc rest.as_many;
        stored = (one.holds, rest.stored);
      }

  pub read-ReadAll :
      (slab : T.Tensor) (parts : List T.Tensor)
      → IsSlab T L c n slab
      → length parts ≤ c.cache_partition_count
      → All IsInto parts
      → ReadAll slab parts 0 (read T c (slab ∷ []) parts b pages)
  unfolding read
  read-ReadAll slab parts hs hl hp =
      let t = IsSlab-HasTable T L c n slab hs in
      let out =
        read_partitions-ReadAll parts 0 (T.flatten_0_2 t.table) (omega arith) t.dims_are hp in
      record {
        parts_now = out.parts_now;
        returned = rw (read, t.unflattened) out.returned;
        as_many = out.as_many;
        stored = Stored-same _ slab out.parts_now 0 (λ k. sym (t.same_elements k)) out.stored;
      }

  pub record Writes (slab : T.Tensor) (parts : List T.Tensor)
      (out : Result (Unit {0}) × List T.Tensor) : Type 0 where
    pub slab_now : T.Tensor
    pub written : out ≡ (ok tt, slab_now ∷ [])
    pub still_slab : IsSlab T L c n slab_now
    pub stored : Stored slab_now parts 0
    pub kept :
        (q k : ℕ)
        → Apart T L c n b pages ok_pages in_block q 0 (length parts)
        → k < prod (block_dims c)
        → T.flat slab_now (q * prod (block_dims c) + k) ≡ T.flat slab (q * prod (block_dims c) + k)

  -- Two lists of partitions with the same elements in the blocks of the pages.
  abbrev pub Agree : List T.Tensor → List T.Tensor → Type 0
  Agree [] [] = Unit
  Agree [] (u ∷ us) = ⊥
  Agree (t ∷ ts) [] = ⊥
  Agree (t ∷ ts) (u ∷ us) =
      ((r p k : ℕ)
        → get_elem? pages.ids r ≡ some p
        → k < prod (block_dims c)
        → T.flat t (r * prod (block_dims c) + k) ≡ T.flat u (r * prod (block_dims c) + k))
      × Agree ts us

  pub record ReadsBack (parts intos : List T.Tensor) (state : List T.Tensor) : Type 0 where
    pub parts_now : List T.Tensor
    pub returned : read T c state intos b pages ≡ ok parts_now
    pub agree : Agree parts_now parts
