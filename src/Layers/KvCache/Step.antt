-- ===== src/Layers/KvCache/Step.antt =====
-- layers/kv_cache.py: the whole of write_timestep on a slab.
use shark_turbine.Common.{
  ℕ, ◌+◌, ◌*◌, ◌<◌, ◌≡◌, refl, ◌∙◌, List, [], ◌∷◌, length, All, arith, nat_beq_self,
}
use shark_turbine.Common.Exc.{Result, ok}
use shark_turbine.Layers.KvCache.{
  after_writes, Torch, prod, PageIds, PagedKvCache, page_slab, sub_page_dims, put_positions,
  write_timestep,
}
use shark_turbine.Layers.KvCache.Tensors.{Lawful}
use shark_turbine.Layers.KvCache.Access.{IsSlab, IsSlab-HasTable}
use shark_turbine.Layers.KvCache.Timestep.{
  IsStep, HoldsRows-later, HavePages, NoClash, HoldsStep, StepApart, put_positions-StepDone,
}

module _ (T : Torch) (L : Lawful T) (c : PagedKvCache) (n b count : ℕ) (pages : PageIds)
    (in_block : b < c.transformer_block_count) where
  abbrev pub StepStored : T.Tensor → List T.Tensor → ℕ → List ℕ → Type 0
  StepStored t parts i xs = HoldsStep T L c n b count pages in_block t parts i xs

  StepStored-same :
      (t u : T.Tensor) (parts : List T.Tensor) (i : ℕ) (xs : List ℕ)
      → ((k : ℕ) → T.flat u k ≡ T.flat t k)
      → StepStored t parts i xs
      → StepStored u parts i xs
  StepStored-same t u parts i [] same h = tt
  StepStored-same t u parts i (x ∷ xs) same h = (
    (λ p e.
        HoldsRows-later T L c n b count pages in_block t u parts i p 0 _ (length parts)
          (omega arith) (λ s k hs hk. same _) (h.0 p e)),
    StepStored-same t u parts (i + 1) xs same h.1,
  )

  pub record Steps (slab : T.Tensor) (parts : List T.Tensor) (xs : List ℕ)
      (out : Result (Unit {0}) × List T.Tensor) : Type 0 where
    pub slab_now : T.Tensor
    pub written : out ≡ (ok tt, slab_now ∷ [])
    pub still_slab : IsSlab T L c n slab_now
    pub stored : StepStored slab_now parts 0 xs
    pub kept :
        (q k : ℕ)
        → StepApart T L c n b count pages in_block q (length parts) 0 xs
        → k < prod (c.attn_head_count ∷ c.attn_head_dim ∷ [])
        → T.flat slab_now (q * prod (c.attn_head_count ∷ c.attn_head_dim ∷ []) + k)
          ≡ T.flat slab (q * prod (c.attn_head_count ∷ c.attn_head_dim ∷ []) + k)

  -- Given torch's laws of reshaping, indexing and putting rows: on a slab of n pages whose
  -- reshape is a view, a write of one position for each sequence, with as many partitions as a
  -- page has, each with one position for each sequence, to a transformer block of the cache and a
  -- positive stride, where each position has a page below n and no two sequences have the same
  -- page and place, succeeds and leaves such a slab; in it each sequence's row of each partition
  -- stands at the sequence's page, the block, the partition and the position's place, and every
  -- row that no sequence writes is as it was.
  pub write_timestep-Steps :
      (slab : T.Tensor) (parts : List T.Tensor) (xs : List ℕ)
      → IsSlab T L c n slab
      → 0 < c.block_seq_stride
      → length parts ≡ c.cache_partition_count
      → length xs ≡ count
      → All (IsStep T L c n b count pages in_block) parts
      → HavePages T L c n b count pages in_block 0 xs
      → NoClash T L c n b count pages in_block 0 xs
      → Steps slab parts xs (write_timestep T c parts b xs pages (slab ∷ []))
  unfolding write_timestep after_writes page_slab sub_page_dims
  write_timestep-Steps slab parts xs hs pos hl hx hp pages_ nc =
      let t = IsSlab-HasTable T L c n slab hs in
      let out =
        put_positions-StepDone T L c n b count pages in_block parts xs 0 t.table (omega arith)
          (omega arith) pos t.table_dims hp pages_ nc in
      let table = (put_positions T c pages b parts 0 xs t.table).1 in
      let now = L.through_view_law slab table in
      record {
        slab_now = T.through_view slab table;
        written =
            rw
              (
                write_timestep,
                t.unflattened,
                hl,
                nat_beq_self c.cache_partition_count,
                out.returned,
                after_writes,
                hs.viewed,
              )
              refl;
        still_slab = record {
          dims_are = now.dims_are ∙ hs.dims_are;
          nonempty = hs.nonempty;
          viewed = L.layout_law slab table (sub_page_dims c) ∙ hs.viewed;
        };
        stored = StepStored-same table _ parts 0 xs now.same_elements out.holds;
        kept = λ q k a hk. now.same_elements _ ∙ out.kept q k a hk ∙ t.table_elements _;
      }
