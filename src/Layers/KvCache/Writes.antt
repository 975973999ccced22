-- ===== src/Layers/KvCache/Writes.antt =====
-- layers/kv_cache.py: the loop over the partitions of a write.
use shark_turbine.Common.{
  ℕ, ◌+◌, ◌*◌, ◌<◌, ◌≤◌, ◌≡◌, ◌≢◌, refl, ◌∙◌, List, [], ◌∷◌, some, length, get_elem?, All, arith,
}
use shark_turbine.Common.Exc.{Result, ok}
use shark_turbine.Layers.KvCache.{
  Torch, prod, PageIds, PagedKvCache, base_subblock_ids, block_dims, write_partitions,
}
use shark_turbine.Layers.KvCache.Tensors.{Lawful}
use shark_turbine.Layers.KvCache.Cells.{cell, cell_unique}
use shark_turbine.Layers.KvCache.Access.{ArePages, Holds, IsPart, write_cache_partition-Wrote}

module _ (T : Torch) (L : Lawful T) (c : PagedKvCache) (n b : ℕ) (pages : PageIds)
    (ok_pages : ArePages n pages) (in_block : b < c.transformer_block_count) where
  abbrev pub HoldsPart : T.Tensor → T.Tensor → ℕ → Type 0
  HoldsPart table part i = Holds T L c n b pages ok_pages in_block table part i

  abbrev pub AreParts : List T.Tensor → Type 0
  AreParts parts = All (IsPart T L c n b pages ok_pages in_block) parts

  -- The table holds the parts one after the other, from an index on.
  abbrev pub HoldsParts : T.Tensor → List T.Tensor → ℕ → Type 0
  HoldsParts table [] i = Unit
  HoldsParts table (part ∷ parts) i = HoldsPart table part i × HoldsParts table parts (i + 1)

  -- The cell is none of those written at the indices from `i` up to, but not with, `j`.
  pub record Apart (q i j : ℕ) : Type 0 where
    pub apart : (r p m : ℕ) → get_elem? pages.ids r ≡ some p → i ≤ m → m < j → q ≢ cell c p b m

  pub record WroteAll (table : T.Tensor) (parts : List T.Tensor) (i : ℕ)
      (out : Result (Unit {0}) × T.Tensor) : Type 0 where
    pub returned : out.0 ≡ ok tt
    pub dims_are : T.shape out.1 ≡ T.shape table
    pub holds : HoldsParts out.1 parts i
    pub kept :
        (q k : ℕ)
        → Apart q i (i + length parts)
        → k < prod (block_dims c)
        → T.flat out.1 (q * prod (block_dims c) + k) ≡ T.flat table (q * prod (block_dims c) + k)

  -- What a table holds at one index stays when only later indices are written.
  Holds-later :
      (table now part : T.Tensor) (i j : ℕ)
      → j ≤ c.cache_partition_count
      → i < c.cache_partition_count
      → ((q k : ℕ)
          → Apart q (i + 1) j
          → k < prod (block_dims c)
          → T.flat now (q * prod (block_dims c) + k) ≡ T.flat table (q * prod (block_dims c) + k))
      → HoldsPart table part i
      → HoldsPart now part i
  Holds-later table now part i j hj hi kept h = record {
    blocks = λ r p k hr hk.
        kept (cell c p b i) k
          (record {
            apart = λ s q m hs le lt e.
                let (_, _, same) = cell_unique c p q b b i m in_block in_block hi (omega arith) e in
                absurd (omega arith);
          })
          hk
        ∙ h.blocks r p k hr hk;
  }

  pub write_partitions-WroteAll :
      (parts : List T.Tensor) (i : ℕ) (table : T.Tensor)
      → i + length parts ≤ c.cache_partition_count
      → T.shape table ≡ n * c.transformer_block_count * c.cache_partition_count ∷ block_dims c
      → AreParts parts
      → WroteAll table parts i
          (write_partitions T c pages (base_subblock_ids c b pages.ids) i parts table)
  unfolding write_partitions
  write_partitions-WroteAll [] i table hi hd hp = record {
    returned = refl;
    dims_are = refl;
    holds = tt;
    kept = λ q k a hk. refl;
  }
  write_partitions-WroteAll (part ∷ parts) i table hi hd hp =
      let here : i < c.cache_partition_count = omega arith in
      let w =
        write_cache_partition-Wrote T L c n b pages ok_pages in_block i table part here hd hp.0 in
      let rest =
        write_partitions-WroteAll parts (i + 1) w.now (omega arith) (w.dims_are ∙ hd) hp.1 in
      rw (write_partitions, w.returned)
        (record {
          returned = rest.returned;
          dims_are = rest.dims_are ∙ w.dims_are;
          holds = (
            Holds-later w.now _ part i (i + 1 + length parts) (omega arith) here rest.kept w.holds,
            rest.holds,
          );
          kept = λ q k a hk.
              rest.kept q k
                (record { apart = λ r p m hr le lt. a.apart r p m hr (omega arith) (omega arith) })
                hk
              ∙ w.kept q k (λ r p hr. a.apart r p i hr (omega arith) (omega arith)) hk;
        })
