-- ===== src/Layers/KvCache/Timestep.antt =====
-- layers/kv_cache.py: what the write of one position for each sequence leaves in the table.
use shark_turbine.Common.{
  ℕ, ◌+◌, ◌*◌, ◌/◌, ◌%◌, ◌<◌, ◌≤◌, ◌≡◌, ◌≢◌, refl, sym, ap, ◌∙◌, subst, List, [], ◌∷◌, length, All,
  arith, lt→ltb,
}
use shark_turbine.Common.Exc.{Result, ok}
use shark_turbine.Layers.KvCache.{
  Torch, prod, PageIds, PagedKvCache, page_at, put_partitions, put_positions,
}
use shark_turbine.Layers.KvCache.Tensors.{Lawful}
use shark_turbine.Layers.KvCache.Cells.{row_unique}

page_unique : (p q : ℕ) (r : Result ℕ) → r ≡ ok p → r ≡ ok q → p ≡ q
page_unique p q r e f = cc

module _ (T : Torch) (L : Lawful T) (c : PagedKvCache) (n b count : ℕ) (pages : PageIds)
    (in_block : b < c.transformer_block_count) where
  abbrev pub place : List ℕ
  place = c.attn_head_count ∷ c.attn_head_dim ∷ []

  -- The number of a position's row: its sub-block, and its place there.
  abbrev pub row : (p j o : ℕ) → ℕ
  row p j o =
      ((p * c.transformer_block_count + b) * c.cache_partition_count + j) * c.block_seq_stride + o

  row_same :
      (p q j m o s : ℕ)
      → j < c.cache_partition_count
      → m < c.cache_partition_count
      → o < c.block_seq_stride
      → s < c.block_seq_stride
      → row p j o ≡ row q m s
      → (p ≡ q) × (j ≡ m) × (o ≡ s)
  row_same p q j m o s hj hm ho hs e =
      let (cells, places) = row_unique c.block_seq_stride _ _ o s ho hs e in
      let (pages_, parts) = row_unique c.cache_partition_count _ _ j m hj hm cells in
      let (same, _) = row_unique c.transformer_block_count p q b b in_block in_block pages_ in
      (same, parts, places)

  -- A table of `n` pages, and a partition with one position for each sequence.
  abbrev pub TableDims : T.Tensor → Type 0
  TableDims t =
      T.shape t
      ≡ n ∷ c.transformer_block_count ∷ c.cache_partition_count ∷ c.block_seq_stride ∷ place

  pub record IsStep (part : T.Tensor) : Type 0 where
    pub dims_are : T.shape part ≡ count ∷ 1 ∷ place

  -- The table's row of a page, a partition and a place is the partition's of the sequence.
  pub record HoldsRow (table part : T.Tensor) (i p j o : ℕ) : Type 0 where
    pub elements :
        (k : ℕ)
        → k < prod place
        → T.flat table (row p j o * prod place + k) ≡ T.flat part (i * prod place + k)

  abbrev pub HoldsRows : T.Tensor → List T.Tensor → (i p j o : ℕ) → Type 0
  HoldsRows table [] i p j o = Unit
  HoldsRows table (part ∷ parts) i p j o =
      HoldsRow table part i p j o × HoldsRows table parts i p (j + 1) o

  -- The row is none of those of a page and a place, for partitions from `j` up to `m`.
  pub record RowApart (q p j m o : ℕ) : Type 0 where
    pub apart : (s : ℕ) → j ≤ s → s < m → q ≢ row p s o

  pub record PutAll (table : T.Tensor) (parts : List T.Tensor) (i p j o : ℕ)
      (out : Result (Unit {0}) × T.Tensor) : Type 0 where
    pub returned : out.0 ≡ ok tt
    pub dims_are : T.shape out.1 ≡ T.shape table
    pub holds : HoldsRows out.1 parts i p j o
    pub kept :
        (q k : ℕ)
        → RowApart q p j (j + length parts) o
        → k < prod place
        → T.flat out.1 (q * prod place + k) ≡ T.flat table (q * prod place + k)

  put_partitions-PutAll :
      (i p o : ℕ) (parts : List T.Tensor) (j : ℕ) (table : T.Tensor)
      → i < count
      → p < n
      → o < c.block_seq_stride
      → j + length parts ≤ c.cache_partition_count
      → TableDims table
      → All IsStep parts
      → PutAll table parts i p j o (put_partitions T i p o b j parts table)
  unfolding put_partitions
  put_partitions-PutAll i p o [] j table hi hp ho hj hd hs = record {
    returned = refl;
    dims_are = refl;
    holds = tt;
    kept = λ q k a hk. refl;
  }
  put_partitions-PutAll i p o (part ∷ parts) j table hi hp ho hj hd hs =
      let here : j < c.cache_partition_count = omega arith in
      let v = L.index_law part count i place (hs.0).dims_are hi in
      let w =
        L.index_put_law table v.tensor n _ _ _ p b j o place hd v.dims_are hp in_block here ho in
      let rest =
        put_partitions-PutAll i p o parts (j + 1) w.tensor hi hp ho (omega arith) (w.dims_are ∙ hd)
          hs.1 in
      rw (put_partitions, v.returned, w.returned)
        (record {
          returned = rest.returned;
          dims_are = rest.dims_are ∙ w.dims_are;
          holds = (
            record {
              elements = λ k hk.
                  rest.kept (row p j o) k
                    (record {
                      apart = λ s le lt e.
                          let (_, same, _) = row_same p p j s o o here (omega arith) ho ho e in
                          absurd (omega arith);
                    })
                    hk
                  ∙ w.written k hk
                  ∙ v.elements k hk;
            },
            rest.holds,
          );
          kept = λ q k a hk.
              rest.kept q k (record { apart = λ s le lt. a.apart s (omega arith) (omega arith) }) hk
              ∙ w.kept q k (a.apart j (omega arith) (omega arith)) hk;
        })

  abbrev pub page_of : (i position : ℕ) → Result ℕ
  page_of i position = page_at T pages i (position / c.block_seq_stride)

  abbrev pub place_of : ℕ → ℕ
  place_of position = position % c.block_seq_stride

  -- Each position from the `i`-th sequence on has a page of the table.
  abbrev pub HavePages : ℕ → List ℕ → Type 0
  HavePages i [] = Unit
  HavePages i (x ∷ xs) = ((p : ℕ) × (page_of i x ≡ ok p) × (p < n)) × HavePages (i + 1) xs

  -- No position of the later sequences has this page and place.
  abbrev pub Elsewhere : (p o i : ℕ) → List ℕ → Type 0
  Elsewhere p o i [] = Unit
  Elsewhere p o i (x ∷ xs) = ((page_of i x ≡ ok p) → place_of x ≢ o) × Elsewhere p o (i + 1) xs

  -- No two sequences write the same page and place.
  abbrev pub NoClash : ℕ → List ℕ → Type 0
  NoClash i [] = Unit
  NoClash i (x ∷ xs) =
      ((p : ℕ) → page_of i x ≡ ok p → Elsewhere p (place_of x) (i + 1) xs) × NoClash (i + 1) xs

  -- The table has each sequence's row of each partition at the sequence's page and place.
  abbrev pub HoldsStep : T.Tensor → List T.Tensor → ℕ → List ℕ → Type 0
  HoldsStep table parts i [] = Unit
  HoldsStep table parts i (x ∷ xs) =
      ((p : ℕ) → page_of i x ≡ ok p → HoldsRows table parts i p 0 (place_of x))
      × HoldsStep table parts (i + 1) xs

  -- The row is none of those that the sequences from the `i`-th on write.
  abbrev pub StepApart : (q m i : ℕ) → List ℕ → Type 0
  StepApart q m i [] = Unit
  StepApart q m i (x ∷ xs) =
      ((p : ℕ) → page_of i x ≡ ok p → RowApart q p 0 m (place_of x)) × StepApart q m (i + 1) xs

  pub record StepDone (table : T.Tensor) (parts : List T.Tensor) (i : ℕ) (xs : List ℕ)
      (out : Result (Unit {0}) × T.Tensor) : Type 0 where
    pub returned : out.0 ≡ ok tt
    pub dims_are : T.shape out.1 ≡ T.shape table
    pub holds : HoldsStep out.1 parts i xs
    pub kept :
        (q k : ℕ)
        → StepApart q (length parts) i xs
        → k < prod place
        → T.flat out.1 (q * prod place + k) ≡ T.flat table (q * prod place + k)

  -- A written row is apart from those that other sequences write.
  Elsewhere-StepApart :
      (p o j m i : ℕ) (xs : List ℕ)
      → m ≤ c.cache_partition_count
      → j < m
      → o < c.block_seq_stride
      → Elsewhere p o i xs
      → StepApart (row p j o) m i xs
  Elsewhere-StepApart p o j m i [] hm hj ho h = tt
  Elsewhere-StepApart p o j m i (x ∷ xs) hm hj ho h = (
    (λ q e. record {
      apart = λ s le lt same.
          let (pages_, _, places) =
            row_same p q j s o (place_of x) (omega arith) (omega arith) ho (omega arith) same in
          h.0 (e ∙ ap ok (sym pages_)) (sym places);
    }),
    Elsewhere-StepApart p o j m (i + 1) xs hm hj ho h.1,
  )

  -- Rows stay when nothing but rows apart from them is written.
  pub HoldsRows-later :
      (table now : T.Tensor) (parts : List T.Tensor) (i p j o m : ℕ)
      → j + length parts ≤ m
      → ((s k : ℕ)
          → s < m
          → k < prod place
          → T.flat now (row p s o * prod place + k) ≡ T.flat table (row p s o * prod place + k))
      → HoldsRows table parts i p j o
      → HoldsRows now parts i p j o
  HoldsRows-later table now [] i p j o m hj kept h = tt
  HoldsRows-later table now (part ∷ parts) i p j o m hj kept h = (
    record { elements = λ k hk. kept j k (omega arith) hk ∙ (h.0).elements k hk },
    HoldsRows-later table now parts i p (j + 1) o m (omega arith) kept h.1,
  )

  pub put_positions-StepDone :
      (parts : List T.Tensor) (xs : List ℕ) (i : ℕ) (table : T.Tensor)
      → i + length xs ≤ count
      → length parts ≤ c.cache_partition_count
      → 0 < c.block_seq_stride
      → TableDims table
      → All IsStep parts
      → HavePages i xs
      → NoClash i xs
      → StepDone table parts i xs (put_positions T c pages b parts i xs table)
  unfolding put_positions
  put_positions-StepDone parts [] i table hi hj pos hd hs hp nc = record {
    returned = refl;
    dims_are = refl;
    holds = tt;
    kept = λ q k a hk. refl;
  }
  put_positions-StepDone parts (x ∷ xs) i table hi hj pos hd hs hp nc =
      let (p, e, lt) = hp.0 in
      let o_lt : place_of x < c.block_seq_stride = omega arith in
      let put =
        put_partitions-PutAll i p (place_of x) parts 0 table (omega arith) lt o_lt (omega arith) hd
          hs in
      let now = (put_partitions T i p (place_of x) b 0 parts table).1 in
      let rest =
        put_positions-StepDone parts xs (i + 1) now (omega arith) hj pos (put.dims_are ∙ hd) hs hp.1
          nc.1 in
      let final = (put_positions T c pages b parts (i + 1) xs now).1 in
      let apart = nc.0 p e in
      rw (put_positions, lt→ltb 0 c.block_seq_stride pos, e, put.returned)
        (record {
          returned = rest.returned;
          dims_are = rest.dims_are ∙ put.dims_are;
          holds = (
            (λ q f.
                subst (λ r. HoldsRows final parts i r 0 (place_of x))
                  (page_unique p q (page_of i x) e f)
                  (HoldsRows-later now _ parts i p 0 (place_of x) (length parts) (omega arith)
                    (λ s k hs1 hk.
                      rest.kept (row p s (place_of x)) k
                        (Elsewhere-StepApart p (place_of x) s (length parts) (i + 1) xs hj hs1 o_lt
                          apart)
                        hk)
                    put.holds)),
            rest.holds,
          );
          kept = λ q k a hk.
              rest.kept q k a.1 hk
              ∙ put.kept q k (record { apart = λ s le lt1. (a.0 p e).apart s le (omega arith) }) hk;
        })
