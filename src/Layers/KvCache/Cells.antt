-- ===== src/Layers/KvCache/Cells.antt =====
-- layers/kv_cache.py: the numbers of the sub-blocks of a page.
use shark_turbine.Common.{
  ℕ, zero, suc, ◌+◌, ◌*◌, ◌<◌, ◌≤◌, ◌≡◌, refl, sym, ap, ◌∙◌, subst, List, [], ◌∷◌, some, get_elem?,
  All, map, arith, lt→ltb,
}
use shark_turbine.Layers.KvCache.{PagedKvCache, base_subblock_ids, subblock_ids}
use shark_turbine.Layers.KvCache.Tensors.{Distinct}

-- Quotient and remainder are unique.
quotient_ge : (C q r c d : ℕ) → c < C → d < C → q * C + c ≡ r * C + d → r ≤ q
quotient_ge C q r c d hc hd e = grind arith

pub row_unique : (C q r c d : ℕ) → c < C → d < C → q * C + c ≡ r * C + d → (q ≡ r) × (c ≡ d)
row_unique C q r c d hc hd e =
    let le = quotient_ge C q r c d hc hd e in
    let ge = quotient_ge C r q d c hd hc (sym e) in
    let same : q ≡ r = omega arith in
    (same, (let f = subst (λ x. x * C + c ≡ r * C + d) same e in omega arith))

row_lt : (C n q c : ℕ) → c < C → q < n → q * C + c < n * C
row_lt C n q c hc hq = grind arith

-- The number of a page's sub-block among those of all pages.
abbrev pub cell : PagedKvCache → (page block partition : ℕ) → ℕ
cell c p b i =
    p * (c.transformer_block_count * c.cache_partition_count) + b * c.cache_partition_count + i

pub cell_rows :
    (c : PagedKvCache) (p b i : ℕ)
    → cell c p b i ≡ (p * c.transformer_block_count + b) * c.cache_partition_count + i
cell_rows c p b i = grind arith

pub cell_unique :
    (c : PagedKvCache) (p q a b i j : ℕ)
    → a < c.transformer_block_count
    → b < c.transformer_block_count
    → i < c.cache_partition_count
    → j < c.cache_partition_count
    → cell c p a i ≡ cell c q b j
    → (p ≡ q) × (a ≡ b) × (i ≡ j)
cell_unique c p q a b i j ha hb hi hj e =
    let (rows, same) =
      row_unique c.cache_partition_count _ _ i j hi hj
        (sym (cell_rows c p a i) ∙ e ∙ cell_rows c q b j) in
    let (pages, blocks) = row_unique c.transformer_block_count p q a b ha hb rows in
    (pages, blocks, same)

pub cell_lt :
    (c : PagedKvCache) (n p b i : ℕ)
    → p < n
    → b < c.transformer_block_count
    → i < c.cache_partition_count
    → cell c p b i < n * c.transformer_block_count * c.cache_partition_count
cell_lt c n p b i hp hb hi =
    subst (λ x. x < n * c.transformer_block_count * c.cache_partition_count)
      (sym (cell_rows c p b i)) (row_lt _ _ _ i hi (row_lt _ n p b hb hp))

pub get_elem-map :
    (f : ℕ → ℕ) (ids : List ℕ) (r p : ℕ)
    → get_elem? ids r ≡ some p
    → get_elem? (map f ids) r ≡ some (f p)
get_elem-map f [] r p e = absurd (cc)
get_elem-map f (x ∷ ids) zero p e = ap some (ap f (cc))
get_elem-map f (x ∷ ids) (suc r) p e = get_elem-map f ids r p e

pub map-get_elem :
    (f : ℕ → ℕ) (ids : List ℕ) (r q : ℕ)
    → get_elem? (map f ids) r ≡ some q
    → (p : ℕ) × (get_elem? ids r ≡ some p) × (f p ≡ q)
map-get_elem f [] r q e = absurd (cc)
map-get_elem f (x ∷ ids) zero q e = (x, refl, cc)
map-get_elem f (x ∷ ids) (suc r) q e = map-get_elem f ids r q e

pub Distinct-map :
    (f : ℕ → ℕ) (ids : List ℕ)
    → ((p q : ℕ) → f p ≡ f q → p ≡ q)
    → Distinct ids
    → Distinct (map f ids)
Distinct-map f ids injective h = record {
  distinct = λ i j q ei ej.
      let (p, hp, fp) = map-get_elem f ids i q ei in
      let (p1, hp1, fp1) = map-get_elem f ids j q ej in
      h.distinct i j p hp
        (subst (λ x. get_elem? ids j ≡ some x) (injective p1 p (fp1 ∙ sym fp)) hp1);
}

pub All-map :
    (P Q : ℕ → Type 0) (f : ℕ → ℕ) (ids : List ℕ)
    → ((p : ℕ) → P p → Q (f p))
    → All P ids
    → All Q (map f ids)
All-map P Q f [] h all = tt
All-map P Q f (x ∷ ids) h all = (h x all.0, All-map P Q f ids h all.1)

base_cells :
    (c : PagedKvCache) (b i : ℕ) (ids : List ℕ)
    → map (λ id. id + i) (base_subblock_ids c b ids) ≡ map (λ p. cell c p b i) ids
unfolding base_subblock_ids
base_cells c b i [] = refl
base_cells c b i (p ∷ ids) = ap (λ l. cell c p b i ∷ l) (base_cells c b i ids)

first_cells :
    (c : PagedKvCache) (b : ℕ) (ids : List ℕ)
    → base_subblock_ids c b ids ≡ map (λ p. cell c p b 0) ids
unfolding base_subblock_ids
first_cells c b [] = refl
first_cells c b (p ∷ ids) =
    let same : p * (c.transformer_block_count * c.cache_partition_count)
          + b * c.cache_partition_count
        ≡ cell c p b 0 =
      omega arith in
    ap (λ x. x ∷ base_subblock_ids c b ids) same ∙ ap (λ l. cell c p b 0 ∷ l) (first_cells c b ids)

pub subblock_ids_lem :
    (c : PagedKvCache) (b i : ℕ) (ids : List ℕ)
    → subblock_ids i (base_subblock_ids c b ids) ≡ map (λ p. cell c p b i) ids
unfolding subblock_ids
subblock_ids_lem c b zero ids = first_cells c b ids
subblock_ids_lem c b (suc i) ids = rw (lt→ltb 0 (suc i) (omega arith)) (base_cells c b (suc i) ids)
