-- ===== src/Tests/Layers.antt =====
-- Concrete tensors and a cache of two pages for llm/turbine_llm/layers.
use shark_turbine.Common.{
  true, ℕ, zero, suc, ◌+◌, ◌*◌, ◌/◌, ◌%◌, ◌<◌, ◌≡◌, ◌≢◌, refl, ap, ◌∙◌, List, [], ◌∷◌, Option, none,
  some, length, get_elem?, drop, arith, inl, inr, Option-cases, Bool-cases, ◌==◌, nat_key,
  if◌then◌else◌, eq_self, eq_ne, nat_beq_iff,
}
use shark_turbine.Common.Exc.{ok}
use native.Mathlib.Nat.{
  mul-add-div_right, mul-add-mod_self_right, mul-div_cancel, div-eq_of_lt, mod-eq_of_lt,
}
use shark_turbine.Layers.KvCache.{
  page_at, write_timestep, Torch, prod, PagedKvCache, PageIds, page_slab_flat_dim, sub_page_dims,
}
use shark_turbine.Layers.KvCache.Access.{IsSlab}
use shark_turbine.Layers.KvCache.Timestep.{IsStep}
use shark_turbine.Layers.KvCache.Step.{Steps, write_timestep-Steps}
use shark_turbine.Layers.KvCache.Tensors.{Distinct, Lawful}

quotient : (r k n : ℕ) → k < n → (r * n + k) / n ≡ r
quotient r k n h =
    let split = mul-add-div_right {m = n} (omega arith) r k in
    let none_left : k / n ≡ 0 = div-eq_of_lt h in omega arith

remainder : (r k n : ℕ) → k < n → (r * n + k) % n ≡ k
remainder r k n h = mul-add-mod_self_right r n k ∙ mod-eq_of_lt h

-- The first index at which a number stands.
abbrev find_row : ℕ → List ℕ → Option ℕ
find_row q [] = none
find_row q (p ∷ ids) =
    if p == q then some 0 else elim (find_row q ids) [ none ↦ none | some r ↦ some (suc r) ]

find_row-some : (q : ℕ) (ids : List ℕ) (r : ℕ) → find_row q ids ≡ some r → get_elem? ids r ≡ some q
find_row-some q [] r h = absurd (cc)
find_row-some q (p ∷ ids) r h = elim (Bool-cases (p == q)) [
  | inl e ↦
      let first : r ≡ 0 = (let g = (rw e at h) in cc) in
      let same = (nat_beq_iff p q).0 e in rw first (ap some same)
  | inr e ↦ elim (Option-cases (find_row q ids)) [
    | inl f ↦ absurd (let g = (rw (e, f) at h) in cc)
    | inr (s, f) ↦
        let next : r ≡ suc s = (let g = (rw (e, f) at h) in cc) in rw next (find_row-some q ids s f)
  ]
]

find_row-none : (q : ℕ) (ids : List ℕ) → find_row q ids ≡ none → (r : ℕ) → get_elem? ids r ≢ some q
find_row-none q [] h r e = absurd (cc)
find_row-none q (p ∷ ids) h zero e = elim (Bool-cases (p == q)) [
  | inl f ↦ absurd (let g = (rw f at h) in cc)
  | inr f ↦ absurd (let same = (nat_beq_iff p q).1 (cc) in cc)
]
find_row-none q (p ∷ ids) h (suc r) e = elim (Bool-cases (p == q)) [
  | inl f ↦ absurd (let g = (rw f at h) in cc)
  | inr f ↦ elim (Option-cases (find_row q ids)) [
    | inl g ↦ find_row-none q ids g r e
    | inr (s, g) ↦ absurd (let k = (rw (f, g) at h) in cc)
  ]
]

-- A tensor is its dimensions and its elements in row-major order.
abbrev Array : Type 0
Array = List ℕ × (ℕ → ℕ)

abbrev joined_0_2 : List ℕ → List ℕ
joined_0_2 (a ∷ b ∷ c ∷ rest) = a * b * c ∷ rest
joined_0_2 dims = dims

abbrev joined_0_1 : List ℕ → List ℕ
joined_0_1 (a ∷ b ∷ rest) = a * b ∷ rest
joined_0_1 dims = dims

abbrev joined_1_2 : List ℕ → List ℕ
joined_1_2 (a ∷ b ∷ c ∷ rest) = a ∷ b * c ∷ rest
joined_1_2 dims = dims

row_or : (none_value n : ℕ) → Array → Option ℕ → ℕ → ℕ
row_or v n t none m = v
row_or v n t (some p) m = t.1 (p * n + m)

abbrev selected : Array → List ℕ → (n m : ℕ) → ℕ
selected t ids n m = row_or 0 n t (get_elem? ids (m / n)) (m % n)

abbrev copied : Array → List ℕ → Array → (n m : ℕ) → ℕ
copied t ids source n m = row_or (t.1 m) n source (find_row (m / n) ids) (m % n)

abbrev row_size : List ℕ → ℕ
row_size dims = prod (drop 1 dims)

abbrev row_of : List ℕ → (p b i o : ℕ) → ℕ
row_of (n ∷ blocks ∷ partitions ∷ stride ∷ rest) p b i o =
    ((p * blocks + b) * partitions + i) * stride + o
row_of dims p b i o = 0

abbrev put_row : Array → Array → (row n m : ℕ) → ℕ
put_row t values row n m = if m / n == row then values.1 (m % n) else t.1 m

abbrev arrays : Torch
arrays = record {
  Tensor = Array;
  Elem = ℕ;
  shape = λ t. t.0;
  flat = λ t. t.1;
  empty = λ dims. (dims, λ k. 0);
  reshape_inferred = λ dims t. ok (prod t.0 / prod dims ∷ dims, t.1);
  reshape = λ dims t. ok (dims, t.1);
  flatten_0_2 = λ t. (joined_0_2 t.0, t.1);
  flatten_0_1 = λ t. (joined_0_1 t.0, t.1);
  flatten_1_2 = λ t. (joined_1_2 t.0, t.1);
  unflatten = λ m n t. ok (m ∷ n ∷ drop 1 t.0, t.1);
  index_select = λ t ids. ok (length ids ∷ drop 1 t.0, selected t ids (row_size t.0));
  index_copy = λ t ids source. ok (t.0, copied t ids source (row_size t.0));
  index = λ t i j. ok (drop 2 t.0, λ k. t.1 (i * prod (drop 2 t.0) + k));
  index_put =
      λ t p b i o values. ok (t.0, put_row t values (row_of t.0 p b i o) (prod (drop 4 t.0)));
  copy_into = λ into t. ok t;
  reshape_is_view = λ t dims. true;
  through_view = λ base view. (base.0, view.1);
}

selected_row :
    (t : Array) (ids : List ℕ) (m n r p k : ℕ)
    → m ≡ n
    → get_elem? ids r ≡ some p
    → k < n
    → selected t ids m (r * n + k) ≡ t.1 (p * n + k)
unfolding row_or
selected_row t ids m n r p k d e h = rw (d, quotient r k n h, e, remainder r k n h) refl

copied_row :
    (t source : Array) (ids : List ℕ) (m n r p k : ℕ)
    → m ≡ n
    → Distinct ids
    → get_elem? ids r ≡ some p
    → k < n
    → copied t ids source m (p * n + k) ≡ source.1 (r * n + k)
unfolding row_or
copied_row t source ids m n r p k d one e h = elim (Option-cases (find_row p ids)) [
  | inl f ↦ absurd (find_row-none p ids f r e)
  | inr (s, f) ↦
      let same = one.distinct s r p (find_row-some p ids s f) e in
      rw (d, quotient p k n h, f, remainder p k n h, same) refl
]

kept_row :
    (t source : Array) (ids : List ℕ) (m n p k : ℕ)
    → m ≡ n
    → ((r : ℕ) → get_elem? ids r ≢ some p)
    → k < n
    → copied t ids source m (p * n + k) ≡ t.1 (p * n + k)
unfolding row_or
kept_row t source ids m n p k d other h = elim (Option-cases (find_row p ids)) [
  | inl f ↦ rw (d, quotient p k n h, f) refl
  | inr (s, f) ↦ absurd (other s (find_row-some p ids s f))
]

put_row_same :
    (t values : Array) (row row1 m n k : ℕ)
    → row1 ≡ row
    → m ≡ n
    → k < n
    → put_row t values row1 m (row * n + k) ≡ values.1 k
put_row_same t values row row1 m n k d e h =
    rw (put_row, d, e, quotient row k n h, remainder row k n h, eq_self row) refl

put_row_other :
    (t values : Array) (row row1 m n q k : ℕ)
    → row1 ≡ row
    → m ≡ n
    → q ≢ row
    → k < n
    → put_row t values row1 m (q * n + k) ≡ t.1 (q * n + k)
put_row_other t values row row1 m n q k d e other h =
    rw (put_row, d, e, quotient q k n h, eq_ne q row other) refl

arrays-Lawful : Lawful arrays
arrays-Lawful = record {
  reshape_inferred_law = λ t n dims pos size. record {
    tensor = (prod t.0 / prod dims ∷ dims, t.1);
    returned = refl;
    resized = record {
      dims_are = ap (λ m. m ∷ dims) (ap (λ m. m / prod dims) size ∙ mul-div_cancel n pos);
      same_elements = λ k. refl;
    };
  };
  reshape_law = λ t dims size. record {
    tensor = (dims, t.1);
    returned = refl;
    resized = record { dims_are = refl; same_elements = λ k. refl };
  };
  flatten_0_2_law =
      λ t a b c rest e. record { dims_are = ap joined_0_2 e; same_elements = λ k. refl };
  flatten_0_1_law =
      λ t a b rest e. record { dims_are = ap joined_0_1 e; same_elements = λ k. refl };
  flatten_1_2_law =
      λ t a b c rest e. record { dims_are = ap joined_1_2 e; same_elements = λ k. refl };
  unflatten_law = λ t m n rest e. record {
    tensor = (m ∷ n ∷ drop 1 t.0, t.1);
    returned = refl;
    resized = record { dims_are = ap (λ d. m ∷ n ∷ drop 1 d) e; same_elements = λ k. refl };
  };
  index_select_law = λ t n ids rest e lt. record {
    tensor = (length ids ∷ drop 1 t.0, selected t ids (row_size t.0));
    returned = refl;
    dims_are = ap (λ d. length ids ∷ drop 1 d) e;
    rows = λ r p k hr hk. selected_row t ids _ _ r p k (ap row_size e) hr hk;
  };
  index_copy_law = λ t source n ids rest e lt one size. record {
    tensor = (t.0, copied t ids source (row_size t.0));
    returned = refl;
    dims_are = refl;
    written = λ r p k hr hk. copied_row t source ids _ _ r p k (ap row_size e) one hr hk;
    kept = λ p k other hk. kept_row t source ids _ _ p k (ap row_size e) other hk;
  };
  index_law = λ t m i rest e lt. record {
    tensor = (drop 2 t.0, λ k. t.1 (i * prod (drop 2 t.0) + k));
    returned = refl;
    dims_are = ap (drop 2) e;
    elements = λ k hk. ap (λ d. t.1 (i * prod (drop 2 d) + k)) e;
  };
  index_put_law = λ t values n blocks partitions stride p b i o rest e ev lp lb li lo. record {
    tensor = (t.0, put_row t values (row_of t.0 p b i o) (prod (drop 4 t.0)));
    returned = refl;
    dims_are = refl;
    written = λ k hk.
        put_row_same t values _ _ _ _ k (ap (λ d. row_of d p b i o) e) (ap (λ d. prod (drop 4 d)) e)
          hk;
    kept = λ q k other hk.
        put_row_other t values _ _ _ _ q k (ap (λ d. row_of d p b i o) e)
          (ap (λ d. prod (drop 4 d)) e) other hk;
  };
  copy_into_law = λ into t e. record {
    tensor = t;
    returned = refl;
    resized = record { dims_are = refl; same_elements = λ k. refl };
  };
  through_view_law = λ base view. record { dims_are = refl; same_elements = λ k. refl };
  layout_law = λ base view dims. refl;
}

-- Two blocks of two positions each, in pages 2 and 0 of three.
abbrev cache : PagedKvCache
cache = record {
  transformer_block_count = 2;
  attn_head_count = 1;
  attn_head_dim = 2;
  cache_partition_count = 2;
  block_seq_stride = 2;
}

abbrev pages : PageIds
pages = record { bs = 1; block_seq_len = 2; ids = 2 ∷ 0 ∷ [] }

abbrev slab : Array
slab = (3 ∷ 16 ∷ [], λ k. k)

slab-IsSlab : IsSlab arrays arrays-Lawful cache 3 slab
unfolding page_slab_flat_dim sub_page_dims prod
slab-IsSlab = record { dims_are = refl; nonempty = omega arith; viewed = refl }

abbrev part : Array
part = (1 ∷ 4 ∷ 1 ∷ 2 ∷ [], λ k. 100 + k)

-- One sequence writes its position 3, which is the second place of page 0.
abbrev step : Array
step = (1 ∷ 1 ∷ 1 ∷ 2 ∷ [], λ k. 200 + k)

step-IsStep : IsStep arrays arrays-Lawful cache 3 1 1 pages (omega arith) step
step-IsStep = record { dims_are = refl }

page_of_3 : page_at arrays pages 0 (3 / 2) ≡ ok 0
unfolding page_at
page_of_3 = refl

write_timestep-Steps_example :
    Steps arrays arrays-Lawful cache 3 1 1 pages
      (omega arith)
      slab
      (step ∷ step ∷ [])
      (3 ∷ [])
      (write_timestep arrays cache (step ∷ step ∷ []) 1 (3 ∷ []) pages (slab ∷ []))
write_timestep-Steps_example =
    write_timestep-Steps arrays arrays-Lawful cache 3 1 1 pages (omega arith) slab
      (step ∷ step ∷ []) (3 ∷ []) slab-IsSlab (omega arith) refl refl
      (step-IsStep, (step-IsStep, tt)) ((0, page_of_3, (omega arith)), tt) ((λ p e. tt), tt)
