-- ===== src/Serving/Session/Pool/Invariant.antt =====
-- Where a transfer buffer is: on the free list of a pool, or with a holder.
use shark_turbine.Common.{
  ℕ, ◌+◌, ◌<◌, ◌≤◌, ◌≡◌, ◌≢◌, refl, ap, ◌∙◌, inl, inr, false, List, [], ◌∷◌, ◌++◌, Option, none,
  some, pop, pop-some, nat_beq, if◌then◌else◌, arith, Option-cases, Bool-cases, pop-none, ◌⊎◌,
}
use shark_turbine.Common.Exc.{Exc, Result, ok, err, assertion_error, attribute_error, runtime_error}
use shark_turbine.Serving.Session.Pool.{
  Pool, Store, update, set_free, allocate, take_owner, grow, acquire, pool_recycle, recycle,
}

abbrev pub times : ℕ → List ℕ → ℕ
times a [] = 0
times a (b ∷ bs) = (if nat_beq a b then 1 else 0) + times a bs

pub times-append : (a : ℕ) (xs ys : List ℕ) → times a (xs ++ ys) ≡ times a xs + times a ys
times-append a [] ys = omega arith
times-append a (x ∷ xs) ys = omega (arith, times-append a xs ys)

abbrev pub on_list : ℕ → Option (List ℕ) → ℕ
on_list tb none = 0
on_list tb (some l) = times tb l

abbrev pub held : Option ℕ → ℕ
held none = 0
held (some _) = 1

-- How often a buffer stands on the free list of a pool.
abbrev pub free_count : Store → ℕ → ℕ → ℕ
free_count st p tb = on_list tb (st.pools p).free_list

pub record IsValid (st : Store) : Type 0 where
  pub one_place : (p tb : ℕ) → free_count st p tb + held (st.owner tb) ≤ 1
  pub one_pool : (p q tb : ℕ) → p ≢ q → free_count st p tb + free_count st q tb ≤ 1
  pub fresh : (p tb : ℕ) → st.next ≤ tb → free_count st p tb + held (st.owner tb) ≡ 0

pub free_count-set_free :
    (p q tb : ℕ) (l : List ℕ) (st : Store)
    → free_count (set_free p l st) q tb ≡ (if nat_beq q p then times tb l else free_count st q tb)
free_count-set_free p q tb l st = ground arith

allocate-IsValid : (bytes : ℕ) (st : Store) → IsValid st → IsValid (allocate bytes st).1
unfolding allocate
allocate-IsValid bytes st v = record {
  one_place = λ p tb. ground (arith, v.one_place p tb);
  one_pool = v.one_pool;
  fresh = λ p tb h. ground (arith, v.fresh p tb);
}

-- Handing out a buffer that no free list has.
take_owner-IsValid :
    (p tb : ℕ) (st : Store)
    → tb < st.next
    → ((q : ℕ) → free_count st q tb ≡ 0)
    → IsValid st
    → IsValid (record st { owner = update st.owner tb (some p) })
take_owner-IsValid p tb st below nowhere v = record {
  one_place = λ q b. ground (arith, v.one_place q b, nowhere q);
  one_pool = v.one_pool;
  fresh = λ q b h. ground (arith, v.fresh q b);
}

module _ (p tb : ℕ) (free rest : List ℕ) (st : Store) (is_free : (st.pools p).free_list ≡ some free)
    (split : free ≡ rest ++ tb ∷ []) (v : IsValid st) where
  counts : (b : ℕ) → free_count st p b ≡ times b rest + (if nat_beq b tb then 1 else 0)
  counts b = rw (is_free, split) (omega (arith, times-append b rest (tb ∷ [])))

  pop-IsValid : IsValid (set_free p rest st)
  pop-IsValid = record {
    one_place = λ q b. rw free_count-set_free (ground (arith, v.one_place q b, counts b));
    one_pool = λ q r b ne.
        rw (free_count-set_free p q b rest st, free_count-set_free p r b rest st)
          (ground (arith, v.one_pool q r b ne, counts b));
    fresh = λ q b h. rw free_count-set_free (ground (arith, v.fresh q b h, counts b));
  }

  popped_nowhere : (q : ℕ) → free_count (set_free p rest st) q tb ≡ 0
  popped_nowhere q =
      rw free_count-set_free (ground (arith, v.one_place p tb, v.one_pool p q tb, counts tb))

  popped_below : tb < st.next
  popped_below = ground (arith, v.fresh p tb, counts tb)

  popped_unowned : st.owner tb ≡ none
  popped_unowned = ground (arith, v.one_place p tb, counts tb)

-- The reasons for which a pool hands out nothing.
abbrev pub Refuses : Pool → Exc → Type 0
Refuses pool e =
    ((e ≡ attribute_error) × (pool.free_list ≡ none))
    ⊎ ((e ≡ runtime_error) × (pool.free_list ≡ some []) × (pool.growable ≡ false))

-- What one `acquire` may do: hand out a buffer that had no holder, and make the pool its holder's, or
-- refuse and change nothing.
abbrev pub Acquires : ℕ → Store → Result ℕ × Store → Type 0
Acquires p st (ok tb, st') =
    (st.owner tb ≡ none)
    × ((b : ℕ) → st'.owner b ≡ (if nat_beq b tb then some p else st.owner b))
    × IsValid st'
Acquires p st (err e, st') = (st' ≡ st) × Refuses (st.pools p) e

pub take_owner_lem :
    (p tb : ℕ) (st : Store)
    → st.owner tb ≡ none
    → take_owner p tb st ≡ (ok tb, record st { owner = update st.owner tb (some p) })
take_owner_lem p tb st h = rw (take_owner, h)

grow-Acquires :
    (p : ℕ) (st : Store) → IsValid st → (st.pools p).free_list ≡ some [] → Acquires p st (grow p st)
unfolding grow allocate
grow-Acquires p st v empty = elim (Bool-cases (st.pools p).growable) [
  | inr fixed ↦ rw fixed (refl, inr (refl, empty, fixed))
  | inl growable ↦
      let st' = (allocate (st.pools p).buffer_size_bytes st).1 in
      rw (growable, take_owner_lem p st.next st' (ground arith))
        (
          ground (arith, v.fresh p st.next),
          λ b. ground arith,
          take_owner-IsValid p st.next st' (omega arith) (λ q. omega (arith, v.fresh q st.next))
              (allocate-IsValid (st.pools p).buffer_size_bytes st v),
        )
]

take_owner-Acquires :
    (p tb : ℕ) (free rest : List ℕ) (st : Store)
    → IsValid st
    → (st.pools p).free_list ≡ some free
    → free ≡ rest ++ tb ∷ []
    → Acquires p st (take_owner p tb (set_free p rest st))
take_owner-Acquires p tb free rest st v e split =
    let unowned = popped_unowned p tb free rest st e split v in
    rw (take_owner_lem p tb (set_free p rest st) unowned) (
      unowned,
      λ b. refl,
      take_owner-IsValid p tb (set_free p rest st) (popped_below p tb free rest st e split v)
          (popped_nowhere p tb free rest st e split v) (pop-IsValid p tb free rest st e split v),
    )

-- From a valid store, every call of `acquire` hands out an unheld buffer and keeps the store valid,
-- or refuses with its reason and changes nothing.
pub acquire-Acquires : (p : ℕ) (st : Store) → IsValid st → Acquires p st (acquire p st)
unfolding acquire
acquire-Acquires p st v = elim (Option-cases (st.pools p).free_list) [
  | inl missing ↦ rw (acquire, missing) (refl, inl (refl, missing))
  | inr (free, e) ↦ elim (Option-cases (pop free)) [
    | inl empty ↦ rw (acquire, e, empty) (grow-Acquires p st v (e ∙ ap some (pop-none free empty)))
    | inr ((tb, rest), taken) ↦
        rw (acquire, e, taken)
          (take_owner-Acquires p tb free rest st v e (pop-some free tb rest taken))
  ]
]

recycled_unowned :
    (tb : ℕ) (st : Store) → IsValid st → IsValid (record st { owner = update st.owner tb none })
recycled_unowned tb st v = record {
  one_place = λ q b. ground (arith, v.one_place q b);
  one_pool = v.one_pool;
  fresh = λ q b h. ground (arith, v.fresh q b);
}

append-IsValid :
    (p tb : ℕ) (free : List ℕ) (st : Store)
    → (st.pools p).free_list ≡ some free
    → st.owner tb ≡ none
    → tb < st.next
    → ((q : ℕ) → free_count st q tb ≡ 0)
    → IsValid st
    → IsValid (set_free p (free ++ tb ∷ []) st)
append-IsValid p tb free st e unowned below nowhere v =
    let counts : (b : ℕ) → free_count st p b ≡ times b free = λ b. rw e in
    let grown : (b : ℕ) → times b (free ++ tb ∷ []) ≡ times b free + times b (tb ∷ []) =
      λ b. times-append b free (tb ∷ []) in
    record {
      one_place = λ q b.
          rw free_count-set_free
            (ground (arith, v.one_place q b, counts b, grown b, nowhere q, unowned));
      one_pool = λ q r b ne.
          rw (free_count-set_free p q b _ st, free_count-set_free p r b _ st)
            (ground (arith, v.one_pool q r b ne, counts b, grown b, nowhere q, nowhere r));
      fresh = λ q b h. rw free_count-set_free (ground (arith, v.fresh q b h, counts b, grown b));
    }

-- What recycling a buffer may do, by its `_pool`: without one it raises and changes nothing; with
-- one, the buffer loses its holder and stands once more on that pool's free list.
abbrev pub Recycles : ℕ → Store → Result (Unit {0}) × Store → Type 0
Recycles tb st (ok _, st') =
    (p : ℕ) × (st.owner tb ≡ some p)
    × (free_count st' p tb ≡ 1)
    × ((b : ℕ) → st'.owner b ≡ (if nat_beq b tb then none else st.owner b))
    × IsValid st'
Recycles tb st (err e, st') =
    ((e ≡ assertion_error) × (st.owner tb ≡ none) × (st' ≡ st))
    ⊎ ((p : ℕ) × (e ≡ attribute_error) × (st.owner tb ≡ some p) × ((st.pools p).free_list ≡ none))

-- A buffer that is held goes back to the pool that it came from, and the store stays valid;
-- recycling one that nobody holds is refused.
pub recycle-Recycles : (tb : ℕ) (st : Store) → IsValid st → Recycles tb st (recycle tb st)
unfolding recycle pool_recycle
recycle-Recycles tb st v = elim (Option-cases (st.owner tb)) [
  | inl unowned ↦ rw (recycle, unowned) (inl (refl, unowned, refl))
  | inr (p, owned) ↦ elim (Option-cases (st.pools p).free_list) [
    | inl missing ↦ rw (recycle, owned, pool_recycle, missing) (inr (p, refl, owned, missing))
    | inr (free, e) ↦
        let st₁ : Store = record st { owner = update st.owner tb none } in
        let nowhere : (q : ℕ) → free_count st q tb ≡ 0 =
          λ q. ground (arith, v.one_place q tb, owned) in
        rw (recycle, owned, pool_recycle, e)
          (
            p,
            owned,
            rw free_count-set_free (ground (arith, times-append tb free (tb ∷ []), nowhere p, e)),
            λ b. refl,
            append-IsValid p tb free st₁ e (ground arith) (ground (arith, v.fresh p tb, owned))
                nowhere (recycled_unowned tb st v),
          )
  ]
]
