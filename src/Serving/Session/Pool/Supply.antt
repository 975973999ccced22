-- ===== src/Serving/Session/Pool/Supply.antt =====
-- TransferBufferPool of serving/turbine_serving/framework/session.py: what a pool that can grow
-- hands out.
use shark_turbine.Common.{
  ℕ, ◌+◌, ◌<◌, ◌≤◌, ◌≡◌, refl, sym, ap, inl, inr, true, List, [], ◌∷◌, none, some, pop, pop-some,
  nat_beq, nat_beq_iff, arith, Option-cases, Bool-cases, subst, if◌then◌else◌,
}
use shark_turbine.Common.Exc.{ok}
use shark_turbine.Serving.Session.Pool.{Store, update, set_free, allocate, grow, acquire}
use shark_turbine.Serving.Session.Pool.Invariant.{
  times, times-append, free_count, IsValid, Acquires, acquire-Acquires, take_owner_lem,
  free_count-set_free,
}

-- A free buffer has the size of its pool's buffers.
pub record IsSized (st : Store) : Type 0 where
  pub sized : (p tb : ℕ) → 0 < free_count st p tb → st.size tb ≡ (st.pools p).buffer_size_bytes

-- A growable pool whose buffers have at least this size, and whose constructor set its free list.
pub record IsPool (st : Store) (p bytes : ℕ) : Type 0 where
  pub growable : (st.pools p).growable ≡ true
  pub large : bytes ≤ (st.pools p).buffer_size_bytes
  pub free : List ℕ
  pub has_list : (st.pools p).free_list ≡ some free

-- A buffer that was handed out: nobody held it, it is large enough, and the pools are as usable as
-- before.
pub record Supplied (p bytes : ℕ) (st : Store) : Type 0 where
  pub tb : ℕ
  pub now : Store
  pub returns : acquire p st ≡ (ok tb, now)
  pub unheld : st.owner tb ≡ none
  pub owners : (b : ℕ) → now.owner b ≡ (if nat_beq b tb then some p else st.owner b)
  pub large : bytes ≤ now.size tb
  pub valid : IsValid now
  pub sized : IsSized now
  pub keeps : (q n : ℕ) → IsPool st q n → IsPool now q n

buffer_size-set_free :
    (p q : ℕ) (l : List ℕ) (st : Store)
    → ((set_free p l st).pools q).buffer_size_bytes ≡ (st.pools q).buffer_size_bytes
buffer_size-set_free p q l st = elim (Bool-cases (nat_beq q p)) [
  | inl e ↦ rw e (ap (λ k. (st.pools k).buffer_size_bytes) (sym ((nat_beq_iff q p).0 e)))
  | inr e ↦ rw e refl
]

IsPool-set_free :
    (p q n : ℕ) (l : List ℕ) (st : Store) → IsPool st q n → IsPool (set_free p l st) q n
IsPool-set_free p q n l st h = elim (Bool-cases (nat_beq q p)) [
  | inl e ↦
      let same = (nat_beq_iff q p).0 e in
      record {
        growable = rw e (subst (λ k. (st.pools k).growable ≡ true) same h.growable);
        large = rw (buffer_size-set_free p q l st) h.large;
        free = l;
        has_list = rw e refl;
      }
  | inr e ↦ record {
    growable = rw e h.growable;
    large = rw (buffer_size-set_free p q l st) h.large;
    free = h.free;
    has_list = rw e h.has_list;
  }
]

module _ (p bytes : ℕ) (st : Store) (v : IsValid st) (s : IsSized st) where
  supplied :
      (tb : ℕ) (now : Store)
      → acquire p st ≡ (ok tb, now)
      → bytes ≤ now.size tb
      → IsSized now
      → ((q n : ℕ) → IsPool st q n → IsPool now q n)
      → Supplied p bytes st
  supplied tb now e large sized keeps =
      let (unheld, owners, valid) = subst (Acquires p st) e (acquire-Acquires p st v) in
      record {
        tb = tb;
        now = now;
        returns = e;
        unheld = unheld;
        owners = owners;
        large = large;
        valid = valid;
        sized = sized;
        keeps = keeps;
      }

  pub acquire-Supplied : IsPool st p bytes → Supplied p bytes st
  unfolding acquire grow allocate
  acquire-Supplied h = elim (Option-cases (pop h.free)) [
    | inl empty ↦
        let st' = (allocate (st.pools p).buffer_size_bytes st).1 in
        let unowned : st'.owner st.next ≡ none = ground arith in
        supplied st.next (record st' { owner = update st'.owner st.next (some p) })
          (rw (acquire, h.has_list, empty, h.growable, take_owner_lem p st.next st' unowned) refl)
          (ground (arith, h.large))
          (record { sized = λ q b some_free. ground (arith, v.fresh q b, s.sized q b some_free) })
          (λ q n k. record {
            growable = k.growable;
            large = k.large;
            free = k.free;
            has_list = k.has_list;
          })
    | inr ((tb, rest), taken) ↦
        let split = pop-some h.free tb rest taken in
        let count : (b : ℕ) → free_count st p b ≡ times b rest + (if nat_beq b tb then 1 else 0) =
          λ b. rw (h.has_list, split) (omega (arith, times-append b rest (tb ∷ []))) in
        let st' = set_free p rest st in
        let unowned : st.owner tb ≡ none = ground (arith, v.one_place p tb, count tb) in
        let had : 0 < free_count st p tb = ground (arith, count tb) in
        supplied tb (record st' { owner = update st.owner tb (some p) })
          (rw (acquire, h.has_list, taken, take_owner_lem p tb st' unowned) refl)
          (rw (s.sized p tb had) h.large)
          (record {
            sized = λ q b some_free.
                rw (buffer_size-set_free p q rest st)
                  (s.sized q b (still_free p q b rest st tb count some_free));
          })
          (λ q n k.
            let l = IsPool-set_free p q n rest st k in
            record { growable = l.growable; large = l.large; free = l.free; has_list = l.has_list })
  ]
    where
      still_free :
          (p q b : ℕ) (rest : List ℕ) (st : Store) (tb : ℕ)
          → ((b : ℕ) → free_count st p b ≡ times b rest + (if nat_beq b tb then 1 else 0))
          → 0 < free_count (set_free p rest st) q b
          → 0 < free_count st q b
      still_free p q b rest st tb count h =
          let k = (rw (free_count-set_free p q b rest st) at h) in
          elim (Bool-cases (nat_beq q p)) [
            | inl e ↦
                let l = (rw e at k) in
                let same = (nat_beq_iff q p).0 e in
                subst (λ r. 0 < free_count st r b) (sym same) (omega (arith, count b, l))
            | inr e ↦ (rw e at k)
          ]
