-- ===== src/Data/Theta/Lookup.antt =====
-- data/base.py: what is found in a nested dictionary after a name has been added.
use shark_turbine.Common.{
  ◌≡◌, ◌≢◌, refl, ap, List, [], ◌∷◌, none, some, Name, if◌then◌else◌, ◌==◌, nat_key, list_key,
  list_beq_iff, eq_self, eq_ne, ◌⊎◌, inl, inr, Option-cases, arith,
}
use shark_turbine.Common.Exc.{key_error, ok, err, ◌>>=◌, or_raise, bind-ok}
use shark_turbine.Data.Theta.{
  Tree, leaf, node, Entries, empty, entry, find, put, add_to_dict, tensor,
}

-- Neither path begins with the other.
abbrev pub Unrelated : List Name → List Name → Type 0
Unrelated [] qs = ⊥
Unrelated (p ∷ ps) [] = ⊥
Unrelated (p ∷ []) (q ∷ qs) = p ≢ q
Unrelated (p ∷ r ∷ ps) (q ∷ []) = p ≢ q
Unrelated (p ∷ r ∷ ps) (q ∷ s ∷ qs) = (p ≢ q) ⊎ ((p ≡ q) × Unrelated (r ∷ ps) (s ∷ qs))

module _ {V : Type 0} where
  find-put :
      (k j : Name) (t : Tree V) (es : Entries V)
      → find k (put j t es) ≡ (if k == j then some t else find k es)
  unfolding find put
  find-put k j t empty = refl
  find-put k j t (entry i u es) =
      ground (arith, list_beq_iff k j, list_beq_iff j i, list_beq_iff k i, find-put k j t es)

  pub find_empty : (k : Name) → find {V = V} k empty ≡ none
  unfolding find
  find_empty k = refl

  pub find-put_self : (k : Name) (t : Tree V) (es : Entries V) → find k (put k t es) ≡ some t
  find-put_self k t es = rw (find-put k k t es, eq_self k) refl

  pub find-put_ne :
      (k j : Name) (t : Tree V) (es : Entries V) → k ≢ j → find k (put j t es) ≡ find k es
  find-put_ne k j t es h = rw (find-put k j t es, eq_ne k j h) refl

  -- What `tensor` finds depends on the entry of the first part alone.
  pub tensor_same :
      (p : Name) (ps : List Name) (es fs : Entries V)
      → find p es ≡ find p fs
      → tensor (p ∷ ps) (node es) ≡ tensor (p ∷ ps) (node fs)
  unfolding tensor
  tensor_same p [] es fs h = ap (λ o. or_raise o key_error) h
  tensor_same p (q ∷ ps) es fs h = ap (λ o. or_raise o key_error >>= tensor (q ∷ ps)) h

  pub tensor_below :
      (p q : Name) (ps : List Name) (sub es : Entries V)
      → find p es ≡ some (node sub)
      → tensor (p ∷ q ∷ ps) (node es) ≡ tensor (q ∷ ps) (node sub)
  unfolding tensor
  tensor_below p q ps sub es h = ap (λ o. or_raise o key_error >>= tensor (q ∷ ps)) h

  pub tensor_missing :
      (p : Name) (ps : List Name) (es : Entries V)
      → find p es ≡ none
      → tensor (p ∷ ps) (node es) ≡ err key_error
  unfolding tensor
  tensor_missing p [] es h = ap (λ o. or_raise o key_error) h
  tensor_missing p (q ∷ ps) es h = ap (λ o. or_raise o key_error >>= tensor (q ∷ ps)) h

  -- What adding a longer path does to the entry of its first part.
  pub data Added (p q : Name) (ps : List Name) (value : Tree V) (es now : Entries V) : Type 0 where
    added_new :
        {sub : Entries V}
        → find p es ≡ none
        → add_to_dict (q ∷ ps) value empty ≡ ok sub
        → now ≡ put p (node sub) es
        → Added p q ps value es now
    added_below :
        {old sub : Entries V}
        → find p es ≡ some (node old)
        → add_to_dict (q ∷ ps) value old ≡ ok sub
        → now ≡ put p (node sub) es
        → Added p q ps value es now

  pub add_to_dict-Added :
      (p q : Name) (ps : List Name) (value : Tree V) (es now : Entries V)
      → add_to_dict (p ∷ q ∷ ps) value es ≡ ok now
      → Added p q ps value es now
  unfolding add_to_dict
  add_to_dict-Added p q ps value es now h = elim (Option-cases (find p es)) [
    | inl e ↦
        let (sub, f, g) =
          bind-ok (add_to_dict (q ∷ ps) value empty) _ now (rw (add_to_dict, e) at h) in
        added_new e f (cc)
    | inr (leaf v, e) ↦ absurd (let g = (rw (add_to_dict, e) at h) in cc)
    | inr (node old, e) ↦
        let (sub, f, g) =
          bind-ok (add_to_dict (q ∷ ps) value old) _ now (rw (add_to_dict, e) at h) in
        added_below e f (cc)
  ]
