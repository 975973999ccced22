-- ===== src/Data/Theta/Nesting.antt =====
-- data/base.py: the nesting of a flat dictionary, and the look-up of its names.
use shark_turbine.Common.{
  ◌≡◌, ◌≢◌, refl, sym, ap, ◌∙◌, subst, List, [], ◌∷◌, Option, none, some, Name, inl, inr,
  Option-cases, Bool-cases, ◌++◌, ◌==◌, nat_key, All, All-mono,
}
use shark_turbine.Common.Exc.{Result, ok}
use shark_turbine.Data.Theta.{
  Tree, leaf, node, Entries, empty, find, put, split, split_from, add_to_dict, add_all,
  flat_to_nested_dict, tensor,
}
use shark_turbine.Data.Theta.Lookup.{
  Unrelated, find_empty, find-put_self, find-put_ne, tensor_same, tensor_below, tensor_missing,
  added_new, added_below, add_to_dict-Added,
}

module _ {V : Type 0} where
  -- A path that was added is found.
  add_to_dict-tensor :
      (ps : List Name) (value : Tree V) (es now : Entries V)
      → add_to_dict ps value es ≡ ok now
      → tensor ps (node now) ≡ ok value
  unfolding add_to_dict tensor
  add_to_dict-tensor [] value es now h = absurd (cc)
  add_to_dict-tensor (p ∷ []) value es now h =
      let put_now : put p value es ≡ now = cc in rw (← put_now, find-put_self p value es) refl
  add_to_dict-tensor (p ∷ q ∷ ps) value es now h = elim (add_to_dict-Added p q ps value es now h) [
    | added_new {sub = sub} e f same ↦
        tensor_below p q ps sub now (rw same (find-put_self p (node sub) es))
        ∙ add_to_dict-tensor (q ∷ ps) value empty sub f
    | added_below {old = old} {sub = sub} e f same ↦
        tensor_below p q ps sub now (rw same (find-put_self p (node sub) es))
        ∙ add_to_dict-tensor (q ∷ ps) value old sub f
  ]

  other_part :
      (p q : Name) (qs : List Name) (t : Tree V) (es now : Entries V)
      → p ≢ q
      → now ≡ put p t es
      → tensor (q ∷ qs) (node now) ≡ tensor (q ∷ qs) (node es)
  other_part p q qs t es now ne same =
      tensor_same q qs now es (rw same (find-put_ne q p t es (λ e. ne (sym e))))

  -- Adding a path leaves what is found at an unrelated one.
  add_to_dict-Unrelated :
      (ps qs : List Name) (value : Tree V) (es now : Entries V)
      → Unrelated ps qs
      → add_to_dict ps value es ≡ ok now
      → tensor qs (node now) ≡ tensor qs (node es)
  unfolding add_to_dict
  add_to_dict-Unrelated [] qs value es now u h = elim u [ ]
  add_to_dict-Unrelated (p ∷ ps) [] value es now u h = elim u [ ]
  add_to_dict-Unrelated (p ∷ []) (q ∷ qs) value es now u h = other_part p q qs value es now u (cc)
  add_to_dict-Unrelated (p ∷ r ∷ ps) (q ∷ []) value es now u h =
      elim (add_to_dict-Added p r ps value es now h) [
        | added_new {sub = sub} e f same ↦ other_part p q [] (node sub) es now u same
        | added_below {sub = sub} e f same ↦ other_part p q [] (node sub) es now u same
      ]
  add_to_dict-Unrelated (p ∷ r ∷ ps) (q ∷ s ∷ qs) value es now (inl ne) h =
      elim (add_to_dict-Added p r ps value es now h) [
        | added_new {sub = sub} e f same ↦ other_part p q (s ∷ qs) (node sub) es now ne same
        | added_below {sub = sub} e f same ↦ other_part p q (s ∷ qs) (node sub) es now ne same
      ]
  add_to_dict-Unrelated (p ∷ r ∷ ps) (q ∷ s ∷ qs) value es now (inr (eq, u)) h =
      elim (add_to_dict-Added p r ps value es now h) [
        | added_new {sub = sub} e f same ↦
            subst (λ x. tensor (x ∷ s ∷ qs) (node now) ≡ tensor (x ∷ s ∷ qs) (node es)) eq
              (tensor_below p s qs sub now (rw same (find-put_self p (node sub) es))
                ∙ add_to_dict-Unrelated (r ∷ ps) (s ∷ qs) value empty sub u f
                ∙ tensor_missing s qs empty (find_empty s)
                ∙ sym (tensor_missing p (s ∷ qs) es e))
        | added_below {old = old} {sub = sub} e f same ↦
            subst (λ x. tensor (x ∷ s ∷ qs) (node now) ≡ tensor (x ∷ s ∷ qs) (node es)) eq
              (tensor_below p s qs sub now (rw same (find-put_self p (node sub) es))
                ∙ add_to_dict-Unrelated (r ∷ ps) (s ∷ qs) value old sub u f
                ∙ sym (tensor_below p s qs old es e))
      ]

  -- No tensor stands at a proper beginning of the path.
  abbrev pub OpenAt : Option (Tree V) → (Entries V → Type 0) → Type 0
  OpenAt none below = Unit
  OpenAt (some (leaf v)) below = ⊥
  OpenAt (some (node es)) below = below es

  unfoldable pub Open : List Name → Entries V → Type 0
  Open [] es = ⊥
  Open (p ∷ []) es = Unit
  Open (p ∷ q ∷ ps) es = OpenAt (find p es) (Open (q ∷ ps))

  Open-one : (p : Name) (es : Entries V) → Open (p ∷ []) es
  unfolding Open
  Open-one p es = tt

  Open-empty : (p : Name) (ps : List Name) (es : Entries V) → es ≡ empty → Open (p ∷ ps) es
  unfolding Open find
  Open-empty p [] es e = tt
  Open-empty p (q ∷ ps) es e = let missing : find p es ≡ none = ap (find p) e in rw missing tt

  add_to_dict-Open :
      (ps : List Name) (value : Tree V) (es : Entries V)
      → Open ps es
      → (now : Entries V) × (add_to_dict ps value es ≡ ok now)
  unfolding Open add_to_dict
  add_to_dict-Open [] value es h = elim h [ ]
  add_to_dict-Open (p ∷ []) value es h = (put p value es, refl)
  add_to_dict-Open (p ∷ q ∷ ps) value es h = elim (Option-cases (find p es)) [
    | inl e ↦
        let (sub, f) = add_to_dict-Open (q ∷ ps) value empty (Open-empty q ps empty refl) in
        (put p (node sub) es, rw (add_to_dict, e, f) refl)
    | inr (leaf v, e) ↦ let no : ⊥ = (rw e at h) in elim no [ ]
    | inr (node old, e) ↦
        let (sub, f) = add_to_dict-Open (q ∷ ps) value old (rw e at h) in
        (put p (node sub) es, rw (add_to_dict, e, f) refl)
  ]

  Open-same :
      (q s : Name) (qs : List Name) (es now : Entries V)
      → find q now ≡ find q es
      → Open (q ∷ s ∷ qs) es
      → Open (q ∷ s ∷ qs) now
  unfolding Open
  Open-same q s qs es now e h = rw e h

  Open-below :
      (q s : Name) (qs : List Name) (sub now : Entries V)
      → find q now ≡ some (node sub)
      → Open (s ∷ qs) sub
      → Open (q ∷ s ∷ qs) now
  unfolding Open
  Open-below q s qs sub now e h = rw e h

  below_Open :
      (q s : Name) (qs : List Name) (sub es : Entries V)
      → find q es ≡ some (node sub)
      → Open (q ∷ s ∷ qs) es
      → Open (s ∷ qs) sub
  unfolding Open
  below_Open q s qs sub es e h = rw e at h

  -- Adding a path leaves an unrelated one open.
  Open-add_to_dict :
      (ps qs : List Name) (value : Tree V) (es now : Entries V)
      → Unrelated ps qs
      → add_to_dict ps value es ≡ ok now
      → Open qs es
      → Open qs now
  unfolding add_to_dict
  Open-add_to_dict [] qs value es now u h o = elim u [ ]
  Open-add_to_dict (p ∷ ps) [] value es now u h o = elim u [ ]
  Open-add_to_dict (p ∷ []) (q ∷ []) value es now u h o = Open-one q now
  Open-add_to_dict (p ∷ []) (q ∷ s ∷ qs) value es now u h o =
      let put_now : now ≡ put p value es = cc in
      Open-same q s qs es now (rw put_now (find-put_ne q p value es (λ e. u (sym e)))) o
  Open-add_to_dict (p ∷ r ∷ ps) (q ∷ []) value es now u h o = Open-one q now
  Open-add_to_dict (p ∷ r ∷ ps) (q ∷ s ∷ qs) value es now (inl ne) h o =
      elim (add_to_dict-Added p r ps value es now h) [
        | added_new {sub = sub} e f same ↦
            Open-same q s qs es now (rw same (find-put_ne q p (node sub) es (λ e. ne (sym e)))) o
        | added_below {sub = sub} e f same ↦
            Open-same q s qs es now (rw same (find-put_ne q p (node sub) es (λ e. ne (sym e)))) o
      ]
  Open-add_to_dict (p ∷ r ∷ ps) (q ∷ s ∷ qs) value es now (inr (eq, u)) h o =
      elim (add_to_dict-Added p r ps value es now h) [
        | added_new {sub = sub} e f same ↦
            subst (λ x. Open (x ∷ s ∷ qs) now) eq
              (Open-below p s qs sub now (rw same (find-put_self p (node sub) es)) (
                Open-add_to_dict (r ∷ ps) (s ∷ qs) value empty sub u f
                  (Open-empty s qs empty refl)))
        | added_below {old = old} {sub = sub} e f same ↦
            subst (λ x. Open (x ∷ s ∷ qs) now) eq
              (Open-below p s qs sub now (rw same (find-put_self p (node sub) es)) (
                Open-add_to_dict (r ∷ ps) (s ∷ qs) value old sub u f
                  (below_Open p s qs old es e (subst (λ x. Open (x ∷ s ∷ qs) es) (sym eq) o))))
      ]

  -- No name of the flat dictionary begins, part by part, with another.
  abbrev pub Separate : List (Name × Tree V) → Type 0
  Separate [] = Unit
  Separate ((name, value) ∷ flat) =
      All (λ x. Unrelated (split name) (split x.0) × Unrelated (split x.0) (split name)) flat
      × Separate flat

  pub record Nests (flat : List (Name × Tree V)) (es : Entries V) (result : Result (Entries V))
      : Type 0 where
    pub nested : Entries V
    pub returned : result ≡ ok nested
    pub found : All (λ x. tensor (split x.0) (node nested) ≡ ok x.1) flat
    pub kept :
        (qs : List Name)
        → All (λ x. Unrelated (split x.0) qs) flat
        → tensor qs (node nested) ≡ tensor qs (node es)

  Open-later :
      (name : Name) (value : Tree V) (flat : List (Name × Tree V)) (es now : Entries V)
      → add_to_dict (split name) value es ≡ ok now
      → All (λ x. Unrelated (split name) (split x.0) × Unrelated (split x.0) (split name)) flat
      → All (λ x. Open (split x.0) es) flat
      → All (λ x. Open (split x.0) now) flat
  Open-later name value [] es now h u o = tt
  Open-later name value ((m, w) ∷ flat) es now h u o = (
    Open-add_to_dict (split name) (split m) value es now (u.0).0 h o.0,
    Open-later name value flat es now h u.1 o.1,
  )

  add_all-Nests :
      (flat : List (Name × Tree V)) (es : Entries V)
      → Separate flat
      → All (λ x. Open (split x.0) es) flat
      → Nests flat es (add_all flat es)
  unfolding add_all
  add_all-Nests [] es s o = record { nested = es; returned = refl; found = tt; kept = λ qs u. refl }
  add_all-Nests ((name, value) ∷ flat) es s o =
      let (now, e) = add_to_dict-Open (split name) value es o.0 in
      let rest = add_all-Nests flat now s.1 (Open-later name value flat es now e s.0 o.1) in
      let others = All-mono flat (λ x h. h.1) s.0 in
      record {
        nested = rest.nested;
        returned = rw (add_all, e) rest.returned;
        found = (
          rest.kept (split name) others ∙ add_to_dict-tensor (split name) value es now e,
          rest.found,
        );
        kept = λ qs u. rest.kept qs u.1 ∙ add_to_dict-Unrelated (split name) qs value es now u.0 e;
      }

  Open-split : (part text : Name) (es : Entries V) → es ≡ empty → Open (split_from part text) es
  unfolding split_from
  Open-split part [] es e = Open-empty part [] es e
  Open-split part (c ∷ text) es e = elim (Bool-cases (c == 46)) [
    | inl f ↦ rw f (Open-empty part (split_from [] text) es e)
    | inr f ↦ rw f (Open-split (part ++ c ∷ []) text es e)
  ]

  All-Open : (flat : List (Name × Tree V)) → All (λ x. Open (split x.0) empty) flat
  unfolding split
  All-Open [] = tt
  All-Open ((name, value) ∷ flat) = (Open-split [] name empty refl, All-Open flat)

  -- A flat dictionary in which no name begins, part by part, with another is nested without an
  -- error, and in the result each name's path leads to its value, while at any path that is
  -- related to none of the names nothing is found that was not found in the empty dictionary.
  pub flat_to_nested_dict-Nests :
      (flat : List (Name × Tree V)) → Separate flat → Nests flat empty (flat_to_nested_dict flat)
  unfolding flat_to_nested_dict
  flat_to_nested_dict-Nests flat s = add_all-Nests flat empty s (All-Open flat)
