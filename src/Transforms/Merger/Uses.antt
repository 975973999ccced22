-- ===== src/Transforms/Merger/Uses.antt =====
-- transforms/merger.py: what becomes of the uses of renamed symbols. The renames are applied one
-- after the other, and each finds also the uses that an earlier one has written.
use shark_turbine.Common.{
  ◌≡◌, refl, ap, sym, ◌∙◌, false, ◌==◌, List, [], ◌∷◌, none, some, map, Name, arith, contains,
  list_key, nat_key, inl, inr, Bool-cases, if◌then◌else◌,
}
use shark_turbine.Common.Dict.{Dict, lookup, keys}
use shark_turbine.Transforms.Merger.{Ir, IrOp, State, replace_uses, replace_in_op, translate_symbol}

-- One use under the renames, in order.
abbrev follow : Dict Name Name → Name → Name
follow [] n = n
follow ((from, to) ∷ renames) n = follow renames (if n == from then to else n)

abbrev translate : Dict Name Name → Name → Name
translate renames n = elim (lookup n renames) [ none ↦ n | some to ↦ to ]

-- No name that a rename introduces is renamed by a later one.
abbrev pub Apart : Dict Name Name → Type 0
Apart [] = Unit
Apart ((from, to) ∷ renames) = (contains to (keys renames) ≡ false) × Apart renames

lookup-none : (n : Name) (d : Dict Name Name) → contains n (keys d) ≡ false → lookup n d ≡ none
lookup-none n [] h = refl
lookup-none n ((from, to) ∷ d) h = ground (arith, lookup-none n d)

follow-absent : (n : Name) (d : Dict Name Name) → contains n (keys d) ≡ false → follow d n ≡ n
follow-absent n [] h = refl
follow-absent n ((from, to) ∷ d) h = elim (Bool-cases (n == from)) [
  | inl e ↦ absurd (ground (arith, e, h))
  | inr e ↦ rw e (follow-absent n d (ground (arith, e, h)))
]

follow-translate :
    (renames : Dict Name Name) (n : Name) → Apart renames → follow renames n ≡ translate renames n
follow-translate [] n h = refl
follow-translate ((from, to) ∷ renames) n h = elim (Bool-cases (n == from)) [
  | inl e ↦ rw (translate, e) (follow-absent to renames h.0)
  | inr e ↦ rw (translate, e) (follow-translate renames n h.1)
]

map-map :
    {A B C : Type 0} (f : A → B) (g : B → C) (xs : List A)
    → map g (map f xs) ≡ map (λ x. g (f x)) xs
map-map f g [] = refl
map-map f g (x ∷ xs) = ap (λ l. g (f x) ∷ l) (map-map f g xs)

map-same : {A B : Type 0} (f g : A → B) (xs : List A) → ((x : A) → f x ≡ g x) → map f xs ≡ map g xs
map-same f g [] h = refl
map-same f g (x ∷ xs) h = rw (h x, map-same f g xs h)

map-id : {A : Type 0} (xs : List A) → map (λ x. x) xs ≡ xs
map-id [] = refl
map-id (x ∷ xs) = ap (λ l. x ∷ l) (map-id xs)

module _ (ir : Ir) where
  open ir use {Body, uses, replace_all_symbol_uses, uses-replace}

  replace_uses-follow :
      (renames : Dict Name Name) (b : Body)
      → uses (replace_uses ir renames b) ≡ map (follow renames) (uses b)
  unfolding replace_uses
  replace_uses-follow [] b = sym (map-id (uses b))
  replace_uses-follow ((from, to) ∷ renames) b =
      replace_uses-follow renames (replace_all_symbol_uses from to b)
      ∙ ap (map (follow renames)) (uses-replace from to b)
      ∙ map-map (λ n. if n == from then to else n) (follow renames) (uses b)

  -- Where no rename introduces a name that a later rename replaces, the uses in an operation that
  -- was moved become, in order, what translate_symbol answers for them.
  pub replace_in_op-translate_symbol :
      (m : State ir) (op : IrOp ir)
      → Apart m.rename_map
      → uses (replace_in_op ir m.rename_map op).body ≡ map (translate_symbol ir m) (uses op.body)
  unfolding replace_in_op translate_symbol
  replace_in_op-translate_symbol m op h =
      replace_uses-follow m.rename_map op.body
      ∙ map-same (follow m.rename_map) (translate m.rename_map) (uses op.body)
          λ n. follow-translate m.rename_map n h
