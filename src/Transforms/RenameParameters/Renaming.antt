-- ===== src/Transforms/RenameParameters/Renaming.antt =====
-- general/rename_parameters.py: which parameter an attribute names after `remap`, told by the order
-- in which the pass looks a name up.
use shark_turbine.Common.{
  ℕ, ◌≤◌, ◌≢◌, All, arith, sym, eq_ne, ◌≡◌, refl, ap, ◌∙◌, List, [], ◌∷◌, ◌++◌, none, some, Name,
  codes, list_key, nat_key, option_key, inl, inr, Option-cases,
}
use shark_turbine.Common.Dict.{lookup}
use shark_turbine.Transforms.RenameParameters.{
  quote, newline, prefix, Scope, ScopedName, parse_parameter_attr, MaybeScopedName, scoped, plain,
  name_key, Ir, Renames, norm_map_result, attr_text, make_attr, remap_name, remap,
}
use shark_turbine.Transforms.RenameParameters.Parse.{Plain, parse-print_name, parse-print_scoped}

-- The order of the lookups: an entry for the scope and the name, then one for the name alone, then
-- the callback; without any, the name stays.
pub data RenamesTo (p : Renames) (s : Scope) (n : Name) : ScopedName → Type 0 where
  by_scoped_name :
      {r : MaybeScopedName}
      → lookup (scoped s n) p.rename_map ≡ some r
      → RenamesTo p s n (norm_map_result s r)
  by_name :
      {r : MaybeScopedName}
      → lookup (scoped s n) p.rename_map ≡ none
      → lookup (plain n) p.rename_map ≡ some r
      → RenamesTo p s n (norm_map_result s r)
  by_callback :
      {r : ScopedName}
      → lookup (scoped s n) p.rename_map ≡ none
      → lookup (plain n) p.rename_map ≡ none
      → p.rename_callback s n ≡ some r
      → RenamesTo p s n r
  kept :
      lookup (scoped s n) p.rename_map ≡ none
      → lookup (plain n) p.rename_map ≡ none
      → p.rename_callback s n ≡ none
      → RenamesTo p s n (s, n)

-- The code point of a backslash.
abbrev pub backslash : ℕ
backslash = 92

-- A printable ASCII character that stands for itself between quotes.
abbrev pub IsVerbatim : ℕ → Type 0
IsVerbatim c = (32 ≤ c) × (c ≤ 126) × (c ≢ quote) × (c ≢ backslash)

abbrev pub PlainScoped : ScopedName → Type 0
PlainScoped (none, n) = All IsVerbatim n
PlainScoped (some s, n) = All IsVerbatim s × All IsVerbatim n

verbatim-Plain : (n : Name) → All IsVerbatim n → Plain n
verbatim-Plain [] h = (refl, refl)
verbatim-Plain (c ∷ n) h =
    let more = verbatim-Plain n h.1 in
    let ne : quote ≢ c = λ e. h.0.2 (sym e) in
    (rw (eq_ne quote c ne) more.0, rw (eq_ne newline c (λ e. omega (arith, h.0.0, e))) more.1)

-- What MLIR's printer does with names in which nothing has to be escaped.
pub record Prints (ir : Ir) : Type 0 where
  pub string_attr_plain :
      (n : Name) → All IsVerbatim n → ir.string_attr n ≡ quote ∷ (n ++ quote ∷ [])
  pub str-parse :
      (a : ir.Attr) (r : ScopedName)
      → PlainScoped r
      → ir.str (ir.parse (attr_text ir a r)) ≡ attr_text ir a r

append_assoc : {A : Type 0} (xs ys zs : List A) → (xs ++ ys) ++ zs ≡ xs ++ (ys ++ zs)
append_assoc [] ys zs = refl
append_assoc (x ∷ xs) ys zs = ap (λ l. x ∷ l) (append_assoc xs ys zs)

module _ (ir : Ir) (prints : Prints ir) where
  quoted-append :
      (n text : Name) → All IsVerbatim n → ir.string_attr n ++ text ≡ quote ∷ (n ++ quote ∷ text)
  quoted-append n text h =
      rw (prints.string_attr_plain n h) (ap (λ l. quote ∷ l) (append_assoc n (quote ∷ []) text))

  parse-attr_text :
      (a : ir.Attr) (r : ScopedName)
      → PlainScoped r
      → parse_parameter_attr (attr_text ir a r) ≡ some r
  unfolding attr_text
  parse-attr_text a (none, n) h =
      ap (λ t. parse_parameter_attr (prefix ++ t))
        (quoted-append n (codes "> : " ++ ir.type_of a) h)
      ∙ parse-print_name n (ir.type_of a) (verbatim-Plain n h)
  parse-attr_text a (some s, n) h =
      ap (λ t. parse_parameter_attr (prefix ++ t))
        (quoted-append s (codes "::" ++ (ir.string_attr n ++ (codes "> : " ++ ir.type_of a))) h.0)
      ∙ ap (λ t. parse_parameter_attr (prefix ++ (quote ∷ (s ++ quote ∷ (codes "::" ++ t)))))
          (quoted-append n (codes "> : " ++ ir.type_of a) h.1)
      ∙ parse-print_scoped s n (ir.type_of a) (verbatim-Plain s h.0) (verbatim-Plain n h.1)

  parse-make_attr :
      (a : ir.Attr) (r : ScopedName)
      → PlainScoped r
      → parse_parameter_attr (ir.str (make_attr ir a r)) ≡ some r
  unfolding make_attr
  parse-make_attr a r h = ap parse_parameter_attr (prints.str-parse a r h) ∙ parse-attr_text a r h

  -- The lookups choose a name, and the new attribute names it.
  remap_name-RenamesTo :
      (p : Renames) (a : ir.Attr) (s : Scope) (n : Name)
      → parse_parameter_attr (ir.str a) ≡ some (s, n)
      → ((r : ScopedName) → RenamesTo p s n r → PlainScoped r)
      → (r : ScopedName) × RenamesTo p s n r
        × (parse_parameter_attr (ir.str (remap_name ir p a s n)) ≡ some r)
  unfolding remap_name
  remap_name-RenamesTo p a s n named h = elim (Option-cases (lookup (scoped s n) p.rename_map)) [
    | inr (r, e) ↦
        let to = by_scoped_name e in
        (norm_map_result s r, to, rw (remap_name, e) (parse-make_attr a _ (h _ to)))
    | inl e ↦ elim (Option-cases (lookup (plain n) p.rename_map)) [
      | inr (r, f) ↦
          let to = by_name e f in
          (norm_map_result s r, to, rw (remap_name, e, f) (parse-make_attr a _ (h _ to)))
      | inl f ↦ elim (Option-cases (p.rename_callback s n)) [
        | inr (r, g) ↦
            let to = by_callback e f g in
            (r, to, rw (remap_name, e, f, g) (parse-make_attr a r (h r to)))
        | inl g ↦ ((s, n), kept e f g, rw (remap_name, e, f, g) named)
      ]
    ]
  ]

  -- Given a printer that prints names of printable ASCII characters, without quotes and
  -- backslashes, as they are between quotes, and whose parser and printer keep the text of an
  -- attribute made of such names, an attribute that names a parameter is remapped to one that is
  -- parsed as the name that the lookups choose for it, in the order scope and name, name alone,
  -- callback, provided that the names they can choose are made of such characters.
  pub remap-RenamesTo :
      (p : Renames) (a : ir.Attr) (s : Scope) (n : Name)
      → parse_parameter_attr (ir.str a) ≡ some (s, n)
      → ((r : ScopedName) → RenamesTo p s n r → PlainScoped r)
      → (r : ScopedName) × RenamesTo p s n r
        × (parse_parameter_attr (ir.str (remap ir p a)) ≡ some r)
  unfolding remap
  remap-RenamesTo p a s n named h = rw (remap, named) (remap_name-RenamesTo p a s n named h)
