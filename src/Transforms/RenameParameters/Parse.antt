-- ===== src/Transforms/RenameParameters/Parse.antt =====
-- general/rename_parameters.py: `_parse_parameter_attr` on what `make_attr` writes.
use shark_turbine.Common.{
  ◌≡◌, refl, false, [], ◌∷◌, ◌++◌, none, some, Name, codes, contains, list_key, nat_key, option_key,
  arith,
}
use shark_turbine.Transforms.RenameParameters.{
  startswith, newline, quote, until_quote, match_str, prefix, parse_rest, parse_parameter_attr,
}

-- A name in which nothing ends the pattern early.
abbrev pub Plain : Name → Type 0
Plain n = (contains quote n ≡ false) × (contains newline n ≡ false)

until_quote-append : (n text : Name) → Plain n → until_quote (n ++ quote ∷ text) ≡ some (n, text)
unfolding until_quote
until_quote-append [] text h = refl
until_quote-append (c ∷ n) text h =
    let ih = until_quote-append n text (ground arith) in ground (arith, ih)

match_str-quoted :
    (n text : Name) → Plain n → match_str (quote ∷ (n ++ quote ∷ text)) ≡ some (n, text)
unfolding match_str
match_str-quoted n text h = rw (match_str, until_quote-append n text h) refl

-- What follows a name without a scope does not begin with the separator.
pub parse-print_name :
    (n text : Name)
    → Plain n
    → parse_parameter_attr (prefix ++ (quote ∷ (n ++ quote ∷ (codes "> : " ++ text))))
      ≡ some (none, n)
unfolding parse_parameter_attr parse_rest startswith
parse-print_name n text h =
    rw (parse_parameter_attr, match_str-quoted n (codes "> : " ++ text) h) refl

pub parse-print_scoped :
    (s n text : Name)
    → Plain s
    → Plain n
    → parse_parameter_attr (
        prefix
        ++ (quote ∷ (s ++ quote ∷ (codes "::" ++ (quote ∷ (n ++ quote ∷ (codes "> : " ++ text)))))))
      ≡ some (some s, n)
unfolding parse_parameter_attr parse_rest startswith
parse-print_scoped s n text hs hn =
    rw
      (
        parse_parameter_attr,
        match_str-quoted s (codes "::" ++ (quote ∷ (n ++ quote ∷ (codes "> : " ++ text)))) hs,
        match_str-quoted n (codes "> : " ++ text) hn,
      )
      refl
