-- ===== src/Transforms/RenameParameters.antt =====
-- core/shark_turbine/transforms/general/rename_parameters.py: a pass that renames the parameters
-- named in the initial values of globals. An attribute is MLIR's, and enters as an interface: its
-- text, whether it is a named parameter, and the attribute that a scope and a name make.
pub mod Parse
pub mod Renaming
use shark_turbine.Common.{
  ℕ, zero, suc, ◌+◌, ◌≡◌, Bool, true, false, not, ◌&&◌, ◌||◌, ◌==◌, List, [], ◌∷◌, ◌++◌, map,
  Option, none, some, Name, codes, length, drop, Key, list_key, nat_key, option_key, if◌then◌else◌,
  option_beq_iff, list_beq_iff, arith, ◌↔◌,
}
use shark_turbine.Common.Dict.{Dict, lookup}

-- `text.startswith(prefix)`
unfoldable pub startswith : Name → Name → Bool
startswith text [] = true
startswith [] (p ∷ prefix) = false
startswith (c ∷ text) (p ∷ prefix) = c == p && startswith text prefix

-- The code points of a newline and of a quote.
abbrev pub newline : ℕ
newline = 10

abbrev pub quote : ℕ
quote = 34

abbrev map_some {ℓ κ} : {A : Type ℓ} {B : Type κ} → (A → B) → Option A → Option B
map_some f none = none
map_some f (some a) = some (f a)

-- STR_PATTERN after its first quote: the shortest run of characters other than newlines that a
-- quote ends, and what follows that quote. The pattern's look-ahead stands before the quote, so it
-- sees the quote itself and excludes nothing.
unfoldable pub until_quote : Name → Option (Name × Name)
until_quote [] = none
until_quote (c ∷ text) =
    let rest = map_some (λ (group, rest). (c ∷ group, rest)) (until_quote text) in
    if c == quote then some ([], text) else if c == newline then none else rest

-- `STR_PATTERN.search(asm)`, of which only a match at the start counts.
unfoldable pub match_str : Name → Option (Name × Name)
match_str [] = none
match_str (c ∷ text) = elim (until_quote text) [
  | none ↦ none
  | some m ↦ if c == quote then some m else none
]

abbrev pub prefix : Name
prefix = codes "#stream.parameter.named<"

abbrev pub Scope : Type 0
Scope = Option Name

abbrev pub ScopedName : Type 0
ScopedName = Scope × Name

-- After the first string: a second one with its scope before it, or the end.
unfoldable pub parse_rest : Name → Name → Option ScopedName
parse_rest first asm =
    if startswith asm (codes "::")
    then elim (match_str (drop 2 asm)) [
      | none ↦ none
      | some (second, rest) ↦
          if startswith rest (codes ">") then some (some first, second) else none
    ]
    else some (none, first)

-- _parse_parameter_attr, on the attribute's text. The list of one or two strings that it returns
-- is the scope, if any, and the name.
unfoldable pub parse_parameter_attr : Name → Option ScopedName
parse_parameter_attr asm =
    elim (match_str (if startswith asm prefix then drop (length prefix) asm else asm)) [
      | none ↦ none
      | some (first, rest) ↦ parse_rest first rest
    ]

-- A key of the rename map, or a value of it: a scope and a name, or a name alone; a value can also
-- be a tuple of a name alone.
pub data MaybeScopedName : Type 0 where
  scoped : Scope → Name → MaybeScopedName
  plain : Name → MaybeScopedName
  one_tuple : Name → MaybeScopedName

abbrev pub same_key : MaybeScopedName → MaybeScopedName → Bool
same_key (scoped s n) (scoped t m) = s == t && n == m
same_key (plain n) (plain m) = n == m
same_key (one_tuple n) (one_tuple m) = n == m
same_key _ _ = false

pub same_key_iff : (a b : MaybeScopedName) → (same_key a b ≡ true) ↔ (a ≡ b)
same_key_iff (scoped s n) (scoped t m) = ground (arith, option_beq_iff s t, list_beq_iff n m)
same_key_iff (plain n) (plain m) = ground (arith, list_beq_iff n m)
same_key_iff (one_tuple n) (one_tuple m) = ground (arith, list_beq_iff n m)
same_key_iff _ _ = ground arith

instance abbrev pub name_key : Key MaybeScopedName
name_key = record { same = same_key; same_iff = same_key_iff }

-- What MLIR does for the pass: the text of an attribute and the attribute of a text, the text of a
-- type and of a string attribute, and whether an attribute names a parameter.
pub record Ir : Type 1 where
  pub Attr : Type 0
  pub attr_key : Key Attr
  pub str : Attr → Name
  pub parse : Name → Attr
  pub type_of : Attr → Name
  pub string_attr : Name → Name
  pub is_parameter_attr : Attr → Bool

-- The pass's settings.
pub record Renames : Type 0 where
  pub rename_map : Dict MaybeScopedName MaybeScopedName
  pub rename_callback : Scope → Name → Option ScopedName

pub record Global (A : Type 0) : Type 0 where
  pub symbol : Name
  pub initial_value : Option A

-- norm_map_result
unfoldable pub norm_map_result : Scope → MaybeScopedName → ScopedName
norm_map_result orig_scope (plain name) = (orig_scope, name)
norm_map_result orig_scope (one_tuple name) = (orig_scope, name)
norm_map_result orig_scope (scoped scope name) = (scope, name)

module _ (ir : Ir) where
  open ir use {Attr, attr_key, str, parse, type_of, string_attr, is_parameter_attr}

  unfoldable pub attr_text : Attr → ScopedName → Name
  attr_text parameter_attr (none, name) =
      prefix ++ (string_attr name ++ (codes "> : " ++ type_of parameter_attr))
  attr_text parameter_attr (some scope, name) =
      prefix
      ++ (string_attr scope
          ++ (codes "::" ++ (string_attr name ++ (codes "> : " ++ type_of parameter_attr))))

  unfoldable pub make_attr : Attr → ScopedName → Attr
  make_attr parameter_attr scoped_name = parse (attr_text parameter_attr scoped_name)

  -- The end of `remap`: the fully qualified name is looked up, then the name alone, then the
  -- callback is asked.
  unfoldable pub remap_name : Renames → Attr → Scope → Name → Attr
  remap_name p parameter_attr orig_scope name =
      elim (lookup (scoped orig_scope name) p.rename_map) [
        | some result ↦ make_attr parameter_attr (norm_map_result orig_scope result)
        | none ↦ elim (lookup (plain name) p.rename_map) [
          | some result ↦ make_attr parameter_attr (norm_map_result orig_scope result)
          | none ↦ elim (p.rename_callback orig_scope name) [
            | some result ↦ make_attr parameter_attr result
            | none ↦ parameter_attr
          ]
        ]
      ]

  unfoldable pub remap : Renames → Attr → Attr
  remap p parameter_attr = elim (parse_parameter_attr (str parameter_attr)) [
    | none ↦ parameter_attr
    | some (orig_scope, name) ↦ remap_name p parameter_attr orig_scope name
  ]

  -- One round of the loop of `run`.
  unfoldable pub update : Renames → Global Attr → Global Attr
  update p global = elim global.initial_value [
    | none ↦ global
    | some initial_value ↦
        if is_parameter_attr initial_value
        then (if attr_key.same (remap p initial_value) initial_value
            then global
            else record global { initial_value = some (remap p initial_value) })
        else global
  ]

  unfoldable pub run : Renames → List (Global Attr) → List (Global Attr)
  run p [] = []
  run p (global ∷ globals) = update p global ∷ run p globals
