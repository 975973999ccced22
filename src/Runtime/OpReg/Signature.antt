-- ===== src/Runtime/OpReg/Signature.antt =====
-- op_reg/base.py: how the signature of a custom operator is split, made unique and defined in a
-- library. The lock around the definition makes it one step. torch's libraries are a parameter: a
-- state and what `define`, `impl` and the lookup of an operator do to it.
pub mod Unique
pub mod Defined
use shark_turbine.Common.{
  ℕ, zero, suc, ◌+◌, ◌-◌, Bool, true, false, ◌||◌, ◌&&◌, List, [], ◌∷◌, ◌++◌, Option, none, some,
  Name, codes, length, if◌then◌else◌, ◌==◌, contains, nat_key, list_key, pair_key,
}
use shark_turbine.Common.Exc.{Exc, value_error, runtime_error, Result, ok, err, Exec}
use shark_turbine.Common.Dict.{Dict, lookup, insert}
use shark_turbine.Common.Decimal.{show_nat}

-- The code points of an opening parenthesis and of a newline.
abbrev pub open_paren : ℕ
open_paren = 40

abbrev pub newline : ℕ
newline = 10

-- The characters before the first `c`, and the text from there.
unfoldable pub span_to : ℕ → Name → Name × Name
span_to c [] = ([], [])
span_to c (x ∷ text) =
    let rest = span_to c text in if x == c then ([], x ∷ text) else (x ∷ rest.0, rest.1)

-- The group `\(.+` up to `$`, from the line behind the parenthesis and the text behind that line:
-- at least one character, and a newline at the end at most, which the group leaves out.
unfoldable pub match_line : ℕ → Name → Name → Option Name
match_line p [] rest = none
match_line p (c ∷ line) [] = some (p ∷ c ∷ line)
match_line p (c ∷ line) (n ∷ []) = some (p ∷ c ∷ line)
match_line p (c ∷ line) (n ∷ m ∷ rest) = none

unfoldable pub match_args : Name → Option Name
match_args [] = none
match_args (p ∷ args) = let (line, rest) = span_to newline args in match_line p line rest

unfoldable pub match_signature : Name → Name → Result (Name × Name)
match_signature [] rest = err value_error
match_signature (c ∷ name) rest = elim (match_args rest) [
  | none ↦ err value_error
  | some args ↦ ok (c ∷ name, args)
]

-- _split_signature, with the pattern `^([^(]+)(\(.+)$`.
unfoldable pub split_signature : Name → Result (Name × Name)
split_signature sig = let (name, rest) = span_to open_paren sig in match_signature name rest

abbrev pub unique : Name
unique = codes "@UNIQUE@"

-- `text.startswith(prefix)`
unfoldable pub begins : Name → Name → Bool
begins text [] = true
begins [] (p ∷ prefix) = false
begins (c ∷ text) (p ∷ prefix) = c == p && begins text prefix

-- `"@UNIQUE@" in text`
unfoldable pub has_unique : Name → Bool
has_unique [] = false
has_unique (c ∷ text) = begins (c ∷ text) unique || has_unique text

-- `text.replace("@UNIQUE@", new)`: the first number counts the characters of an occurrence that
-- are still to be left out.
unfoldable pub replace_unique : ℕ → Name → Name → Name
replace_unique skipped new [] = []
replace_unique (suc skipped) new (c ∷ text) = replace_unique skipped new text
replace_unique zero new (c ∷ text) =
    let replaced = new ++ replace_unique 7 new text in
    let kept = c ∷ replace_unique 0 new text in if begins (c ∷ text) unique then replaced else kept

-- torch's libraries: `lib.define(schema)`, `lib.impl(name, fn, key)` and `torch.ops.ns.name`.
pub record Torch : Type 1 where
  pub State : Type 0
  pub Op : Type 0
  pub define : Name → Name → Exec State (Unit {0})
  pub impl : Name → Name → Name → Exec State (Unit {0})
  pub get_op : Name → Name → State → Result Op

abbrev pub OpKey : Type 0
OpKey = Name × Name

-- UNIQUE_OP_NAME_COUNTER and DEFINED_OP_NAMES, and the libraries.
pub record Registry (T : Torch) : Type 0 where
  pub unique_op_name_counter : Dict OpKey ℕ
  pub defined_op_names : List OpKey
  pub libraries : T.State

-- UNIQUE_OP_NAME_COUNTER.get(unique_key, 0)
abbrev pub counter_of : OpKey → Dict OpKey ℕ → ℕ
counter_of k counters = elim (lookup k counters) [ none ↦ 0 | some n ↦ n ]

-- The name to define, and the counters after it.
unfoldable pub unique_name : Name → Name → Dict OpKey ℕ → Name × Dict OpKey ℕ
unique_name ns name counters =
    let counter = counter_of (ns, name) counters + 1 in
    if has_unique name
    then (replace_unique 0 (show_nat counter) name, insert (ns, name) counter counters)
    else (name, counters)

module _ (T : Torch) where
  -- What follows `lib.define(schema)`.
  unfoldable pub reserve_name :
      Name → Name → Registry T → Result (Unit {0}) × T.State → Result Name × Registry T
  reserve_name ns name r (err e, libraries) = (err e, record r { libraries = libraries })
  reserve_name ns name r (ok _, libraries) = (
    ok name,
    record r { defined_op_names = (ns, name) ∷ r.defined_op_names; libraries = libraries },
  )

  -- What follows the uniqueing: the name is reserved once the library has accepted the schema.
  unfoldable pub define_name : Name → Name → Name → Exec (Registry T) Name
  define_name ns name call_args r =
      if contains (ns, name) r.defined_op_names
      then (err runtime_error, r)
      else reserve_name ns name r (T.define ns (name ++ call_args) r.libraries)

  -- _define_signature_in_library
  unfoldable pub define_signature_in_library : Name → Name → Exec (Registry T) Name
  define_signature_in_library ns signature r = elim (split_signature signature) [
    | err e ↦ (err e, r)
    | ok (name, call_args) ↦
        let (uniqued, counters) = unique_name ns name r.unique_op_name_counter in
        define_name ns uniqued call_args (record r { unique_op_name_counter = counters })
  ]
