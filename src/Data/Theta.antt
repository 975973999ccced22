-- ===== src/Data/Theta.antt =====
-- data/base.py, Theta: parameters under dotted names, kept as dictionaries in dictionaries. A tensor
-- is a parameter of the model.
pub mod Lookup
pub mod Nesting
use shark_turbine.Common.{
  ℕ, Bool, true, false, List, [], ◌∷◌, ◌++◌, Option, none, some, Name, codes, if◌then◌else◌, ◌==◌,
  nat_key, list_key,
}
use shark_turbine.Common.Exc.{
  Exc, assertion_error, index_error, key_error, type_error, attribute_error, Result, ok, err, ◌>>=◌,
  or_raise,
}
use shark_turbine.Common.Dict.{Dict, insert}

-- A value of a nested dictionary: a tensor, or a dictionary in insertion order.
mutual
  pub data Tree (V : Type 0) : Type 0 where
    leaf : V → Tree V
    node : Entries V → Tree V

  pub data Entries (V : Type 0) : Type 0 where
    empty : Entries V
    entry : Name → Tree V → Entries V → Entries V

-- name.split(".")
unfoldable pub split_from : Name → Name → List Name
split_from part [] = part ∷ []
split_from part (c ∷ text) =
    let next = part ∷ split_from [] text in
    let same = split_from (part ++ c ∷ []) text in if c == 46 then next else same

unfoldable pub split : Name → List Name
split name = split_from [] name

-- The name of a key below a prefix.
unfoldable pub new_prefix : Name → Name → Name
new_prefix [] key = key
new_prefix (c ∷ prefix) key = (c ∷ prefix) ++ (codes "." ++ key)

module _ {V : Type 0} where
  -- d.get(k)
  unfoldable pub find : Name → Entries V → Option (Tree V)
  find k empty = none
  find k (entry j t es) = if k == j then some t else find k es

  -- d[k] = t
  unfoldable pub put : Name → Tree V → Entries V → Entries V
  put k t empty = entry k t empty
  put k t (entry j u es) = if k == j then entry j t es else entry j u (put k t es)

  -- add_to_dict, on the parts of the name.
  unfoldable pub add_to_dict : List Name → Tree V → Entries V → Result (Entries V)
  add_to_dict [] value current = err index_error
  add_to_dict (part ∷ []) value current = ok (put part value current)
  add_to_dict (part ∷ next ∷ parts) value current = elim (find part current) [
    | none ↦ add_to_dict (next ∷ parts) value empty >>= λ sub. ok (put part (node sub) current)
    | some t ↦ elim t [
      | leaf v ↦ err assertion_error
      | node sub ↦ add_to_dict (next ∷ parts) value sub >>= λ sub. ok (put part (node sub) current)
    ]
  ]

  -- The loop of _flat_to_nested_dict.
  unfoldable pub add_all : List (Name × Tree V) → Entries V → Result (Entries V)
  add_all [] nested = ok nested
  add_all ((name, value) ∷ flat) nested = add_to_dict (split name) value nested >>= add_all flat

  unfoldable pub flat_to_nested_dict : List (Name × Tree V) → Result (Entries V)
  flat_to_nested_dict flat = add_all flat empty

  -- The items of a dictionary.
  unfoldable pub items : Entries V → List (Name × Tree V)
  items empty = []
  items (entry k t es) = (k, t) ∷ items es

  -- Theta.tensor: subscripting a tensor raises TypeError, which is not caught.
  unfoldable pub tensor : List Name → Tree V → Result (Tree V)
  tensor [] t = err index_error
  tensor (part ∷ parts) (leaf v) = err type_error
  tensor (part ∷ []) (node es) = or_raise (find part es) key_error
  tensor (part ∷ next ∷ parts) (node es) =
      or_raise (find part es) key_error >>= tensor (next ∷ parts)

  -- The descent of Theta.__call__.
  unfoldable pub descend : List Name → Tree V → Result (Tree V)
  descend [] t = ok t
  descend (part ∷ parts) (leaf v) = err type_error
  descend (part ∷ parts) (node es) = or_raise (find part es) key_error >>= descend parts

  -- Theta.__call__: the dictionary that is found is nested again, name by name.
  unfoldable pub sub_theta : List Name → Tree V → Result (Entries V)
  sub_theta path t = descend path t >>= λ u. elim u [
    | leaf v ↦ err attribute_error
    | node es ↦ flat_to_nested_dict (items es)
  ]

  -- Theta.flatten, on a value, and on the entries of a dictionary.
  unfoldable mutual
    pub flatten_tree : Name → Tree V → Dict Name V → Dict Name V
    flatten_tree prefix (leaf v) results = insert prefix v results
    flatten_tree prefix (node es) results = accum prefix es results

    pub accum : Name → Entries V → Dict Name V → Dict Name V
    accum prefix empty results = results
    accum prefix (entry key value es) results =
        accum prefix es (flatten_tree (new_prefix prefix key) value results)

  unfoldable pub flatten : Entries V → Dict Name V
  flatten es = accum [] es []
