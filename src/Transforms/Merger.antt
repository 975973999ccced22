-- ===== src/Transforms/Merger.antt =====
-- core/shark_turbine/transforms/merger.py: merging the contents of one module into another. A
-- top-level operation is its name, its symbol, the two attributes that the merge reads, and a body.
-- Bodies and attribute values are MLIR's, and enter as an interface; a symbol table is the list of
-- the symbols in it.
pub mod Unique
pub mod Loops
pub mod Symbols
pub mod Uses
pub mod Steps
pub mod Translate
use shark_turbine.Common.{
  ℕ, zero, suc, ◌+◌, ◌≡◌, Bool, true, false, not, ◌&&◌, ◌||◌, ◌==◌, List, [], ◌∷◌, ◌++◌, map,
  Option, none, some, Name, codes, length, Key, list_key, nat_key, contains, if◌then◌else◌,
}
use shark_turbine.Common.Exc.{Result, Exec, ok, err, value_error}
use shark_turbine.Common.Dict.{Dict, lookup, insert}
use shark_turbine.Common.Decimal.{show_nat}
use shark_turbine.Common.Fresh.{first_free}

-- What MLIR does for the merger: the symbols that an operation's body refers to, and
-- SymbolTable.replace_all_symbol_uses, which replaces one symbol by another wherever it is used.
pub record Ir : Type 1 where
  pub Body : Type 0
  pub Value : Type 0
  pub value_key : Key Value
  pub uses : Body → List Name
  pub replace_all_symbol_uses : Name → Name → Body → Body
  pub uses-replace :
      (from to : Name) (b : Body)
      → uses (replace_all_symbol_uses from to b) ≡ map (λ n. if n == from then to else n) (uses b)

-- The operations' names that the merger tells apart; of the others, some have a symbol.
pub data Kind : Type 0 where
  util_global util_initializer func_func other_symbol_op other_op : Kind

pub record Op (B V : Type 0) : Type 0 where
  pub kind : Kind
  pub sym_name : Name
  pub is_mutable : Bool
  pub initial_value : Option V
  pub body : B

unfoldable pub is_kind : Kind → Kind → Bool
is_kind util_global util_global = true
is_kind util_initializer util_initializer = true
is_kind func_func func_func = true
is_kind _ _ = false

abbrev pub has_symbol : Kind → Bool
has_symbol util_global = true
has_symbol util_initializer = false
has_symbol func_func = true
has_symbol other_symbol_op = true
has_symbol other_op = false

module _ {B V : Type 0} where
  -- The symbols of a symbol table.
  unfoldable pub symbols : List (Op B V) → List Name
  symbols [] = []
  symbols (op ∷ ops) =
      let rest = symbols ops in if has_symbol op.kind then op.sym_name ∷ rest else rest

  unfoldable pub get_top_level_ops : List (Op B V) → Kind → List (Op B V)
  get_top_level_ops [] kind = []
  get_top_level_ops (op ∷ ops) kind =
      let rest = get_top_level_ops ops kind in if is_kind op.kind kind then op ∷ rest else rest

  unfoldable pub is_global_immutable_initialized : Op B V → Bool
  is_global_immutable_initialized op =
      not op.is_mutable && elim op.initial_value [ none ↦ false | some _ ↦ true ]

-- The name that is tried in a round of `uniqueify_name`: the name itself, then name$1, name$2, …
unfoldable pub candidate : Name → ℕ → Name
candidate local_name zero = local_name
candidate local_name (suc i) = local_name ++ (codes "$" ++ show_nat (suc i))

-- One more round than there are symbols.
unfoldable pub uniqueify_name : Name → List Name → Option Name
unfolding candidate
uniqueify_name local_name st = first_free (candidate local_name) (suc (length st)) st 0

-- The merger's state. The target's body is what was imported at its top, what it had, and what was
-- appended to it; the appended operations are those of `_nested_symbol_table_ops`, in order.
pub record Merger (B V : Type 0) : Type 0 where
  pub imported_globals : List (Op B V)
  pub target_ops : List (Op B V)
  pub nested_symbol_table_ops : List (Op B V)
  pub target_symbol_table : List Name
  pub user_rename_map : Dict Name Name
  pub rename_map : Dict Name Name
  pub initialized_globals : Dict V Name

module _ (ir : Ir) where
  open ir use {Body, Value, value_key, replace_all_symbol_uses}

  abbrev pub IrOp : Type 0
  IrOp = Op Body Value

  abbrev pub State : Type 0
  State = Merger Body Value

  -- The loop of the constructor over the target's globals.
  unfoldable pub index_globals : List IrOp → Dict Value Name → Dict Value Name
  index_globals [] d = d
  index_globals (op ∷ ops) d = index_globals ops (elim op.initial_value [
    | none ↦ d
    | some v ↦
        if is_global_immutable_initialized op then insert ⦃e = value_key⦄ v op.sym_name d else d
  ])

  -- Merger.__init__
  unfoldable pub new_merger : List IrOp → Dict Name Name → State
  new_merger target user_rename_map = record {
    imported_globals = [];
    target_ops = target;
    nested_symbol_table_ops = [];
    target_symbol_table = symbols target;
    user_rename_map = user_rename_map;
    rename_map = [];
    initialized_globals = index_globals (get_top_level_ops target util_global) [];
  }

  -- Merger._rename
  unfoldable pub rename : Name → Name → State → State
  rename from_symbol to_symbol m =
      if from_symbol == to_symbol
      then m
      else record m { rename_map = insert from_symbol to_symbol m.rename_map }

  -- The end of `_import_symbol_op`: the operation enters the target under its new name.
  unfoldable pub enter : Bool → IrOp → Name → State → State
  enter append op name m =
      let op' : IrOp = record op { sym_name = name } in
      let m' : State = record m { target_symbol_table = m.target_symbol_table ++ name ∷ [] } in
      if append
      then record m' { nested_symbol_table_ops = m.nested_symbol_table_ops ++ op' ∷ [] }
      else record m' { imported_globals = m.imported_globals ++ op' ∷ [] }

  -- `self.user_rename_map.get(name)`, where an empty name counts as absent
  unfoldable pub requested : Name → State → Option Name
  requested name m = elim (lookup name m.user_rename_map) [
    | none ↦ none
    | some r ↦ if r == [] then none else some r
  ]

  -- Merger._import_symbol_op
  unfoldable pub import_symbol_op : Bool → IrOp → Exec State (Unit {0})
  import_symbol_op append op m = elim (requested op.sym_name m) [
    | some name ↦
        if contains name m.target_symbol_table
        then (err value_error, m)
        else (ok tt, enter append op name (rename op.sym_name name m))
    | none ↦ elim (uniqueify_name op.sym_name m.target_symbol_table) [
      | none ↦ (ok tt, m)
      | some name ↦ (ok tt, enter append op name (rename op.sym_name name m))
    ]
  ]

  -- The target's global that a source global is merged with, if there is one.
  unfoldable pub alias_of : IrOp → State → Option Name
  alias_of op m =
      if is_global_immutable_initialized op
      then elim op.initial_value [
        | none ↦ none
        | some v ↦ lookup ⦃e = value_key⦄ v m.initialized_globals
      ]
      else none

  unfoldable pub merge_global : IrOp → Exec State (Unit {0})
  merge_global op m = elim (alias_of op m) [
    | none ↦ import_symbol_op false op m
    | some alias_to ↦ (ok tt, rename op.sym_name alias_to m)
  ]

  abbrev then_do : Result (Unit {0}) × State → Exec State (Unit {0}) → Result (Unit {0}) × State
  then_do (err e, m) k = (err e, m)
  then_do (ok _, m) k = k m

  unfoldable pub for_each : (IrOp → Exec State (Unit {0})) → List IrOp → Exec State (Unit {0})
  for_each body [] m = (ok tt, m)
  for_each body (op ∷ ops) m = then_do (body op m) (for_each body ops)

  unfoldable pub move_initializer : IrOp → Exec State (Unit {0})
  move_initializer op m =
      (ok tt, record m { nested_symbol_table_ops = m.nested_symbol_table_ops ++ op ∷ [] })

  -- The inner loop over the rename map, and the loop over the operations that were moved.
  unfoldable pub replace_uses : Dict Name Name → Body → Body
  replace_uses [] b = b
  replace_uses ((from, to) ∷ renames) b = replace_uses renames (replace_all_symbol_uses from to b)

  unfoldable pub replace_in_op : Dict Name Name → IrOp → IrOp
  replace_in_op renames op = record op { body = replace_uses renames op.body }

  unfoldable pub replace_all : Exec State (Unit {0})
  replace_all m = (
    ok tt,
    record m {
      nested_symbol_table_ops = map (replace_in_op m.rename_map) m.nested_symbol_table_ops;
    },
  )

  unfoldable pub in_order : List (Exec State (Unit {0})) → Exec State (Unit {0})
  in_order [] m = (ok tt, m)
  in_order (part ∷ parts) m = then_do (part m) (in_order parts)

  -- Merger.merge
  unfoldable pub merge : List IrOp → Exec State (Unit {0})
  merge source = in_order (
      for_each merge_global (get_top_level_ops source util_global)
      ∷ for_each move_initializer (get_top_level_ops source util_initializer)
      ∷ for_each (import_symbol_op true) (get_top_level_ops source func_func)
      ∷ replace_all
      ∷ [])

  -- Merger.translate_symbol
  unfoldable pub translate_symbol : State → Name → Name
  translate_symbol m name = elim (lookup name m.rename_map) [ none ↦ name | some to ↦ to ]
