-- ===== src/Transforms/Rewriter.antt =====
-- core/shark_turbine/transforms/rewriter.py: the erasing of torch operations that nothing uses. The
-- operations are those that are left, each with its number; MLIR raises an error when an operation
-- that has been erased is looked at. The order in which Python goes through a set is a parameter.
pub mod Erasing
use shark_turbine.Common.{
  ℕ, zero, suc, Bool, true, false, not, ◌||◌, List, [], ◌∷◌, ◌++◌, Option, none, some, Name, codes,
  if◌then◌else◌, ◌==◌, contains, nat_key, list_key, nat_beq, length, map, ◌&&◌, ◌+◌,
}
use shark_turbine.Common.Exc.{Exc, assertion_error, runtime_error, Result, ok, err, Exec}
use shark_turbine.Transforms.RenameParameters.{startswith}

-- An operand: a result of an operation, or an argument of a block.
pub data Value : Type 0 where
  op_result : (owner index : ℕ) → Value
  block_argument : ℕ → Value

pub record Operation : Type 0 where
  pub ident : ℕ
  pub op_name : Name
  pub operands : List Value
  pub result_count : ℕ

abbrev pub Graph : Type 0
Graph = List Operation

unfoldable pub get_op : ℕ → Graph → Option Operation
get_op i [] = none
get_op i (op ∷ g) = if i == op.ident then some op else get_op i g

-- op.erase()
unfoldable pub erase : ℕ → Graph → Graph
erase i [] = []
erase i (op ∷ g) = let rest = erase i g in if i == op.ident then rest else op ∷ rest

-- A use of one of the operation's results among operands.
unfoldable pub uses : ℕ → List Value → Bool
uses i [] = false
uses i (op_result owner index ∷ values) = i == owner || uses i values
uses i (block_argument n ∷ values) = uses i values

-- _op_is_live
unfoldable pub op_is_live : ℕ → Graph → Bool
op_is_live i [] = false
op_is_live i (op ∷ g) = uses i op.operands || op_is_live i g

-- _is_erasable_value_op
unfoldable pub is_erasable_value_op : Operation → Bool
is_erasable_value_op op =
    startswith op.op_name (codes "torch.") || startswith op.op_name (codes "torch_c.")

-- worklist.add(owner) for the operands that are results
unfoldable pub add_owners : List Value → List ℕ → List ℕ
add_owners [] worklist = worklist
add_owners (op_result owner index ∷ values) worklist =
    add_owners values (if contains owner worklist then worklist else worklist ++ owner ∷ [])
add_owners (block_argument n ∷ values) worklist = add_owners values worklist

-- What is left of the graph, and the worklist for the next round.
pub record Erasure : Type 0 where
  pub graph : Graph
  pub worklist : List ℕ

-- One operation of a round.
unfoldable pub erase_op : ℕ → Exec Erasure (Unit {0})
erase_op i s = elim (get_op i s.graph) [
  | none ↦ (err runtime_error, s)
  | some op ↦
      if not (is_erasable_value_op op) || op_is_live i s.graph
      then (ok tt, s)
      else (ok tt, record { graph = erase i s.graph; worklist = add_owners op.operands s.worklist })
]

abbrev go_on : Result (Unit {0}) × Erasure → Exec Erasure (Unit {0}) → Result (Unit {0}) × Erasure
go_on (err e, s) k = (err e, s)
go_on (ok _, s) k = k s

-- One turn of the outer loop.
unfoldable pub erase_round : List ℕ → Exec Erasure (Unit {0})
erase_round [] s = (ok tt, s)
erase_round (i ∷ ops) s = go_on (erase_op i s) (erase_round ops)

module _ (arrange : List ℕ → List ℕ) where
  -- The outer loop, with a bound on its turns: none when the bound is met.
  unfoldable pub erase_rounds : ℕ → List ℕ → Graph → Option (Result (Unit {0}) × Graph)
  erase_rounds zero ops g = none
  erase_rounds (suc fuel) [] g = some (ok tt, g)
  erase_rounds (suc fuel) (i ∷ ops) g =
      let out = erase_round (i ∷ ops) (record { graph = g; worklist = [] }) in
      elim out.0 [
        | err e ↦ some (err e, (out.1).graph)
        | ok _ ↦ erase_rounds fuel (arrange (out.1).worklist) (out.1).graph
      ]

  -- erase_unused_op
  unfoldable pub erase_unused_op : (fuel op : ℕ) → Graph → Option (Result (Unit {0}) × Graph)
  erase_unused_op fuel op g = erase_rounds fuel (op ∷ []) g

-- old_result.replace_all_uses_with(new_result)
unfoldable pub replace_value : (owner index : ℕ) → Value → Value → Value
replace_value owner index new (op_result o i) =
    if o == owner && i == index then new else op_result o i
replace_value owner index new (block_argument n) = block_argument n

unfoldable pub replace_uses_with : (owner index : ℕ) → Value → Graph → Graph
replace_uses_with owner index new [] = []
replace_uses_with owner index new (op ∷ g) =
    record op { operands = map (replace_value owner index new) op.operands }
    ∷ replace_uses_with owner index new g

-- The loop over the results, from an index on.
unfoldable pub replace_results : (owner index : ℕ) → List Value → Graph → Graph
replace_results owner index [] g = g
replace_results owner index (new ∷ news) g =
    replace_results owner (index + 1) news (replace_uses_with owner index new g)

-- Pass.replace_op
unfoldable pub replace_op :
    (arrange : List ℕ → List ℕ)
    → (fuel : ℕ) → (old_op : ℕ) → List Value
    → Graph
    → Option (Result (Unit {0}) × Graph)
replace_op arrange fuel old_op new_results g = elim (get_op old_op g) [
  | none ↦ some (err runtime_error, g)
  | some op ↦
      if nat_beq op.result_count (length new_results)
      then erase_unused_op arrange fuel old_op (replace_results old_op 0 new_results g)
      else some (err assertion_error, g)
]
