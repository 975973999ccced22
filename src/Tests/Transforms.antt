-- ===== src/Tests/Transforms.antt =====
-- transforms: the theorems at concrete modules, and runs of the passes.
use shark_turbine.Common.{
  ℕ, inl, ◌≢◌, list_beq_iff, ◌==◌, ◌≤◌, ◌≡◌, refl, true, false, List, [], ◌∷◌, ◌++◌, map, none,
  some, subst, Name, codes, list_key, nat_key, option_key, contains, if◌then◌else◌, arith,
}
use shark_turbine.Common.Exc.{after, ok}
use shark_turbine.Common.Decimal.{show_nat}
use shark_turbine.Common.Fresh.{first_free}
use shark_turbine.Transforms.Merger.{
  Ir, util_global, func_func, is_kind, symbols, get_top_level_ops, IrOp, State,
  is_global_immutable_initialized, candidate, uniqueify_name, new_merger, rename, enter, requested,
  import_symbol_op, alias_of, merge_global, for_each, move_initializer, replace_uses, replace_in_op,
  replace_all, in_order, merge, translate_symbol, index_globals,
}
use shark_turbine.Transforms.Merger.Unique.{uniqueify_name_lem}
use shark_turbine.Transforms.Merger.Symbols.{merge-WellNamed, WellNamed, count}
use shark_turbine.Transforms.Merger.Translate.{MovedOnce, translate_symbol-merge}
use shark_turbine.Transforms.Merger.Uses.{replace_in_op-translate_symbol}
use shark_turbine.Transforms.RenameParameters
use shark_turbine.Transforms.RenameParameters.Renaming.{
  RenamesTo, by_scoped_name, by_name, by_callback, kept, PlainScoped, IsVerbatim, Prints,
  remap-RenamesTo,
}
use shark_turbine.Common.Exc.{runtime_error, err}
use shark_turbine.Transforms.Rewriter.{
  Value, op_result, Operation, Graph, get_op, erase, uses, op_is_live, is_erasable_value_op,
  add_owners, erase_op, erase_round, erase_rounds, erase_unused_op,
}
use shark_turbine.Transforms.Rewriter.Erasing.{Finishes, erase_unused_op-Finishes}

-- Operations whose bodies are the lists of the symbols they use.
abbrev list_ir : Ir
list_ir = record {
  Body = List Name;
  Value = ℕ;
  value_key = nat_key;
  uses = λ b. b;
  replace_all_symbol_uses = λ from to b. map (λ n. if n == from then to else n) b;
  uses-replace = λ from to b. refl;
}

abbrev mutable_global : Name → IrOp list_ir
mutable_global n = record {
  kind = util_global;
  sym_name = n;
  is_mutable = true;
  initial_value = none;
  body = [];
}

abbrev constant : Name → ℕ → IrOp list_ir
constant n v = record {
  kind = util_global;
  sym_name = n;
  is_mutable = false;
  initial_value = some v;
  body = [];
}

abbrev function_using : Name → List Name → IrOp list_ir
function_using n ns = record {
  kind = func_func;
  sym_name = n;
  is_mutable = false;
  initial_value = none;
  body = ns;
}

uniqueify_name_lem_example :
    (full_name : Name) × (uniqueify_name (codes "w") (codes "w" ∷ codes "w$1" ∷ [])
      ≡ some full_name)
    × (contains full_name (codes "w" ∷ codes "w$1" ∷ []) ≡ false)
    × (contains (codes "w") (codes "w" ∷ codes "w$1" ∷ []) ≡ false → full_name ≡ codes "w")
uniqueify_name_lem_example = uniqueify_name_lem (codes "w") (codes "w" ∷ codes "w$1" ∷ [])

uniqueify_test : uniqueify_name (codes "w") (codes "w" ∷ codes "w$1" ∷ []) ≡ some (codes "w$2")
unfolding uniqueify_name candidate first_free show_nat
uniqueify_test = refl

abbrev target : List (IrOp list_ir)
target = mutable_global (codes "n") ∷ []

target-distinct : (n : Name) → count n (symbols target) ≤ 1
unfolding symbols is_kind
target-distinct n = ground arith

abbrev source : List (IrOp list_ir)
source =
    mutable_global (codes "n")
    ∷ constant (codes "k") 7
    ∷ function_using (codes "f") (codes "n" ∷ codes "k" ∷ [])
    ∷ []

merge-WellNamed_example :
    WellNamed list_ir (after (merge list_ir source (new_merger list_ir target [])))
merge-WellNamed_example = merge-WellNamed list_ir source target [] target-distinct

-- The uses that a merge leaves: `n` was renamed, and `k` kept its name.
merge_test :
    map
      (λ op. op.body)
      (after (merge list_ir source (new_merger list_ir target []))).nested_symbol_table_ops
    ≡ (codes "n$1" ∷ codes "k" ∷ []) ∷ []
unfolding merge in_order for_each merge_global move_initializer import_symbol_op replace_all
    replace_in_op replace_uses new_merger index_globals symbols is_kind get_top_level_ops alias_of
    requested enter rename is_global_immutable_initialized uniqueify_name candidate first_free
    show_nat
merge_test = refl

-- Here the source's own `n$1` is renamed too, and the function's use of `n` is taken along.
merge_capture_test :
    map
      (λ op. op.body)
      (after (
        merge list_ir
          (mutable_global (codes "n")
            ∷ mutable_global (codes "n$1")
            ∷ function_using (codes "f") (codes "n" ∷ [])
            ∷ [])
          (new_merger list_ir target []))).nested_symbol_table_ops
    ≡ (codes "n$1$1" ∷ []) ∷ []
unfolding merge in_order for_each merge_global move_initializer import_symbol_op replace_all
    replace_in_op replace_uses new_merger index_globals symbols is_kind get_top_level_ops alias_of
    requested enter rename is_global_immutable_initialized uniqueify_name candidate first_free
    show_nat
merge_capture_test = refl

abbrev merged : State list_ir
merged = record {
  imported_globals = mutable_global (codes "n$1") ∷ [];
  target_ops = target;
  nested_symbol_table_ops = [];
  target_symbol_table = codes "n" ∷ codes "n$1" ∷ [];
  user_rename_map = [];
  rename_map = (codes "n", codes "n$1") ∷ (codes "c", codes "d") ∷ [];
  initialized_globals = [];
}

replace_in_op-translate_symbol_example :
    (replace_in_op list_ir merged.rename_map
      (function_using (codes "f") (codes "n" ∷ codes "k" ∷ codes "c" ∷ []))).body
    ≡ map (translate_symbol list_ir merged) (codes "n" ∷ codes "k" ∷ codes "c" ∷ [])
replace_in_op-translate_symbol_example =
    replace_in_op-translate_symbol list_ir merged
      (function_using (codes "f") (codes "n" ∷ codes "k" ∷ codes "c" ∷ [])) (refl, (refl, tt))

-- Attributes that are their text.
abbrev text_ir : RenameParameters.Ir
text_ir = record {
  Attr = Name;
  attr_key = list_key;
  str = λ a. a;
  parse = λ t. t;
  type_of = λ a. codes "tensor<4xf32>";
  string_attr = λ n. RenameParameters.quote ∷ (n ++ RenameParameters.quote ∷ []);
  is_parameter_attr = λ a. true;
}

text_prints : Prints text_ir
text_prints = record { string_attr_plain = λ n h. refl; str-parse = λ a r h. refl }

abbrev renames : RenameParameters.Renames
renames = record {
  rename_map = (RenameParameters.plain (codes "a"), RenameParameters.plain (codes "b")) ∷ [];
  rename_callback = λ s n. none;
}

abbrev attr_a : Name
attr_a = codes "#stream.parameter.named<\"s\"::\"a\"> : tensor<4xf32>"

parse_test : RenameParameters.parse_parameter_attr attr_a ≡ some (some (codes "s"), codes "a")
unfolding RenameParameters.parse_parameter_attr RenameParameters.startswith
    RenameParameters.match_str RenameParameters.until_quote RenameParameters.parse_rest
parse_test = refl

verbatim : (c : ℕ) → 93 ≤ c → c ≤ 126 → IsVerbatim c
verbatim c h k = (omega arith, k, λ e. omega arith, λ e. omega arith)

renames-PlainScoped :
    (r : RenameParameters.ScopedName)
    → RenamesTo renames (some (codes "s")) (codes "a") r
    → PlainScoped r
unfolding RenameParameters.norm_map_result
renames-PlainScoped _ (by_scoped_name e) = absurd (cc)
renames-PlainScoped _ (by_name {r} _ e) =
    let to_b : RenameParameters.plain (codes "b") ≡ r = cc in
    subst (λ t. PlainScoped (RenameParameters.norm_map_result (some (codes "s")) t)) to_b
      (
        (verbatim 115 (omega arith) (omega arith), tt),
        (verbatim 98 (omega arith) (omega arith), tt),
      )
renames-PlainScoped _ (by_callback _ e _) = absurd (cc)
renames-PlainScoped _ (kept _ e _) = absurd (cc)

remap-RenamesTo_example :
    (r : RenameParameters.ScopedName) × RenamesTo renames (some (codes "s")) (codes "a") r
    × (RenameParameters.parse_parameter_attr (RenameParameters.remap text_ir renames attr_a)
        ≡ some r)
remap-RenamesTo_example =
    remap-RenamesTo text_ir text_prints renames attr_a (some (codes "s")) (codes "a") parse_test
      renames-PlainScoped

abbrev after_merge : State list_ir
after_merge = after (merge list_ir source (new_merger list_ir target []))

after_merge-ok : merge list_ir source (new_merger list_ir target []) ≡ (ok tt, after_merge)
unfolding merge in_order for_each merge_global move_initializer import_symbol_op replace_all
    new_merger index_globals symbols is_kind get_top_level_ops alias_of requested enter rename
    is_global_immutable_initialized uniqueify_name candidate first_free show_nat
after_merge-ok = refl

differ : (a b : Name) → (a == b) ≡ false → a ≢ b
differ a b e h = ground (arith, e, list_beq_iff a b, h)

source-MovedOnce : MovedOnce list_ir (codes "n") source
unfolding get_top_level_ops is_kind
source-MovedOnce = inl (
  inl (refl, (differ (codes "n") (codes "k") refl, tt)),
  (differ (codes "n") (codes "f") refl, tt),
)

translate_symbol-merge_example :
    contains (translate_symbol list_ir after_merge (codes "n")) after_merge.target_symbol_table
    ≡ true
translate_symbol-merge_example =
    translate_symbol-merge list_ir source target [] after_merge (codes "n") source-MovedOnce
      after_merge-ok

-- Torch operations: 1 uses 2 and 3, and 2 uses 3; then 4, which is no torch operation, uses 5.
abbrev torch_op : ℕ → List Value → Operation
torch_op i values = record {
  ident = i;
  op_name = codes "torch.op";
  operands = values;
  result_count = 1;
}

abbrev used_graph : Graph
used_graph =
    torch_op 1 (op_result 2 0 ∷ [])
    ∷ torch_op 2 (op_result 5 0 ∷ [])
    ∷ torch_op 5 []
    ∷ record {
      ident = 4;
      op_name = codes "func.return";
      operands = op_result 5 0 ∷ [];
      result_count = 0;
    }
    ∷ []

erase_unused_op_test :
    erase_unused_op (λ ops. ops) 6 1 used_graph
    ≡ some (
      ok tt,
      torch_op 5 []
          ∷ record {
            ident = 4;
            op_name = codes "func.return";
            operands = op_result 5 0 ∷ [];
            result_count = 0;
          }
          ∷ [],
    )
unfolding erase_unused_op erase_rounds erase_round erase_op get_op erase uses op_is_live
    is_erasable_value_op add_owners RenameParameters.startswith
erase_unused_op_test = refl

-- An operation that stands in the worklist of a round and of the next is erased in the first.
abbrev shared_graph : Graph
shared_graph =
    torch_op 1 (op_result 2 0 ∷ op_result 3 0 ∷ [])
    ∷ torch_op 2 (op_result 3 0 ∷ [])
    ∷ torch_op 3 []
    ∷ []

erase_twice_test : erase_unused_op (λ ops. ops) 5 1 shared_graph ≡ some (err runtime_error, [])
unfolding erase_unused_op erase_rounds erase_round erase_op get_op erase uses op_is_live
    is_erasable_value_op add_owners RenameParameters.startswith
erase_twice_test = refl

erase_unused_op-Finishes_example :
    Finishes shared_graph (erase_unused_op (λ ops. ops) 5 1 shared_graph)
erase_unused_op-Finishes_example = erase_unused_op-Finishes (λ ops. ops) refl 1 shared_graph
