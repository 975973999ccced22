-- ===== src/Transforms/Merger/Symbols.antt =====
-- transforms/merger.py: the symbols of the target during a merge. Names are counted, so that a
-- symbol that two operations have counts twice.
use shark_turbine.Common.{
  ℕ, suc, ◌+◌, ◌≤◌, ◌≡◌, refl, ap, sym, ◌∙◌, Bool, true, false, ◌==◌, List, [], ◌∷◌, ◌++◌, Name,
  arith, contains, list_key, nat_key, inl, inr, Bool-cases, ◌⊎◌, if◌then◌else◌, map, subst,
}
use shark_turbine.Common.Exc.{after}
use shark_turbine.Common.Dict.{Dict}
use shark_turbine.Transforms.Merger.{
  Ir, Kind, util_global, util_initializer, func_func, is_kind, has_symbol, Op, symbols,
  get_top_level_ops, IrOp, State, new_merger, rename, enter, import_symbol_op, merge_global,
  for_each, move_initializer, replace_in_op, replace_all, merge,
}
use shark_turbine.Transforms.Merger.Loops.{
  import_symbol_op-cases, merge_global-cases, for_each-keeps, in_order-keeps, get_top_level_ops-All,
}

abbrev pub count : Name → List Name → ℕ
count n [] = 0
count n (m ∷ ms) = let rest = count n ms in if n == m then suc rest else rest

pub count-append : (n : Name) (xs ys : List Name) → count n (xs ++ ys) ≡ count n xs + count n ys
count-append n [] ys = omega arith
count-append n (x ∷ xs) ys = ground (arith, count-append n xs ys)

pub count-contains : (n : Name) (xs : List Name) → contains n xs ≡ false → count n xs ≡ 0
count-contains n [] h = refl
count-contains n (x ∷ xs) h = ground (arith, count-contains n xs)

symbols-append :
    {B V : Type 0} (n : Name) (xs ys : List (Op B V))
    → count n (symbols (xs ++ ys)) ≡ count n (symbols xs) + count n (symbols ys)
unfolding symbols
symbols-append n [] ys = omega arith
symbols-append n (x ∷ xs) ys = ground (arith, symbols-append n xs ys)

Name-same : (m n : Name) → (m == n) ≡ true → m ≡ n
Name-same m n h = (list_key.same_iff m n).0 h

symbols-add :
    {B V : Type 0} (n : Name) (op : Op B V) (name : Name) (ops : List (Op B V))
    → has_symbol op.kind ≡ true
    → count n (symbols (ops ++ record op { sym_name = name } ∷ []))
      ≡ count n (symbols ops) + count n (name ∷ [])
unfolding symbols
symbols-add n op name ops k = rw (symbols-append n ops (record op { sym_name = name } ∷ []), k)

count-fresh :
    (n name : Name) (xs : List Name)
    → contains name xs ≡ false
    → count n (name ∷ []) ≡ 0 ⊎ (count n (name ∷ []) ≡ 1 × count n xs ≡ 0)
count-fresh n name xs free = elim (Bool-cases (n == name)) [
  | inl e ↦ inr (rw e, count-contains n xs (rw (Name-same n name e) free))
  | inr e ↦ inl (rw e)
]

module _ (ir : Ir) where
  open ir use {Body, Value, value_key, replace_all_symbol_uses}

  abbrev pub occurrences : Name → State ir → ℕ
  occurrences n m =
      count n (symbols m.imported_globals)
      + count n (symbols m.target_ops)
      + count n (symbols m.nested_symbol_table_ops)

  -- The symbol table lists the symbols of the target's operations, and no symbol stands twice.
  pub record WellNamed (m : State ir) : Type 0 where
    pub counts :
        (n : Name)
        → (occurrences n m ≡ count n m.target_symbol_table) × (count n m.target_symbol_table ≤ 1)

  table-rename :
      (from to : Name) (m : State ir)
      → (rename ir from to m).target_symbol_table ≡ m.target_symbol_table
  unfolding rename
  table-rename from to m = elim (Bool-cases (from == to)) [ inl e ↦ rw e | inr e ↦ rw e ]

  WellNamed-rename : (from to : Name) (m : State ir) → WellNamed m → WellNamed (rename ir from to m)
  unfolding rename
  WellNamed-rename from to m h = record {
    counts = λ n. elim (Bool-cases (from == to)) [
      | inl e ↦ rw e (h.counts n)
      | inr e ↦ rw e (h.counts n)
    ];
  }

  WellNamed-enter :
      (append : Bool) (op : IrOp ir) (name : Name) (m : State ir)
      → has_symbol op.kind ≡ true
      → contains name m.target_symbol_table ≡ false
      → WellNamed m
      → WellNamed (enter ir append op name m)
  unfolding enter
  WellNamed-enter true op name m k free h = record {
    counts = λ n.
        rw
          (
            symbols-add n op name m.nested_symbol_table_ops k,
            count-append n m.target_symbol_table (name ∷ []),
          )
          (ground (arith, h.counts n, count-fresh n name m.target_symbol_table free));
  }
  WellNamed-enter false op name m k free h = record {
    counts = λ n.
        rw
          (
            symbols-add n op name m.imported_globals k,
            count-append n m.target_symbol_table (name ∷ []),
          )
          (ground (arith, h.counts n, count-fresh n name m.target_symbol_table free));
  }

  WellNamed-import_symbol_op :
      (append : Bool) (op : IrOp ir) (m : State ir)
      → has_symbol op.kind ≡ true
      → WellNamed m
      → WellNamed (after (import_symbol_op ir append op m))
  WellNamed-import_symbol_op append op m k h = elim (import_symbol_op-cases ir append op m) [
    | inl e ↦ subst (λ r. WellNamed (after r)) (sym e) h
    | inr (name, free, e) ↦
        subst (λ r. WellNamed (after r)) (sym e)
          (WellNamed-enter append op name (rename ir op.sym_name name m) k
            (rw (table-rename op.sym_name name m) free) (WellNamed-rename op.sym_name name m h))
  ]

  WellNamed-merge_global :
      (op : IrOp ir) (m : State ir)
      → has_symbol op.kind ≡ true
      → WellNamed m
      → WellNamed (after (merge_global ir op m))
  WellNamed-merge_global op m k h = elim (merge_global-cases ir op m) [
    | inl e ↦ subst (λ r. WellNamed (after r)) (sym e) (WellNamed-import_symbol_op false op m k h)
    | inr (to, _, e) ↦
        subst (λ r. WellNamed (after r)) (sym e) (WellNamed-rename op.sym_name to m h)
  ]

  WellNamed-move_initializer :
      (op : IrOp ir) (m : State ir)
      → op.kind ≡ util_initializer
      → WellNamed m
      → WellNamed (after (move_initializer ir op m))
  unfolding move_initializer symbols
  WellNamed-move_initializer op m k h = record {
    counts = λ n.
        rw (symbols-append n m.nested_symbol_table_ops (op ∷ []), k) (ground (arith, h.counts n));
  }

  symbols-replace :
      (renames : Dict Name Name) (ops : List (IrOp ir))
      → symbols (map (replace_in_op ir renames) ops) ≡ symbols ops
  unfolding symbols replace_in_op
  symbols-replace renames [] = refl
  symbols-replace renames (op ∷ ops) = rw (symbols-replace renames ops)

  WellNamed-replace_all : (m : State ir) → WellNamed m → WellNamed (after (replace_all ir m))
  unfolding replace_all
  WellNamed-replace_all m h = record {
    counts = λ n. rw (symbols-replace m.rename_map m.nested_symbol_table_ops) (h.counts n);
  }

  is_kind_iff : (j k : Kind) → is_kind j k ≡ true → j ≡ k
  unfolding is_kind
  is_kind_iff util_global util_global h = refl
  is_kind_iff util_initializer util_initializer h = refl
  is_kind_iff func_func func_func h = refl
  is_kind_iff _ _ h = cc

  has_symbol-is_kind :
      (op : IrOp ir) (k : Kind)
      → is_kind op.kind k ≡ true
      → has_symbol k ≡ true
      → has_symbol op.kind ≡ true
  has_symbol-is_kind op k h e = ap has_symbol (is_kind_iff op.kind k h) ∙ e

  -- Whatever the source module and the requested renames, and whether the merge raises or not, if
  -- no symbol stands twice in the target before, then none does after, and the symbol table lists
  -- the symbols of the target's operations, each as often as it stands there.
  pub merge-WellNamed :
      (source target : List (IrOp ir)) (renames : Dict Name Name)
      → ((n : Name) → count n (symbols target) ≤ 1)
      → WellNamed (after (merge ir source (new_merger ir target renames)))
  unfolding merge new_merger symbols
  merge-WellNamed source target renames h =
      in_order-keeps ir WellNamed
        (for_each ir (merge_global ir) (get_top_level_ops source util_global)
          ∷ for_each ir (move_initializer ir) (get_top_level_ops source util_initializer)
          ∷ for_each ir (import_symbol_op ir true) (get_top_level_ops source func_func)
          ∷ replace_all ir
          ∷ [])
        (
          for_each-keeps ir WellNamed (merge_global ir) _ (
              get_top_level_ops-All ir _ source util_global
                λ op k m. WellNamed-merge_global op m (has_symbol-is_kind op util_global k refl)),
          (
            for_each-keeps ir WellNamed (move_initializer ir) _ (
                get_top_level_ops-All ir _ source util_initializer λ op k m.
                  WellNamed-move_initializer op m (is_kind_iff op.kind util_initializer k)),
            (
              for_each-keeps ir WellNamed (import_symbol_op ir true) _ (
                  get_top_level_ops-All ir _ source func_func λ op k m.
                    WellNamed-import_symbol_op true op m (has_symbol-is_kind op func_func k refl)),
              (WellNamed-replace_all, tt),
            ),
          ),
        )
        (new_merger ir target renames) (record { counts = λ n. (omega arith, h n) })
