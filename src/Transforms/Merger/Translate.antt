-- ===== src/Transforms/Merger/Translate.antt =====
-- transforms/merger.py: what `translate_symbol` answers after a merge.
use shark_turbine.Common.{
  ◌≡◌, refl, sym, ◌∙◌, true, List, [], ◌∷◌, none, some, ◌≢◌, Name, arith, contains, list_key,
  nat_key, inl, inr, Bool-cases, Option-cases, All, ◌⊎◌, if◌then◌else◌, subst, eq_self,
}
use shark_turbine.Common.Exc.{ok, after}
use shark_turbine.Common.Dict.{Dict, lookup, insert, lookup-insert}
use shark_turbine.Transforms.Merger.{
  Ir, Kind, util_global, util_initializer, func_func, other_symbol_op, other_op, is_kind,
  has_symbol, symbols, get_top_level_ops, IrOp, State, new_merger, index_globals, import_symbol_op,
  merge_global, for_each, move_initializer, replace_all, in_order, merge, translate_symbol,
  is_global_immutable_initialized,
}
use shark_turbine.Transforms.Merger.Loops.{for_each-keeps, in_order-keeps, get_top_level_ops-All}
use shark_turbine.Transforms.Merger.Steps.{
  Absent, Present, Extends, Absent-Extends, Present-Extends, Extends-import_symbol_op,
  Extends-merge_global, OkPresent, OkPresent-then, OkPresent-next, Present-import_symbol_op,
  Present-merge_global, Once, Absent-for_each, Present-for_each, OkPresent-for_each,
}

module _ (ir : Ir) where
  open ir use {Value, value_key}

  abbrev KnownIn : List Name → Dict Value Name → Type 0
  KnownIn T d = (v : Value) (n : Name) → lookup ⦃e = value_key⦄ v d ≡ some n → contains n T ≡ true

  KnownIn-insert :
      (T : List Name) (v : Value) (name : Name) (d : Dict Value Name)
      → contains name T ≡ true
      → KnownIn T d
      → KnownIn T (insert ⦃e = value_key⦄ v name d)
  KnownIn-insert T v name d c h w n e = elim (Bool-cases (value_key.same w v)) [
    | inl same ↦
        let is_n : some name ≡ some n =
          sym (lookup-insert ⦃e = value_key⦄ v w name d ∙ rw same refl) ∙ e in
        subst (λ k. contains k T ≡ true) (name_injective name n is_n) c
    | inr other ↦ h w n (sym (lookup-insert ⦃e = value_key⦄ v w name d ∙ rw other refl) ∙ e)
  ]
    where
      name_injective : (a b : Name) → some a ≡ some b → a ≡ b
      name_injective a b h = cc

  index_entry :
      (T : List Name) (op : IrOp ir) (d : Dict Value Name)
      → contains op.sym_name T ≡ true
      → KnownIn T d
      → KnownIn T (elim op.initial_value [
        | none ↦ d
        | some v ↦
            if is_global_immutable_initialized op then insert ⦃e = value_key⦄ v op.sym_name d else d
      ])
  index_entry T op d c h w n = elim (Option-cases op.initial_value) [
    | inl e ↦ rw e (h w n)
    | inr (v, e) ↦ elim (Bool-cases (is_global_immutable_initialized op)) [
      | inl f ↦ rw (e, f) (KnownIn-insert T v op.sym_name d c h w n)
      | inr f ↦ rw (e, f) (h w n)
    ]
  ]

  KnownIn-index_globals :
      (T : List Name) (ops : List (IrOp ir)) (d : Dict Value Name)
      → All (λ op. contains op.sym_name T ≡ true) ops
      → KnownIn T d
      → KnownIn T (index_globals ir ops d)
  unfolding index_globals
  KnownIn-index_globals T [] d c h = h
  KnownIn-index_globals T (op ∷ ops) d c h =
      KnownIn-index_globals T ops _ c.1 (index_entry T op d c.0 h)

  global-has_symbol : (k : Kind) → is_kind k util_global ≡ true → has_symbol k ≡ true
  unfolding is_kind
  global-has_symbol util_global h = refl
  global-has_symbol func_func h = refl
  global-has_symbol other_symbol_op h = refl
  global-has_symbol util_initializer h = absurd (cc)
  global-has_symbol other_op h = absurd (cc)

  globals_in :
      (T : List Name) (ops : List (IrOp ir))
      → ((k : Name) → contains k (symbols ops) ≡ true → contains k T ≡ true)
      → All (λ op. contains op.sym_name T ≡ true) (get_top_level_ops ops util_global)
  unfolding symbols get_top_level_ops
  globals_in T [] h = tt
  globals_in T (op ∷ ops) h = elim (Bool-cases (is_kind op.kind util_global)) [
    | inl e ↦ rw e (
      h op.sym_name (rw (global-has_symbol op.kind e, eq_self op.sym_name) refl),
      globals_in T ops (λ k c. h k (rw (global-has_symbol op.kind e) (ground (arith, c)))),
    )
    | inr e ↦ rw e (globals_in T ops (λ k c. h k (ground (arith, c))))
  ]

  Absent-new_merger :
      (n : Name) (target : List (IrOp ir)) (renames : Dict Name Name)
      → Absent ir n (new_merger ir target renames)
  unfolding new_merger
  Absent-new_merger n target renames = record {
    known =
        KnownIn-index_globals (symbols target) (get_top_level_ops target util_global) []
          (globals_in (symbols target) target (λ k c. c)) (λ v n e. absurd (cc));
    absent = refl;
  }

  -- The operations of a module that the merge moves under their symbols have the symbol once.
  abbrev pub MovedOnce : Name → List (IrOp ir) → Type 0
  MovedOnce n source =
      (Once ir n (get_top_level_ops source util_global)
        × All (λ o. n ≢ o.sym_name) (get_top_level_ops source func_func))
      ⊎ (All (λ o. n ≢ o.sym_name) (get_top_level_ops source util_global)
          × Once ir n (get_top_level_ops source func_func))

  Extends-replace_all : (n : Name) (m : State ir) → Extends ir n m (after (replace_all ir m))
  unfolding replace_all
  Extends-replace_all n m = record { same_globals = refl; grows = λ k h. h; same_lookup = refl }

  Extends-move_initializer :
      (n : Name) (op : IrOp ir) (m : State ir) → Extends ir n m (after (move_initializer ir op m))
  unfolding move_initializer
  Extends-move_initializer n op m = record {
    same_globals = refl;
    grows = λ k h. h;
    same_lookup = refl;
  }

  -- The loop over initializers and what comes behind the functions keep a property of the state
  -- that extensions keep.
  initializers-keep :
      (n : Name) (P : State ir → Type 0)
      → ((m m' : State ir) → Extends ir n m m' → P m → P m')
      → (source : List (IrOp ir)) (m : State ir) → P m
      → P (after (for_each ir (move_initializer ir) (get_top_level_ops source util_initializer) m))
  initializers-keep n P f source =
      for_each-keeps ir P (move_initializer ir) (get_top_level_ops source util_initializer) (
        get_top_level_ops-All ir _ source util_initializer
          λ op k m. f m _ (Extends-move_initializer n op m))

  import_self :
      (n : Name) (op : IrOp ir) (m : State ir)
      → op.sym_name ≡ n
      → Absent ir n m
      → OkPresent ir n (import_symbol_op ir true op m)
  import_self n op m e h =
      subst (λ n. OkPresent ir n (import_symbol_op ir true op m)) e
        (Present-import_symbol_op ir true op m (subst (λ n. Absent ir n m) (sym e) h))

  global_self :
      (n : Name) (op : IrOp ir) (m : State ir)
      → op.sym_name ≡ n
      → Absent ir n m
      → OkPresent ir n (merge_global ir op m)
  global_self n op m e h =
      subst (λ n. OkPresent ir n (merge_global ir op m)) e
        (Present-merge_global ir op m (subst (λ n. Absent ir n m) (sym e) h))

  OkPresent-merge :
      (source : List (IrOp ir)) (m : State ir) (n : Name)
      → MovedOnce n source
      → Absent ir n m
      → OkPresent ir n (merge ir source m)
  unfolding merge in_order replace_all
  OkPresent-merge source m n (inl (once, ne)) h =
      OkPresent-then ir n (for_each ir (merge_global ir) (get_top_level_ops source util_global) m) _
        (OkPresent-for_each ir n (merge_global ir) (Extends-merge_global ir n) (global_self n)
          (get_top_level_ops source util_global) m once h)
        λ m1 h1.
          in_order-keeps ir (Present ir n)
            (for_each ir (move_initializer ir) (get_top_level_ops source util_initializer)
              ∷ for_each ir (import_symbol_op ir true) (get_top_level_ops source func_func)
              ∷ replace_all ir
              ∷ [])
            (
              initializers-keep n (Present ir n) (Present-Extends ir n) source,
              (
                λ m2 h2.
                    Present-for_each ir n (import_symbol_op ir true)
                      (Extends-import_symbol_op ir n true) (get_top_level_ops source func_func) m2
                      ne h2,
                (λ m3 h3. Present-Extends ir n m3 _ (Extends-replace_all n m3) h3, tt),
              ),
            )
            m1 h1
  OkPresent-merge source m n (inr (ne, once)) h =
      OkPresent-next ir n (for_each ir (merge_global ir) (get_top_level_ops source util_global) m) _
        (Absent-for_each ir n (merge_global ir) (Extends-merge_global ir n)
          (get_top_level_ops source util_global) m ne h)
        λ m1 h1.
          OkPresent-next ir n
            (for_each ir (move_initializer ir) (get_top_level_ops source util_initializer) m1) _
            (initializers-keep n (Absent ir n) (Absent-Extends ir n) source m1 h1)
            λ m2 h2.
              OkPresent-then ir n
                (for_each ir (import_symbol_op ir true) (get_top_level_ops source func_func) m2) _
                (OkPresent-for_each ir n (import_symbol_op ir true)
                  (Extends-import_symbol_op ir n true) (import_self n)
                  (get_top_level_ops source func_func) m2 once h2)
                λ m3 h3. Present-Extends ir n m3 _ (Extends-replace_all n m3) h3

  -- After a merge that raised nothing, whatever the renames that were requested, each name that
  -- one global or function of the source alone has as its symbol is translated to a symbol of the
  -- target.
  pub translate_symbol-merge :
      (source target : List (IrOp ir)) (renames : Dict Name Name) (m : State ir) (n : Name)
      → MovedOnce n source
      → merge ir source (new_merger ir target renames) ≡ (ok tt, m)
      → contains (translate_symbol ir m n) m.target_symbol_table ≡ true
  translate_symbol-merge source target renames m n once e =
      let p : OkPresent ir n (ok tt, m) = subst (OkPresent ir n) e (
        OkPresent-merge source (new_merger ir target renames) n once
          (Absent-new_merger n target renames)) in
      p.present
