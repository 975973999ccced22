-- ===== src/Transforms/Merger/Loops.antt =====
-- transforms/merger.py: the steps and loops of a merge, by cases and by what they keep.
use shark_turbine.Common.{
  ◌≡◌, Bool, true, false, List, [], ◌∷◌, some, Name, contains, list_key, nat_key, inl, inr,
  Bool-cases, Option-cases, All, ◌⊎◌,
}
use shark_turbine.Common.Exc.{Result, Exec, ok, err, value_error, after}
use shark_turbine.Transforms.Merger.{
  Ir, Kind, is_kind, get_top_level_ops, IrOp, State, rename, enter, requested, import_symbol_op,
  alias_of, merge_global, then_do, for_each, in_order,
}
use shark_turbine.Transforms.Merger.Unique.{uniqueify_name_lem}

module _ (ir : Ir) where
  pub after-then :
      (P : State ir → Type 0) (r : Result (Unit {0}) × State ir) (k : Exec (State ir) (Unit {0}))
      → P (after r)
      → ((m : State ir) → P m → P (after (k m)))
      → P (after (then_do ir r k))
  after-then P (ok tt, m) k h f = f m h
  after-then P (err e, m) k h f = h

  -- An import raises and changes nothing, or enters the operation under a free name.
  pub import_symbol_op-cases :
      (append : Bool) (op : IrOp ir) (m : State ir)
      → (import_symbol_op ir append op m ≡ (err value_error, m))
        ⊎ ((name : Name) × (contains name m.target_symbol_table ≡ false)
            × (import_symbol_op ir append op m
                ≡ (ok tt, enter ir append op name (rename ir op.sym_name name m))))
  unfolding import_symbol_op
  import_symbol_op-cases append op m = elim (Option-cases (requested ir op.sym_name m)) [
    | inr (name, e) ↦ elim (Bool-cases (contains name m.target_symbol_table)) [
      | inl busy ↦ inl (rw (import_symbol_op, e, busy))
      | inr free ↦ inr (name, free, rw (import_symbol_op, e, free))
    ]
    | inl e ↦
        let (name, found, free, _) = uniqueify_name_lem op.sym_name m.target_symbol_table in
        inr (name, free, rw (import_symbol_op, e, found))
  ]

  pub merge_global-cases :
      (op : IrOp ir) (m : State ir)
      → (merge_global ir op m ≡ import_symbol_op ir false op m)
        ⊎ ((to : Name) × (alias_of ir op m ≡ some to)
            × (merge_global ir op m ≡ (ok tt, rename ir op.sym_name to m)))
  unfolding merge_global
  merge_global-cases op m = elim (Option-cases (alias_of ir op m)) [
    | inl e ↦ inl (rw (merge_global, e))
    | inr (to, e) ↦ inr (to, e, rw (merge_global, e))
  ]

  -- A loop keeps what its body keeps, for the operations that it runs over.
  pub for_each-keeps :
      (P : State ir → Type 0) (body : IrOp ir → Exec (State ir) (Unit {0})) (ops : List (IrOp ir))
      → All (λ op. (m : State ir) → P m → P (after (body op m))) ops
      → (m : State ir) → P m
      → P (after (for_each ir body ops m))
  unfolding for_each
  for_each-keeps P body [] k m h = h
  for_each-keeps P body (op ∷ ops) k m h =
      after-then P (body op m) (for_each ir body ops) (k.0 m h) (for_each-keeps P body ops k.1)

  pub in_order-keeps :
      (P : State ir → Type 0) (parts : List (Exec (State ir) (Unit {0})))
      → All (λ part. (m : State ir) → P m → P (after (part m))) parts
      → (m : State ir) → P m
      → P (after (in_order ir parts m))
  unfolding in_order
  in_order-keeps P [] k m h = h
  in_order-keeps P (part ∷ parts) k m h =
      after-then P (part m) (in_order ir parts) (k.0 m h) (in_order-keeps P parts k.1)

  pub get_top_level_ops-All :
      (P : IrOp ir → Type 0) (ops : List (IrOp ir)) (kind : Kind)
      → ((op : IrOp ir) → is_kind op.kind kind ≡ true → P op)
      → All P (get_top_level_ops ops kind)
  unfolding get_top_level_ops
  get_top_level_ops-All P [] kind f = tt
  get_top_level_ops-All P (op ∷ ops) kind f = elim (Bool-cases (is_kind op.kind kind)) [
    | inl e ↦ rw e (f op e, get_top_level_ops-All P ops kind f)
    | inr e ↦ rw e (get_top_level_ops-All P ops kind f)
  ]
