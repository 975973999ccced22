-- ===== src/Transforms/Merger/Steps.antt =====
-- transforms/merger.py: what the steps of a merge do to the renames and to the target's symbols.
use shark_turbine.Common.{
  ◌≡◌, refl, ap, sym, ◌∙◌, Bool, true, false, ◌==◌, List, [], ◌∷◌, ◌++◌, none, some, ◌≢◌, Name,
  arith, contains, list_key, nat_key, inl, inr, Bool-cases, Option-cases, All, All-mono, ◌⊎◌, subst,
  eq_self, eq_ne,
}
use shark_turbine.Common.Exc.{Result, Exec, ok, err, after}
use shark_turbine.Common.Dict.{lookup, lookup-insert}
use shark_turbine.Transforms.Merger.{
  Ir, IrOp, State, rename, enter, import_symbol_op, alias_of, merge_global, then_do, for_each,
  translate_symbol, is_global_immutable_initialized,
}
use shark_turbine.Transforms.Merger.Loops.{
  import_symbol_op-cases, merge_global-cases, for_each-keeps,
}

contains-append :
    (n : Name) (xs ys : List Name) → contains n xs ≡ true → contains n (xs ++ ys) ≡ true
contains-append n [] ys h = absurd (cc)
contains-append n (x ∷ xs) ys h = ground (arith, contains-append n xs ys)

contains-append_self : (n : Name) (xs : List Name) → contains n (xs ++ n ∷ []) ≡ true
contains-append_self n [] = rw (eq_self n) refl
contains-append_self n (x ∷ xs) = ground (arith, contains-append_self n xs)

module _ (ir : Ir) where
  open ir use {Value, value_key}

  translate-absent :
      (n : Name) (m : State ir) → lookup n m.rename_map ≡ none → translate_symbol ir m n ≡ n
  unfolding translate_symbol
  translate-absent n m e = rw (translate_symbol, e) refl

  lookup-rename_other :
      (n from to : Name) (m : State ir)
      → n ≢ from
      → lookup n (rename ir from to m).rename_map ≡ lookup n m.rename_map
  unfolding rename
  lookup-rename_other n from to m ne = elim (Bool-cases (from == to)) [
    | inl e ↦ rw (rename, e) refl
    | inr e ↦ rw (rename, e) (lookup-insert from n to m.rename_map ∙ rw (eq_ne n from ne) refl)
  ]

  translate-rename_self :
      (from to : Name) (m : State ir)
      → lookup from m.rename_map ≡ none
      → translate_symbol ir (rename ir from to m) from ≡ to
  unfolding rename translate_symbol
  translate-rename_self from to m h = elim (Bool-cases (from == to)) [
    | inl e ↦ rw (rename, e) (translate-absent from m h ∙ (list_key.same_iff from to).0 e)
    | inr e ↦
        rw (rename, e, translate_symbol, lookup-insert from from to m.rename_map, eq_self from) refl
  ]

  abbrev pub Known : State ir → Type 0
  Known m =
      (v : Value) (n : Name)
      → lookup ⦃e = value_key⦄ v m.initialized_globals ≡ some n
      → contains n m.target_symbol_table ≡ true

  -- The target's globals are known by symbols of the target, and the name has not been renamed.
  pub record Absent (n : Name) (m : State ir) : Type 0 where
    pub known : Known m
    pub absent : lookup n m.rename_map ≡ none

  pub record Present (n : Name) (m : State ir) : Type 0 where
    pub known : Known m
    pub present : contains (translate_symbol ir m n) m.target_symbol_table ≡ true

  -- What a step on an operation with another symbol leaves of a state.
  pub record Extends (n : Name) (m m' : State ir) : Type 0 where
    pub same_globals : m'.initialized_globals ≡ m.initialized_globals
    pub grows :
        (k : Name)
        → contains k m.target_symbol_table ≡ true
        → contains k m'.target_symbol_table ≡ true
    pub same_lookup : lookup n m'.rename_map ≡ lookup n m.rename_map

  Known-Extends : (n : Name) (m m' : State ir) → Extends n m m' → Known m → Known m'
  Known-Extends n m m' x h v k e =
      x.grows k (h v k (ap (λ d. lookup ⦃e = value_key⦄ v d) (sym x.same_globals) ∙ e))

  pub Absent-Extends : (n : Name) (m m' : State ir) → Extends n m m' → Absent n m → Absent n m'
  Absent-Extends n m m' x h = record {
    known = Known-Extends n m m' x h.known;
    absent = x.same_lookup ∙ h.absent;
  }

  pub Present-Extends : (n : Name) (m m' : State ir) → Extends n m m' → Present n m → Present n m'
  unfolding translate_symbol
  Present-Extends n m m' x h = record {
    known = Known-Extends n m m' x h.known;
    present = x.grows _ (
        ap (λ o. contains (elim o as (λ _. Name) [ none ↦ n | some to ↦ to ]) m.target_symbol_table)
          x.same_lookup
        ∙ h.present);
  }

  Extends-rename : (n from to : Name) (m : State ir) → n ≢ from → Extends n m (rename ir from to m)
  unfolding rename
  Extends-rename n from to m ne = record {
    same_globals = elim (Bool-cases (from == to)) [ inl e ↦ rw e refl | inr e ↦ rw e refl ];
    grows = λ k h. elim (Bool-cases (from == to)) [ inl e ↦ rw e h | inr e ↦ rw e h ];
    same_lookup = lookup-rename_other n from to m ne;
  }

  Extends-enter :
      (n : Name) (append : Bool) (op : IrOp ir) (name : Name) (m : State ir)
      → Extends n m (enter ir append op name m)
  unfolding enter
  Extends-enter n true op name m = record {
    same_globals = refl;
    grows = λ k. contains-append k m.target_symbol_table (name ∷ []);
    same_lookup = refl;
  }
  Extends-enter n false op name m = record {
    same_globals = refl;
    grows = λ k. contains-append k m.target_symbol_table (name ∷ []);
    same_lookup = refl;
  }

  Extends-self : (n : Name) (m : State ir) → Extends n m m
  Extends-self n m = record { same_globals = refl; grows = λ k h. h; same_lookup = refl }

  Extends-trans : (n : Name) (a b c : State ir) → Extends n a b → Extends n b c → Extends n a c
  Extends-trans n a b c x y = record {
    same_globals = y.same_globals ∙ x.same_globals;
    grows = λ k h. y.grows k (x.grows k h);
    same_lookup = y.same_lookup ∙ x.same_lookup;
  }

  pub Extends-import_symbol_op :
      (n : Name) (append : Bool) (op : IrOp ir) (m : State ir)
      → n ≢ op.sym_name
      → Extends n m (after (import_symbol_op ir append op m))
  Extends-import_symbol_op n append op m ne = elim (import_symbol_op-cases ir append op m) [
    | inl e ↦ subst (λ r. Extends n m (after r)) (sym e) (Extends-self n m)
    | inr (name, _, e) ↦
        subst (λ r. Extends n m (after r)) (sym e)
          (Extends-trans n m (rename ir op.sym_name name m) _
            (Extends-rename n op.sym_name name m ne)
            (Extends-enter n append op name (rename ir op.sym_name name m)))
  ]

  pub Extends-merge_global :
      (n : Name) (op : IrOp ir) (m : State ir)
      → n ≢ op.sym_name
      → Extends n m (after (merge_global ir op m))
  Extends-merge_global n op m ne = elim (merge_global-cases ir op m) [
    | inl e ↦ subst (λ r. Extends n m (after r)) (sym e) (Extends-import_symbol_op n false op m ne)
    | inr (to, _, e) ↦
        subst (λ r. Extends n m (after r)) (sym e) (Extends-rename n op.sym_name to m ne)
  ]

  -- If nothing was raised, the name's translation is in the target.
  abbrev pub OkPresent : Name → Result (Unit {0}) × State ir → Type 0
  OkPresent n (err e, m) = Unit
  OkPresent n (ok _, m) = Present n m

  pub OkPresent-after :
      (n : Name) (r : Result (Unit {0}) × State ir) → Present n (after r) → OkPresent n r
  OkPresent-after n (err e, m) h = tt
  OkPresent-after n (ok _, m) h = h

  pub OkPresent-then :
      (n : Name) (r : Result (Unit {0}) × State ir) (k : Exec (State ir) (Unit {0}))
      → OkPresent n r
      → ((m : State ir) → Present n m → Present n (after (k m)))
      → OkPresent n (then_do ir r k)
  OkPresent-then n (err e, m) k h f = tt
  OkPresent-then n (ok _, m) k h f = OkPresent-after n (k m) (f m h)

  pub OkPresent-next :
      (n : Name) (r : Result (Unit {0}) × State ir) (k : Exec (State ir) (Unit {0}))
      → Absent n (after r)
      → ((m : State ir) → Absent n m → OkPresent n (k m))
      → OkPresent n (then_do ir r k)
  OkPresent-next n (err e, m) k h f = tt
  OkPresent-next n (ok _, m) k h f = f m h

  enter_self :
      (append : Bool) (op : IrOp ir) (to : Name) (m : State ir)
      → contains to (enter ir append op to m).target_symbol_table ≡ true
  unfolding enter
  enter_self true op to m = contains-append_self to m.target_symbol_table
  enter_self false op to m = contains-append_self to m.target_symbol_table

  translate-enter :
      (n : Name) (append : Bool) (op : IrOp ir) (to : Name) (m : State ir)
      → translate_symbol ir (enter ir append op to m) n ≡ translate_symbol ir m n
  unfolding enter translate_symbol
  translate-enter n true op to m = refl
  translate-enter n false op to m = refl

  Known-rename : (from to : Name) (m : State ir) → Known m → Known (rename ir from to m)
  unfolding rename
  Known-rename from to m h v k = elim (Bool-cases (from == to)) [
    | inl e ↦ rw e (h v k)
    | inr e ↦ rw e (h v k)
  ]

  table-rename :
      (from to : Name) (m : State ir)
      → (rename ir from to m).target_symbol_table ≡ m.target_symbol_table
  unfolding rename
  table-rename from to m = elim (Bool-cases (from == to)) [ inl e ↦ rw e refl | inr e ↦ rw e refl ]

  pub Present-import_symbol_op :
      (append : Bool) (op : IrOp ir) (m : State ir)
      → Absent op.sym_name m
      → OkPresent op.sym_name (import_symbol_op ir append op m)
  Present-import_symbol_op append op m h = elim (import_symbol_op-cases ir append op m) [
    | inl e ↦ subst (OkPresent op.sym_name) (sym e) tt
    | inr (name, _, e) ↦
        let m' = rename ir op.sym_name name m in
        subst (OkPresent op.sym_name) (sym e) (record {
          known =
              Known-Extends op.sym_name m' _ (Extends-enter op.sym_name append op name m')
                (Known-rename op.sym_name name m h.known);
          present =
              ap (λ t. contains t (enter ir append op name m').target_symbol_table)
                (translate-enter op.sym_name append op name m'
                  ∙ translate-rename_self op.sym_name name m h.absent)
              ∙ enter_self append op name m';
        })
  ]

  alias_of-Known :
      (op : IrOp ir) (m : State ir) (to : Name)
      → Known m
      → alias_of ir op m ≡ some to
      → contains to m.target_symbol_table ≡ true
  unfolding alias_of
  alias_of-Known op m to h = elim (Bool-cases (is_global_immutable_initialized op)) [
    | inr e ↦ rw e (λ x. absurd (cc))
    | inl e ↦ elim (Option-cases op.initial_value) [
      | inl f ↦ rw (e, f) (λ x. absurd (cc))
      | inr (v, f) ↦ rw (e, f) (h v to)
    ]
  ]

  pub Present-merge_global :
      (op : IrOp ir) (m : State ir)
      → Absent op.sym_name m
      → OkPresent op.sym_name (merge_global ir op m)
  Present-merge_global op m h = elim (merge_global-cases ir op m) [
    | inl e ↦ subst (OkPresent op.sym_name) (sym e) (Present-import_symbol_op false op m h)
    | inr (to, a, e) ↦ subst (OkPresent op.sym_name) (sym e) (record {
      known = Known-rename op.sym_name to m h.known;
      present =
          ap (λ t. contains t (rename ir op.sym_name to m).target_symbol_table)
            (translate-rename_self op.sym_name to m h.absent)
          ∙ ap (contains to) (table-rename op.sym_name to m)
          ∙ alias_of-Known op m to h.known a;
    })
  ]

  -- One operation has the symbol.
  abbrev pub Once : Name → List (IrOp ir) → Type 0
  Once n [] = ⊥
  Once n (op ∷ ops) =
      ((op.sym_name ≡ n) × All (λ o. n ≢ o.sym_name) ops) ⊎ ((n ≢ op.sym_name) × Once n ops)

  module _ (n : Name) (body : IrOp ir → Exec (State ir) (Unit {0}))
      (other : (op : IrOp ir) (m : State ir)
        → n ≢ op.sym_name
        → Extends n m (after (body op m))) where
    pub Absent-for_each :
        (ops : List (IrOp ir)) (m : State ir)
        → All (λ o. n ≢ o.sym_name) ops
        → Absent n m
        → Absent n (after (for_each ir body ops m))
    Absent-for_each ops m ne h =
        for_each-keeps ir (Absent n) body ops
          (All-mono ops (λ op x m h. Absent-Extends n m _ (other op m x) h) ne) m h

    pub Present-for_each :
        (ops : List (IrOp ir)) (m : State ir)
        → All (λ o. n ≢ o.sym_name) ops
        → Present n m
        → Present n (after (for_each ir body ops m))
    Present-for_each ops m ne h =
        for_each-keeps ir (Present n) body ops
          (All-mono ops (λ op x m h. Present-Extends n m _ (other op m x) h) ne) m h

    pub OkPresent-for_each :
        (self : (op : IrOp ir) (m : State ir)
          → op.sym_name ≡ n
          → Absent n m
          → OkPresent n (body op m))
        (ops : List (IrOp ir)) (m : State ir)
        → Once n ops
        → Absent n m
        → OkPresent n (for_each ir body ops m)
    unfolding for_each
    OkPresent-for_each self [] m once h = absurd once
    OkPresent-for_each self (op ∷ ops) m (inl (e, ne)) h =
        OkPresent-then n (body op m) (for_each ir body ops) (self op m e h)
          λ m' h'. Present-for_each ops m' ne h'
    OkPresent-for_each self (op ∷ ops) m (inr (ne, once)) h =
        OkPresent-next n (body op m) (for_each ir body ops) (Absent-Extends n m _ (other op m ne) h)
          λ m' h'. OkPresent-for_each self ops m' once h'
