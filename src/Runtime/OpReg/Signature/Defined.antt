-- ===== src/Runtime/OpReg/Signature/Defined.antt =====
-- op_reg/base.py: the names that a run of registrations defines.
use shark_turbine.Common.{
  ℕ, zero, suc, ◌+◌, ◌≤◌, ◌≡◌, ap, sym, ◌∙◌, subst, true, false, List, [], ◌∷◌, ◌++◌, Name,
  contains, nat_key, list_key, pair_key, arith, inl, inr, Bool-cases, All, All-mono, eq_self, eq_ne,
  replicate, ◌≢◌, refl,
}
use shark_turbine.Common.Exc.{Result, ok, err, Result-cases}
use shark_turbine.Common.Dict.{Dict, insert, lookup-insert}
use shark_turbine.Common.Decimal.{show_nat, show_nat-injective}
use shark_turbine.Runtime.OpReg.Signature.{
  split_signature, has_unique, replace_unique, Torch, OpKey, Registry, counter_of, unique_name,
  reserve_name, define_name, define_signature_in_library,
}
use shark_turbine.Runtime.OpReg.Signature.Unique.{replace-injective}

abbrev pub Distinct : List OpKey → Type 0
Distinct [] = Unit
Distinct (k ∷ ks) = (contains k ks ≡ false) × Distinct ks

-- Keys put before others one after the other.
abbrev pub push_all : List OpKey → List OpKey → List OpKey
push_all [] ks = ks
push_all (k ∷ new) ks = push_all new (k ∷ ks)

-- What a call leaves of the set of names: the name that it returns is new, and an error adds none.
abbrev Adds : Name → List OpKey → Result Name → List OpKey → Type 0
Adds ns before (err e) now = now ≡ before
Adds ns before (ok name) now = (contains (ns, name) before ≡ false) × (now ≡ (ns, name) ∷ before)

abbrev pub returned : Name → Result Name → List OpKey → List OpKey
returned ns (err e) keys = keys
returned ns (ok name) keys = (ns, name) ∷ keys

-- In its namespace, the key is the template with a number up to `c` in it.
pub record FromTemplate (ns name : Name) (c : ℕ) (k : OpKey) : Type 0 where
  pub number : k.0 ≡ ns → (j : ℕ) × (j ≤ c) × (k.1 ≡ replace_unique 0 (show_nat j) name)

-- In the namespace, nothing is defined but what the template has given up to the counter.
abbrev pub OnlyTemplate : Name → Name → ℕ → List OpKey → Type 0
OnlyTemplate ns name c ks = All (FromTemplate ns name c) ks

-- The template's names at the `k` numbers behind `c`.
abbrev pub numbered : Name → Name → ℕ → ℕ → List OpKey
numbered ns name c zero = []
numbered ns name c (suc k) =
    (ns, replace_unique 0 (show_nat (c + 1)) name) ∷ numbered ns name (c + 1) k

FromTemplate-next :
    (ns name : Name) (c : ℕ) (k : OpKey) → FromTemplate ns name c k → FromTemplate ns name (c + 1) k
FromTemplate-next ns name c k h = record {
  number = λ e. let (j, le, same) = h.number e in (j, omega arith, same);
}

FromTemplate-new :
    (ns name : Name) (c : ℕ) → FromTemplate ns name c (ns, replace_unique 0 (show_nat c) name)
FromTemplate-new ns name c = record { number = λ e. (c, omega arith, refl) }

next_ne :
    (ns name : Name) (c : ℕ) (k : OpKey)
    → has_unique name ≡ true
    → FromTemplate ns name c k
    → (ns, replace_unique 0 (show_nat (c + 1)) name) ≢ k
next_ne ns name c k o h e =
    let (j, le, same) = h.number (ap (λ p. p.0) (sym e)) in
    let number =
      show_nat-injective j (c + 1)
        (replace-injective _ _ name o (sym same ∙ ap (λ p. p.1) (sym e))) in
    absurd (omega arith)

contains-next :
    (ns name : Name) (c : ℕ) (ks : List OpKey)
    → has_unique name ≡ true
    → OnlyTemplate ns name c ks
    → contains (ns, replace_unique 0 (show_nat (c + 1)) name) ks ≡ false
contains-next ns name c [] o h = refl
contains-next ns name c (k ∷ ks) o h =
    rw (eq_ne _ k (next_ne ns name c k o h.0)) (contains-next ns name c ks o h.1)

counter_of-insert :
    (k : OpKey) (n : ℕ) (counters : Dict OpKey ℕ) → counter_of k (insert k n counters) ≡ n
counter_of-insert k n counters = rw (counter_of, lookup-insert k k n counters, eq_self k) refl

unique_name_next :
    (ns name : Name) (c : ℕ) (counters : Dict OpKey ℕ)
    → has_unique name ≡ true
    → counter_of (ns, name) counters ≡ c
    → unique_name ns name counters
      ≡ (replace_unique 0 (show_nat (c + 1)) name, insert (ns, name) (c + 1) counters)
unfolding unique_name
unique_name_next ns name c counters o count = rw (unique_name, o, count) refl

module _ (T : Torch) where
  -- A run of registrations, each of a namespace and a signature, and the names that come back.
  unfoldable pub register_all : List (Name × Name) → Registry T → List OpKey × Registry T
  register_all [] r = ([], r)
  register_all ((ns, signature) ∷ calls) r =
      let (result, r1) = define_signature_in_library T ns signature r in
      let (keys, r2) = register_all calls r1 in (returned ns result keys, r2)

  define_name-Adds :
      (ns name args : Name) (r : Registry T)
      → let out = define_name T ns name args r in
        Adds ns r.defined_op_names out.0 (out.1).defined_op_names
  unfolding define_name reserve_name
  define_name-Adds ns name args r = elim (Bool-cases (contains (ns, name) r.defined_op_names)) [
    | inl e ↦ rw (define_name, e) refl
    | inr e ↦ elim (Result-cases ((T.define ns (name ++ args) r.libraries).0)) [
      | inl (x, f) ↦ rw (define_name, e, reserve_name, f) refl
      | inr (x, f) ↦ rw (define_name, e, reserve_name, f) (e, refl)
    ]
  ]

  define_signature-Adds :
      (ns signature : Name) (r : Registry T)
      → let out = define_signature_in_library T ns signature r in
        Adds ns r.defined_op_names out.0 (out.1).defined_op_names
  unfolding define_signature_in_library
  define_signature-Adds ns signature r = elim (Result-cases (split_signature signature)) [
    | inl (x, e) ↦ rw (define_signature_in_library, e) refl
    | inr ((name, args), e) ↦ rw (define_signature_in_library, e) (define_name-Adds ns _ args _)
  ]

  push_all-returned :
      (ns : Name) (result : Result Name) (before now keys final : List OpKey)
      → Adds ns before result now
      → (Distinct now → (final ≡ push_all keys now) × Distinct (push_all keys now))
      → Distinct before
      → (final ≡ push_all (returned ns result keys) before)
        × Distinct (push_all (returned ns result keys) before)
  push_all-returned ns (err e) before now keys final adds ih h =
      subst (λ d. (final ≡ push_all keys d) × Distinct (push_all keys d)) adds
        (ih (subst Distinct (sym adds) h))
  push_all-returned ns (ok name) before now keys final adds ih h =
      subst (λ d. (final ≡ push_all keys d) × Distinct (push_all keys d)) adds.1
        (ih (subst Distinct (sym adds.1) (adds.0, h)))

  -- If the names that are defined are distinct, then over any registrations, failed ones among
  -- them, the set of defined names grows by the names that come back and no others, in order, and
  -- they are distinct from one another and from the older ones.
  pub register_all-Distinct :
      (calls : List (Name × Name)) (r : Registry T)
      → Distinct r.defined_op_names
      → let out = register_all calls r in
        ((out.1).defined_op_names ≡ push_all out.0 r.defined_op_names)
        × Distinct (push_all out.0 r.defined_op_names)
  unfolding register_all
  register_all-Distinct [] r h = (refl, h)
  register_all-Distinct ((ns, signature) ∷ calls) r h =
      let out = define_signature_in_library T ns signature r in
      push_all-returned ns out.0 r.defined_op_names (out.1).defined_op_names _ _
        (define_signature-Adds ns signature r) (register_all-Distinct calls out.1) h

module _ (T : Torch) (ns name args : Name) where
  -- The schema of the template at a number.
  abbrev pub numbered_schema : ℕ → Name
  numbered_schema n = replace_unique 0 (show_nat n) name ++ args

  -- The libraries take the template's schemas at the `k` numbers behind `c`, each after the others.
  abbrev pub Accepts : ℕ → ℕ → T.State → Type 0
  Accepts c zero s = Unit
  Accepts c (suc k) s =
      ((T.define ns (numbered_schema (c + 1)) s).0 ≡ ok tt)
      × Accepts (c + 1) k (T.define ns (numbered_schema (c + 1)) s).1

  define_name_new :
      (new : Name) (r : Registry T)
      → (T.define ns (new ++ args) r.libraries).0 ≡ ok tt
      → contains (ns, new) r.defined_op_names ≡ false
      → let out = define_name T ns new args r in
        (out.0 ≡ ok new)
        × ((out.1).defined_op_names ≡ (ns, new) ∷ r.defined_op_names)
        × ((out.1).unique_op_name_counter ≡ r.unique_op_name_counter)
        × ((out.1).libraries ≡ (T.define ns (new ++ args) r.libraries).1)
  unfolding define_name reserve_name
  define_name_new new r accepted h =
      rw (define_name, h, reserve_name, accepted) (refl, refl, refl, refl)

  -- One registration of the template's signature.
  define_signature_next :
      (signature : Name) (c : ℕ) (r : Registry T)
      → split_signature signature ≡ ok (name, args)
      → has_unique name ≡ true
      → counter_of (ns, name) r.unique_op_name_counter ≡ c
      → OnlyTemplate ns name c r.defined_op_names
      → (T.define ns (numbered_schema (c + 1)) r.libraries).0 ≡ ok tt
      → let out = define_signature_in_library T ns signature r in
        (out.0 ≡ ok (replace_unique 0 (show_nat (c + 1)) name))
        × OnlyTemplate ns name (c + 1) (out.1).defined_op_names
        × (counter_of (ns, name) (out.1).unique_op_name_counter ≡ c + 1)
        × ((out.1).libraries ≡ (T.define ns (numbered_schema (c + 1)) r.libraries).1)
  unfolding define_signature_in_library
  define_signature_next signature c r split o count h accepted =
      let new = replace_unique 0 (show_nat (c + 1)) name in
      let counters = insert (ns, name) (c + 1) r.unique_op_name_counter in
      let (named, added, counted, kept) =
        define_name_new new (record r { unique_op_name_counter = counters }) accepted
          (contains-next ns name c r.defined_op_names o h) in
      let older = All-mono r.defined_op_names (FromTemplate-next ns name c) h in
      rw (define_signature_in_library, split, unique_name_next ns name c _ o count)
        (
          named,
          subst (OnlyTemplate ns name (c + 1)) (sym added)
              (FromTemplate-new ns name (c + 1), older),
          ap (counter_of (ns, name)) counted ∙ counter_of-insert (ns, name) (c + 1) _,
          kept,
        )

  -- If in the namespace nothing is defined but what a template with @UNIQUE@ has given up to its
  -- counter, and the libraries take the template's schemas at the numbers behind the counter,
  -- each after the others, then registering the template's signature as often never fails and
  -- gives the template's names at these numbers, one after the other.
  pub register_all_unique :
      (k c : ℕ) (signature : Name) (r : Registry T)
      → split_signature signature ≡ ok (name, args)
      → has_unique name ≡ true
      → counter_of (ns, name) r.unique_op_name_counter ≡ c
      → OnlyTemplate ns name c r.defined_op_names
      → Accepts c k r.libraries
      → (register_all T (replicate k (ns, signature)) r).0 ≡ numbered ns name c k
  unfolding register_all
  register_all_unique zero c signature r split o count h accepted = refl
  register_all_unique (suc k) c signature r split o count h (now, later) =
      let (next, only, counted, kept) = define_signature_next signature c r split o count h now in
      rw next (
        ap (λ ks. (ns, replace_unique 0 (show_nat (c + 1)) name) ∷ ks)
          (register_all_unique k (c + 1) signature _ split o counted only
            (subst (Accepts (c + 1) k) (sym kept) later)))
