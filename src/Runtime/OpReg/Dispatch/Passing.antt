-- ===== src/Runtime/OpReg/Dispatch/Passing.antt =====
-- op_reg/eager.py: what an invocation is given for the arguments of a call, and what the results
-- that it leaves become.
use shark_turbine.Common.{
  subst, ℕ, zero, suc, ◌+◌, ◌≡◌, ◌≢◌, refl, true, false, List, [], ◌∷◌, ◌++◌, Option, none, some,
  get_elem?, inl, inr, Bool-cases, nat_beq, ◌==◌, nat_key, list_key, option_key, pair_key, ◌⊎◌,
  pair_key_iff, arith,
}
use shark_turbine.Common.Exc.{index_error, ok, or_raise, bind-ok, or_raise-ok}
use shark_turbine.Runtime.OpReg.Descriptors.{
  Tensors, ArgDescriptor, attr_arg, int_arg, tensor_arg, tensor_list_arg,
}
use shark_turbine.Runtime.OpReg.Builder.{Mlir}
use shark_turbine.Runtime.OpReg.Dispatch.{Iree, Pushed, pushed_int, pushed_ref}
use shark_turbine.Runtime.OpReg.Dispatch.Eager.{
  Target, moved, push_tensor, push_list, push_desc, push_args, unpack, unpack_all,
}

module _ {T : Tensors} {M : Mlir} (I : Iree T M) (on : Target I) where
  -- The tensor itself if it stands on the call's torch device, and else its copy there.
  abbrev pub OnDevice : (t u : T.Tensor) → Type 0
  OnDevice t u =
      ((I.device_of t ≡ on.torch_device) × (u ≡ t))
      ⊎ ((I.device_of t ≢ on.torch_device) × (u ≡ I.to_device on.torch_device t))

  -- What stands for a tensor: the buffer of it on the device, as it is laid out if that is
  -- contiguous, and else, for a kernel that does not depend on the layout, of its contiguous copy.
  pub data Passed (t : T.Tensor) : Pushed I.Ref → Type 0 where
    as_laid_out :
        {u : T.Tensor}
        → OnDevice t u
        → I.is_contiguous u ≡ true
        → Passed t (pushed_ref (I.import_torch_tensor on.device u))
    made_contiguous :
        {u : T.Tensor}
        → OnDevice t u
        → I.is_contiguous u ≡ false
        → on.config.layout_specialized ≡ false
        → Passed t (pushed_ref (I.import_torch_tensor on.device (I.contiguous u)))

  -- The `n` tensors of a list from the `i`-th on.
  abbrev pub ListPassed : List T.Tensor → (i n : ℕ) → List (Pushed I.Ref) → Type 0
  ListPassed ts i zero ps = ps ≡ []
  ListPassed ts i (suc n) ps =
      (t : T.Tensor) × (p : Pushed I.Ref) × (rest : List (Pushed I.Ref)) × (get_elem? ts i ≡ some t)
      × (ps ≡ p ∷ rest)
      × Passed t p
      × ListPassed ts (i + 1) n rest

  -- An attribute is not passed, a single integer is passed as it is, and a tensor by its buffer.
  abbrev pub DescPassed : ArgDescriptor T → List (Pushed I.Ref) → Type 0
  DescPassed (attr_arg v spec) ps = ps ≡ []
  DescPassed (int_arg v spec arity) ps =
      ((arity ≡ 1) × (ps ≡ pushed_int v ∷ [])) ⊎ ((arity ≢ 1) × (ps ≡ []))
  DescPassed (tensor_arg t dims) ps = (p : Pushed I.Ref) × (ps ≡ p ∷ []) × Passed t p
  DescPassed (tensor_list_arg ts dims arity) ps = ListPassed ts 0 arity ps

  -- The values of all arguments, in order; there is no argument that was not declared.
  abbrev pub AllPassed : List (Option (ArgDescriptor T)) → List (Pushed I.Ref) → Type 0
  AllPassed [] ps = ps ≡ []
  AllPassed (none ∷ ds) ps = ⊥
  AllPassed (some d ∷ ds) ps =
      (now : List (Pushed I.Ref)) × (later : List (Pushed I.Ref)) × (ps ≡ now ++ later)
      × DescPassed d now
      × AllPassed ds later

  moved-OnDevice : (t : T.Tensor) → OnDevice t (moved I on t)
  unfolding moved
  moved-OnDevice t = elim (Bool-cases (I.device_of t == on.torch_device)) [
    | inl e ↦ inl ((pair_key_iff (I.device_of t) on.torch_device).0 e, rw (moved, e) refl)
    | inr e ↦ inr (
      λ same. let f = (pair_key_iff (I.device_of t) on.torch_device).1 same in cc,
      rw (moved, e) refl,
    )
  ]

  pub push_tensor-Passed :
      (t : T.Tensor) (p : Pushed I.Ref) → push_tensor I on t ≡ ok p → Passed t p
  unfolding push_tensor
  push_tensor-Passed t p h = elim (Bool-cases (I.is_contiguous (moved I on t))) [
    | inl e ↦
        let f = (rw (push_tensor, e) at h) in
        let same : pushed_ref (I.import_torch_tensor on.device (moved I on t)) ≡ p = cc in
        subst (Passed t) same (as_laid_out (moved-OnDevice t) e)
    | inr e ↦ elim (Bool-cases on.config.layout_specialized) [
      | inl l ↦ let f = (rw (push_tensor, e, l) at h) in absurd (cc)
      | inr l ↦
          let f = (rw (push_tensor, e, l) at h) in
          let same : pushed_ref (I.import_torch_tensor on.device (I.contiguous (moved I on t)))
              ≡ p =
            cc in
          subst (Passed t) same (made_contiguous (moved-OnDevice t) e l)
    ]
  ]

  push_list-ListPassed :
      (ts : List T.Tensor) (i n : ℕ) (ps : List (Pushed I.Ref))
      → push_list I on ts i n ≡ ok ps
      → ListPassed ts i n ps
  unfolding push_list
  push_list-ListPassed ts i zero ps h = cc
  push_list-ListPassed ts i (suc n) ps h =
      let (t, e1, f1) = bind-ok (or_raise (get_elem? ts i) index_error) _ ps h in
      let (p, e2, f2) = bind-ok (push_tensor I on t) _ ps f1 in
      let (rest, e3, f3) = bind-ok (push_list I on ts (i + 1) n) _ ps f2 in
      (
        t,
        p,
        rest,
        or_raise-ok _ _ _ e1,
        cc,
        push_tensor-Passed t p e2,
        push_list-ListPassed ts (i + 1) n rest e3,
      )

  push_desc-DescPassed :
      (d : ArgDescriptor T) (ps : List (Pushed I.Ref)) → push_desc I on d ≡ ok ps → DescPassed d ps
  unfolding push_desc
  push_desc-DescPassed (attr_arg v spec) ps h = cc
  push_desc-DescPassed (int_arg v spec arity) ps h = elim (Bool-cases (nat_beq arity 1)) [
    | inl e ↦ let f = (rw e at h) in inl (ground (arith, e), cc)
    | inr e ↦ let f = (rw e at h) in inr (λ one. ground (arith, e, one), cc)
  ]
  push_desc-DescPassed (tensor_arg t dims) ps h =
      let (p, e, f) = bind-ok (push_tensor I on t) _ ps h in (p, cc, push_tensor-Passed t p e)
  push_desc-DescPassed (tensor_list_arg ts dims arity) ps h = push_list-ListPassed ts 0 arity ps h

  pub push_args-AllPassed :
      (ds : List (Option (ArgDescriptor T))) (ps : List (Pushed I.Ref))
      → push_args I on ds ≡ ok ps
      → AllPassed ds ps
  unfolding push_args
  push_args-AllPassed [] ps h = cc
  push_args-AllPassed (none ∷ ds) ps h = absurd (cc)
  push_args-AllPassed (some d ∷ ds) ps h =
      let (now, e1, f1) = bind-ok (push_desc I on d) _ ps h in
      let (later, e2, f2) = bind-ok (push_args I on ds) _ ps f1 in
      (now, later, cc, push_desc-DescPassed d now e1, push_args-AllPassed ds later e2)

  -- Each result is the buffer at its place on the result list, exported as its descriptor's tensor.
  abbrev pub AllExported : List I.Ref → ℕ → List (ArgDescriptor T) → List T.Tensor → Type 0
  AllExported refs i [] ts = ts ≡ []
  AllExported refs i (attr_arg v spec ∷ ds) ts = ⊥
  AllExported refs i (int_arg v spec arity ∷ ds) ts = ⊥
  AllExported refs i (tensor_list_arg us dims arity ∷ ds) ts = ⊥
  AllExported refs i (tensor_arg t dims ∷ ds) ts =
      (ref : I.Ref) × (rest : List T.Tensor) × (get_elem? refs i ≡ some ref)
      × (ts ≡ I.export_torch_tensor on.device ref t ∷ rest)
      × AllExported refs (i + 1) ds rest

  pub unpack_all-AllExported :
      (refs : List I.Ref) (i : ℕ) (ds : List (ArgDescriptor T)) (ts : List T.Tensor)
      → unpack_all I on.device refs i ds ≡ ok ts
      → AllExported refs i ds ts
  unfolding unpack_all unpack
  unpack_all-AllExported refs i [] ts h = cc
  unpack_all-AllExported refs i (attr_arg v spec ∷ ds) ts h = absurd (cc)
  unpack_all-AllExported refs i (int_arg v spec arity ∷ ds) ts h = absurd (cc)
  unpack_all-AllExported refs i (tensor_list_arg us dims arity ∷ ds) ts h = absurd (cc)
  unpack_all-AllExported refs i (tensor_arg t dims ∷ ds) ts h =
      let (r, e1, f1) = bind-ok (unpack I on.device refs i (tensor_arg t dims)) _ ts h in
      let (rest, e2, f2) = bind-ok (unpack_all I on.device refs (i + 1) ds) _ ts f1 in
      let (ref, e3, f3) = bind-ok (or_raise (get_elem? refs i) index_error) _ r e1 in
      (ref, rest, or_raise-ok _ _ _ e3, cc, unpack_all-AllExported refs (i + 1) ds rest e2)
