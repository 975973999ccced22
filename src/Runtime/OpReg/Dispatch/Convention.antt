-- ===== src/Runtime/OpReg/Dispatch/Convention.antt =====
-- op_reg/eager.py against op_reg/base.py: the values of a call and the types of the function that
-- they are passed to.
use shark_turbine.Common.{
  ℕ, zero, suc, ◌+◌, ◌≡◌, ◌≢◌, refl, ap, sym, ◌∙◌, subst, List, [], ◌∷◌, ◌++◌, Option, none, some,
  Name, get_elem?, inl, inr, ◌⊎◌, Bool-cases, nat_beq, codes, arith, list_key, nat_key,
}
use shark_turbine.Common.Exc.{index_error, key_error, ok, or_raise, bind-ok, or_raise-ok}
use shark_turbine.Common.Dict.{lookup}
use shark_turbine.Runtime.OpReg.Descriptors.{
  Tensors, ArgDescriptor, attr_arg, int_arg, tensor_arg, tensor_list_arg, Dims, tensor_asm,
  tensor_spec, dim_asm, torch_dtype_to_iree_type_asm,
}
use shark_turbine.Runtime.OpReg.Builder.{
  Mlir, mlir_type_asm, list_type_asm, list_types, desc_types, arg_types,
}
use shark_turbine.Runtime.OpReg.Dispatch.{Iree, Pushed, pushed_int}
use shark_turbine.Runtime.OpReg.Dispatch.Eager.{
  Target, push_tensor, push_list, push_desc, push_args,
}
use shark_turbine.Runtime.OpReg.Dispatch.TypeText.{shape_text, tensor_spec_lem}
use shark_turbine.Runtime.OpReg.Dispatch.Passing.{Passed, push_tensor-Passed}

module _ {T : Tensors} {M : Mlir} (I : Iree T M) (on : Target I) where
  -- The type of a tensor with these dimensions: IREE's element type for its dtype, and each
  -- dimension by its number or as "?".
  abbrev pub IsTensorType : T.Tensor → Dims → M.IrType → Type 0
  IsTensorType t dims type =
      (element : Name) × (lookup (T.dtype t) torch_dtype_to_iree_type_asm ≡ some element)
      × (M.parse (codes "tensor<" ++ (shape_text dims element ++ codes ">")) ≡ ok type)

  tensor_asm-IsTensorType :
      (t : T.Tensor) (dims : Dims) (asm : Name) (type : M.IrType)
      → tensor_asm (T.dtype t) dims ≡ ok asm
      → M.parse asm ≡ ok type
      → IsTensorType t dims type
  unfolding tensor_asm
  tensor_asm-IsTensorType t dims asm type h k =
      let (element, e, f) =
        bind-ok (or_raise (lookup (T.dtype t) torch_dtype_to_iree_type_asm) key_error) _ asm h in
      let same : tensor_spec (dim_asm dims) element ≡ asm = cc in
      (element, or_raise-ok _ _ _ e, ap M.parse (sym (tensor_spec_lem dims element) ∙ same) ∙ k)

  -- From the `i`-th on, the types and the values of a list's tensors, each with its dimensions.
  abbrev pub ListConforms :
      List T.Tensor → List Dims → (i n : ℕ) → List M.IrType → List (Pushed I.Ref) → Type 0
  ListConforms ts dims i zero types ps = (types ≡ []) × (ps ≡ [])
  ListConforms ts dims i (suc n) types ps =
      (t : T.Tensor) × (d : Dims) × (type : M.IrType) × (more : List M.IrType) × (p : Pushed I.Ref)
      × (rest : List (Pushed I.Ref)) × (get_elem? ts i ≡ some t)
      × (get_elem? dims i ≡ some d)
      × (types ≡ type ∷ more)
      × (ps ≡ p ∷ rest)
      × IsTensorType t d type
      × Passed I on t p
      × ListConforms ts dims (i + 1) n more rest

  -- The types and the values of one argument.
  abbrev pub DescConforms : ArgDescriptor T → List M.IrType → List (Pushed I.Ref) → Type 0
  DescConforms (attr_arg v spec) types ps = (types ≡ []) × (ps ≡ [])
  DescConforms (int_arg v spec arity) types ps =
      ((arity ≡ 1)
        × ((type : M.IrType) × (M.parse (codes "i64") ≡ ok type)
            × (types ≡ type ∷ [])
            × (ps ≡ pushed_int v ∷ [])))
      ⊎ ((arity ≢ 1) × (types ≡ []) × (ps ≡ []))
  DescConforms (tensor_arg t dims) types ps =
      (type : M.IrType) × (p : Pushed I.Ref) × (types ≡ type ∷ [])
      × (ps ≡ p ∷ [])
      × IsTensorType t dims type
      × Passed I on t p
  DescConforms (tensor_list_arg ts dims arity) types ps = ListConforms ts dims 0 arity types ps

  -- All arguments, in order.
  abbrev pub AllConform :
      List (Option (ArgDescriptor T)) → List M.IrType → List (Pushed I.Ref) → Type 0
  AllConform [] types ps = (types ≡ []) × (ps ≡ [])
  AllConform (none ∷ ds) types ps = ⊥
  AllConform (some d ∷ ds) types ps =
      (here : List M.IrType) × (more : List M.IrType) × (now : List (Pushed I.Ref)) × (later : List
        (Pushed I.Ref))
      × (types ≡ here ++ more)
      × (ps ≡ now ++ later)
      × DescConforms d here now
      × AllConform ds more later

  -- The text at an index belongs to the tensor and the dimensions there.
  asm_at :
      (u : T.Tensor) (ts : List T.Tensor) (d : Dims) (dims : List Dims) (first : Name)
      (rest : List Name) (i : ℕ) (t : T.Tensor) (asm : Name)
      → tensor_asm (T.dtype u) d ≡ ok first
      → ((j : ℕ)
          → get_elem? rest j ≡ some asm
          → get_elem? ts j ≡ some t
          → (c : Dims) × (get_elem? dims j ≡ some c) × (tensor_asm (T.dtype t) c ≡ ok asm))
      → get_elem? (first ∷ rest) i ≡ some asm
      → get_elem? (u ∷ ts) i ≡ some t
      → (c : Dims) × (get_elem? (d ∷ dims) i ≡ some c) × (tensor_asm (T.dtype t) c ≡ ok asm)
  asm_at u ts d dims first rest zero t asm typed later e f =
      (d, refl, subst (λ x. tensor_asm (T.dtype x) d ≡ ok asm) (cc) (typed ∙ ap ok (cc)))
  asm_at u ts d dims first rest (suc i) t asm typed later e f = later i e f

  list_type_asm-get_elem :
      (ts : List T.Tensor) (dims : List Dims) (texts : List Name) (i : ℕ) (t : T.Tensor)
      (asm : Name)
      → list_type_asm T M ts dims ≡ ok texts
      → get_elem? texts i ≡ some asm
      → get_elem? ts i ≡ some t
      → (d : Dims) × (get_elem? dims i ≡ some d) × (tensor_asm (T.dtype t) d ≡ ok asm)
  unfolding list_type_asm
  list_type_asm-get_elem [] dims texts i t asm h e f = absurd (cc)
  list_type_asm-get_elem (u ∷ ts) [] texts i t asm h e f =
      let empty : texts ≡ [] = cc in absurd (let g = (rw empty at e) in cc)
  list_type_asm-get_elem (u ∷ ts) (d ∷ dims) texts i t asm h e f =
      let (first, e1, g) = bind-ok (tensor_asm (T.dtype u) d) _ texts h in
      let (rest, e2, k) = bind-ok (list_type_asm T M ts dims) _ texts g in
      let cut : texts ≡ first ∷ rest = cc in
      asm_at u ts d dims first rest i t asm e1 (λ j. list_type_asm-get_elem ts dims rest j t asm e2)
        (rw cut at e) f

  push_list-ListConforms :
      (ts : List T.Tensor) (dims : List Dims) (i n : ℕ) (types : List M.IrType)
      (ps : List (Pushed I.Ref))
      → list_types T M (list_type_asm T M ts dims) i n ≡ ok types
      → push_list I on ts i n ≡ ok ps
      → ListConforms ts dims i n types ps
  unfolding list_types push_list
  push_list-ListConforms ts dims i zero types ps h k = (cc, cc)
  push_list-ListConforms ts dims i (suc n) types ps h k =
      let (texts, e, f) = bind-ok (list_type_asm T M ts dims) _ types h in
      let (asm, e1, f1) = bind-ok (or_raise (get_elem? texts i) index_error) _ types f in
      let (type, e2, f2) = bind-ok (M.parse asm) _ types f1 in
      let (more, e3, f3) =
        bind-ok (list_types T M (list_type_asm T M ts dims) (i + 1) n) _ types f2 in
      let (t, d1, g1) = bind-ok (or_raise (get_elem? ts i) index_error) _ ps k in
      let (p, d2, g2) = bind-ok (push_tensor I on t) _ ps g1 in
      let (rest, d3, g3) = bind-ok (push_list I on ts (i + 1) n) _ ps g2 in
      let here = or_raise-ok _ _ _ d1 in
      let (d, at_i, typed) =
        list_type_asm-get_elem ts dims texts i t asm e (or_raise-ok _ _ _ e1) here in
      (
        t,
        d,
        type,
        more,
        p,
        rest,
        here,
        at_i,
        cc,
        cc,
        tensor_asm-IsTensorType t d asm type typed e2,
        push_tensor-Passed I on t p d2,
        push_list-ListConforms ts dims (i + 1) n more rest e3 d3,
      )

  push_desc-DescConforms :
      (d : ArgDescriptor T) (types : List M.IrType) (ps : List (Pushed I.Ref))
      → desc_types T M d ≡ ok types
      → push_desc I on d ≡ ok ps
      → DescConforms d types ps
  unfolding desc_types push_desc mlir_type_asm
  push_desc-DescConforms (attr_arg v spec) types ps h k = (cc, cc)
  push_desc-DescConforms (int_arg v spec arity) types ps h k = elim (Bool-cases (nat_beq arity 1)) [
    | inl e ↦
        let (type, e1, f) = bind-ok (M.parse (codes "i64")) _ types (rw e at h) in
        let g = (rw e at k) in inl (ground (arith, e), (type, e1, cc, cc))
    | inr e ↦
        let f = (rw e at h) in let g = (rw e at k) in inr (λ one. ground (arith, e, one), cc, cc)
  ]
  push_desc-DescConforms (tensor_arg t dims) types ps h k =
      let (asm, e1, f1) = bind-ok (tensor_asm (T.dtype t) dims) _ types h in
      let (type, e2, f2) = bind-ok (M.parse asm) _ types f1 in
      let (p, d1, g1) = bind-ok (push_tensor I on t) _ ps k in
      (
        type,
        p,
        cc,
        cc,
        tensor_asm-IsTensorType t dims asm type e1 e2,
        push_tensor-Passed I on t p d1,
      )
  push_desc-DescConforms (tensor_list_arg ts dims arity) types ps h k =
      push_list-ListConforms ts dims 0 arity types ps h k

  -- If the argument types of a selection can be told and its arguments can be pushed, the types
  -- and the values are, argument by argument and in the same order: for an attribute none; for a
  -- single integer the type i64 and the integer; for a tensor the type with its dtype's element
  -- type and the dimensions that its descriptor specializes, and its buffer on the call's device;
  -- and for a list as many types and buffers as its arity, each of the tensor and the dimensions
  -- at its place.
  pub push_args-AllConform :
      (ds : List (Option (ArgDescriptor T))) (types : List M.IrType) (ps : List (Pushed I.Ref))
      → arg_types T M ds ≡ ok types
      → push_args I on ds ≡ ok ps
      → AllConform ds types ps
  unfolding arg_types push_args
  push_args-AllConform [] types ps h k = (cc, cc)
  push_args-AllConform (none ∷ ds) types ps h k = absurd (cc)
  push_args-AllConform (some d ∷ ds) types ps h k =
      let (here, e1, f1) = bind-ok (desc_types T M d) _ types h in
      let (more, e2, f2) = bind-ok (arg_types T M ds) _ types f1 in
      let (now, d1, g1) = bind-ok (push_desc I on d) _ ps k in
      let (later, d2, g2) = bind-ok (push_args I on ds) _ ps g1 in
      (
        here,
        more,
        now,
        later,
        cc,
        cc,
        push_desc-DescConforms d here now e1 d1,
        push_args-AllConform ds more later e2 d2,
      )
