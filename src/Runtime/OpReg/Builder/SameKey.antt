-- ===== src/Runtime/OpReg/Builder/SameKey.antt =====
-- op_reg/base.py and op_reg/compiler.py: the types of the functions of selections that share a key.
use shark_turbine.Common.{
  ◌≡◌, refl, List, [], ◌∷◌, Option, none, some, Name, codes, length, map, length-map, All,
}
use shark_turbine.Common.Exc.{Result, ok, ◌>>=◌}
use shark_turbine.Runtime.OpReg.Descriptors.{
  Tensors, Dims, ArgDescriptor, attr_arg, int_arg, tensor_arg, tensor_list_arg, tensor_asm,
}
use shark_turbine.Runtime.OpReg.Descriptors.Spec.{
  Spec, attr_spec, int_spec, tensor_spec_of, list_spec,
}
use shark_turbine.Runtime.OpReg.Selection.{Selection, selection_key}
use shark_turbine.Runtime.OpReg.Selection.Specialized.{
  spec_of, slot_spec, PlainSelection, selection_key-injective,
}
use shark_turbine.Runtime.OpReg.Builder.{
  Mlir, mlir_type_asm, list_type_asm, list_types, desc_types, arg_types,
}

module _ (T : Tensors) (M : Mlir) where
  -- The arity is the one that the descriptor was made with.
  abbrev pub OwnArity : Option (ArgDescriptor T) → Type 0
  OwnArity none = Unit
  OwnArity (some (attr_arg v spec)) = Unit
  OwnArity (some (int_arg v spec arity)) = arity ≡ 1
  OwnArity (some (tensor_arg t dims)) = Unit
  OwnArity (some (tensor_list_arg ts dims arity)) = arity ≡ length ts

  -- The same texts for each of the lists' tensors.
  list_texts : List Name → List Dims → Result (List Name)
  list_texts [] dims = ok []
  list_texts (t ∷ ts) [] = ok []
  list_texts (t ∷ ts) (d ∷ dims) =
      tensor_asm t d >>= λ asm. list_texts ts dims >>= λ asms. ok (asm ∷ asms)

  list_type_asm_lem :
      (ts : List T.Tensor) (dims : List Dims)
      → list_type_asm T M ts dims ≡ list_texts (map T.dtype ts) dims
  unfolding list_type_asm list_texts
  list_type_asm_lem [] dims = refl
  list_type_asm_lem (t ∷ ts) [] = refl
  list_type_asm_lem (t ∷ ts) (d ∷ dims) = rw (list_type_asm_lem ts dims) refl

  -- The types of a specialization.
  spec_types : Spec → Result (List M.IrType)
  spec_types (attr_spec v) = ok []
  spec_types (int_spec v) = M.parse (codes "i64") >>= λ type. ok (type ∷ [])
  spec_types (tensor_spec_of rank dtype dims) =
      tensor_asm dtype dims >>= λ asm. M.parse asm >>= λ type. ok (type ∷ [])
  spec_types (list_spec ranks dtypes dims) =
      list_types T M (list_texts dtypes dims) 0 (length dtypes)

  desc_types_lem :
      (d : ArgDescriptor T) → OwnArity (some d) → desc_types T M d ≡ spec_types (spec_of T d)
  unfolding desc_types spec_types mlir_type_asm
  desc_types_lem (attr_arg v spec) h = refl
  desc_types_lem (int_arg v spec arity) h = rw h refl
  desc_types_lem (tensor_arg t dims) h = refl
  desc_types_lem (tensor_list_arg ts dims arity) h =
      rw (h, list_type_asm_lem ts dims, length-map T.dtype ts) refl

  arg_types-same :
      (ds es : List (Option (ArgDescriptor T)))
      → All OwnArity ds
      → All OwnArity es
      → map (slot_spec T) ds ≡ map (slot_spec T) es
      → arg_types T M ds ≡ arg_types T M es
  unfolding arg_types
  arg_types-same [] [] hd he e = refl
  arg_types-same [] (x ∷ es) hd he e = absurd (cc)
  arg_types-same (d ∷ ds) [] hd he e = absurd (cc)
  arg_types-same (none ∷ ds) (none ∷ es) hd he e = refl
  arg_types-same (none ∷ ds) (some x ∷ es) hd he e = absurd (cc)
  arg_types-same (some d ∷ ds) (none ∷ es) hd he e = absurd (cc)
  arg_types-same (some d ∷ ds) (some x ∷ es) hd he e =
      let spec : spec_of T d ≡ spec_of T x = cc in
      rw (desc_types_lem d hd.0, desc_types_lem x he.0, spec, arg_types-same ds es hd.1 he.1 (cc))
        refl

  -- Two selections with the same base, variant and key, whose attributes hold no >, whose dtypes
  -- hold no ] and no quote, and whose descriptors have the arities that they were made with, give
  -- the functions of their kernels the same argument types.
  pub same_key-arg_types :
      (s t : Selection T)
      → PlainSelection T s
      → PlainSelection T t
      → All OwnArity s.arg_descs
      → All OwnArity t.arg_descs
      → s.cache_key_base ≡ t.cache_key_base
      → s.variant ≡ t.variant
      → selection_key T s ≡ selection_key T t
      → arg_types T M s.arg_descs ≡ arg_types T M t.arg_descs
  same_key-arg_types s t ps pt hs ht base variant e =
      arg_types-same s.arg_descs t.arg_descs hs ht
        (selection_key-injective T s t ps pt base variant e).0
