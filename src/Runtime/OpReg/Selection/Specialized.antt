-- ===== src/Runtime/OpReg/Selection/Specialized.antt =====
-- op_reg/base.py: selections with the same key, and the functions that are built for them.
use shark_turbine.Common.{
  ℕ, ◌≡◌, refl, sym, ap, ◌∙◌, List, [], ◌∷◌, ◌++◌, Option, none, some, Name, codes, length, map,
  arith, ◌≢◌, All, append_cancel,
}
use shark_turbine.Common.Decimal.{show_nat}
use shark_turbine.Runtime.OpReg.Descriptors.{
  Tensors, ArgDescriptor, attr_arg, int_arg, tensor_arg, tensor_list_arg, show_spec_value, spec_key,
  join,
}
use shark_turbine.Runtime.OpReg.Descriptors.Keys.{join-decode}
use shark_turbine.Runtime.OpReg.Descriptors.Spec.{
  Spec, attr_spec, int_spec, tensor_spec_of, list_spec, PlainSpec, PlainSlot, spec_text, slot_text,
  quoted, show_dims, Code-slot_text, Code-spec_text,
}
use shark_turbine.Runtime.OpReg.Selection.{Selection, selection_key, key_of}

map-map :
    {A B C : Type 0} (f : B → C) (g : A → B) (xs : List A)
    → map f (map g xs) ≡ map (λ x. f (g x)) xs
map-map f g [] = refl
map-map f g (x ∷ xs) = ap (λ l. f (g x) ∷ l) (map-map f g xs)

module _ (T : Tensors) where
  -- What a key keeps of a descriptor.
  abbrev pub spec_of : ArgDescriptor T → Spec
  spec_of (attr_arg v spec) = attr_spec spec
  spec_of (int_arg v spec arity) = int_spec (show_spec_value T spec)
  spec_of (tensor_arg t dims) = tensor_spec_of (length (T.shape t)) (T.dtype t) dims
  spec_of (tensor_list_arg ts dims arity) =
      list_spec (map (λ t. length (T.shape t)) ts) (map T.dtype ts) dims

  abbrev pub slot_spec : Option (ArgDescriptor T) → Option Spec
  slot_spec none = none
  slot_spec (some d) = some (spec_of d)

  spec_key_lem : (d : ArgDescriptor T) → spec_key T d ≡ spec_text (spec_of d)
  unfolding spec_key spec_text quoted show_dims
  spec_key_lem (attr_arg v spec) = refl
  spec_key_lem (int_arg v spec arity) = refl
  spec_key_lem (tensor_arg t dims) = refl
  spec_key_lem (tensor_list_arg ts dims arity) =
      rw (map-map show_nat (λ t. length (T.shape t)) ts, map-map quoted T.dtype ts) refl

  key_of_lem : (d : Option (ArgDescriptor T)) → key_of T d ≡ slot_text (slot_spec d)
  unfolding slot_text
  key_of_lem none = refl
  key_of_lem (some d) = spec_key_lem d

  map_slots :
      (ds : List (Option (ArgDescriptor T))) → map (key_of T) ds ≡ map slot_text (map slot_spec ds)
  map_slots [] = refl
  map_slots (d ∷ ds) = rw (key_of_lem d, map_slots ds) refl

  map_specs : (ds : List (ArgDescriptor T)) → map (spec_key T) ds ≡ map spec_text (map spec_of ds)
  map_specs [] = refl
  map_specs (d ∷ ds) = rw (spec_key_lem d, map_specs ds) refl

  paren : (c : ℕ) → c ≢ 93 → c ≢ 41 → 41 ≢ c
  paren c p q e = q (sym e)

  -- A selection's specializations.
  abbrev pub arg_specs : Selection T → List (Option Spec)
  arg_specs s = map slot_spec s.arg_descs

  abbrev pub result_specs : Selection T → List Spec
  result_specs s = map spec_of s.result_descs

  abbrev pub PlainSelection : Selection T → Type 0
  PlainSelection s = All PlainSlot (arg_specs s) × All PlainSpec (result_specs s)

  -- The key behind its base and its variant.
  abbrev chain : List (Option Spec) → List Spec → Name
  chain args results =
      codes "("
      ++ (join (codes ",") (map slot_text args)
          ++ (41 ∷ (codes "->(" ++ (join (codes ",") (map spec_text results) ++ 41 ∷ []))))

  selection_key_lem :
      (s : Selection T)
      → selection_key T s
        ≡ s.cache_key_base ++ (codes "::" ++ (s.variant ++ chain (arg_specs s) (result_specs s)))
  unfolding selection_key
  selection_key_lem s = rw (map_slots s.arg_descs, map_specs s.result_descs) refl

  pub selection_key-injective :
      (s t : Selection T)
      → PlainSelection s
      → PlainSelection t
      → s.cache_key_base ≡ t.cache_key_base
      → s.variant ≡ t.variant
      → selection_key T s ≡ selection_key T t
      → (arg_specs s ≡ arg_specs t) × (result_specs s ≡ result_specs t)
  selection_key-injective s t hs ht base variant e =
      let rest : Selection T → Name = λ u. chain (arg_specs u) (result_specs u) in
      let keys =
        sym (selection_key_lem s)
        ∙ e
        ∙ selection_key_lem t
        ∙ ap (λ b. b ++ (codes "::" ++ (t.variant ++ rest t))) (sym base)
        ∙ ap (λ v. s.cache_key_base ++ (codes "::" ++ (v ++ rest t))) (sym variant) in
      let chains =
        append_cancel s.variant _ _
          (append_cancel (codes "::") _ _ (append_cancel s.cache_key_base _ _ keys)) in
      let (args, later) =
        join-decode Code-slot_text 44 41 [] refl refl (λ k. ground arith) paren (arg_specs s)
          (arg_specs t) _ _ hs.0 ht.0 (append_cancel (codes "(") _ _ chains) in
      let (results, last) =
        join-decode Code-spec_text 44 41 [] refl refl (λ k. ground arith) paren (result_specs s)
          (result_specs t) [] [] hs.1 ht.1 (append_cancel (codes "->(") _ _ later) in
      (args, results)
