-- ===== src/Runtime/OpReg/Builder/Binds.antt =====
-- op_reg/base.py: how the values of a kernel's entry block are shared out among its arguments.
use shark_turbine.Common.{
  ℕ, zero, suc, ◌+◌, ◌≡◌, refl, sym, ap, ◌∙◌, subst, Bool, true, false, List, [], ◌∷◌, ◌++◌, Option,
  none, some, Name, not, ◌&&◌, length, length-append, get_elem?, nat_beq, take, drop, map,
  append-nil, append_assoc, length-map, inl, inr, Bool-cases,
}
use shark_turbine.Common.Exc.{index_error, Result, ok, or_raise, bind-ok}
use shark_turbine.Runtime.OpReg.Descriptors.{
  Tensors, ArgDescriptor, attr_arg, int_arg, tensor_arg, tensor_list_arg, ir_arity, is_list,
}
use shark_turbine.Runtime.OpReg.Selection.{Selection}
use shark_turbine.Runtime.OpReg.Builder.{
  Mlir, mlir_type_asm, list_type_asm, list_types, one_type, desc_types, arg_types, result_types,
  Binding, elided, one, many, bind_desc, bind_args, Builder, new_builder,
}

split_map :
    {A B : Type 0} (f : A → B) (vs : List A) (xs ys : List B)
    → map f vs ≡ xs ++ ys
    → (us : List A) × (ws : List A) × (vs ≡ us ++ ws) × (map f us ≡ xs) × (map f ws ≡ ys)
split_map f vs [] ys h = ([], vs, refl, refl, h)
split_map f [] (x ∷ xs) ys h = absurd (cc)
split_map f (v ∷ vs) (x ∷ xs) ys h =
    let (us, ws, e, p, q) = split_map f vs xs ys (cc) in (v ∷ us, ws, ap (λ l. v ∷ l) e, cc, q)

get_elem-append :
    {A : Type 0} (pre post : List A) (v : A) → get_elem? (pre ++ v ∷ post) (length pre) ≡ some v
get_elem-append [] post v = refl
get_elem-append (x ∷ pre) post v = get_elem-append pre post v

take-drop-append :
    {A : Type 0} (pre vs post : List A)
    → take (length vs) (drop (length pre) (pre ++ (vs ++ post))) ≡ vs
take-drop-append [] [] post = refl
take-drop-append [] (v ∷ vs) post = ap (λ l. v ∷ l) (take-drop-append [] vs post)
take-drop-append (x ∷ pre) vs post = take-drop-append pre vs post

module _ (T : Tensors) (M : Mlir) (type_of : M.Value → M.IrType) where
  abbrev pub values_of : Binding T M → List M.Value
  values_of elided = []
  values_of (one v) = v ∷ []
  values_of (many vs) = vs

  abbrev pub all_values : List (Binding T M) → List M.Value
  all_values [] = []
  all_values (b ∷ bs) = values_of b ++ all_values bs

  -- A list argument has a list, one of arity 1 a value, and any other nothing.
  unfoldable pub shape_fits : ArgDescriptor T → Binding T M → Bool
  shape_fits d elided = not (is_list T d) && not (nat_beq (ir_arity T d) 1)
  shape_fits d (one v) = not (is_list T d) && nat_beq (ir_arity T d) 1
  shape_fits d (many vs) = is_list T d

  -- The bound values have the types that the descriptor asks for.
  abbrev pub Fits : List (Option (ArgDescriptor T)) → List (Binding T M) → Type 0
  Fits [] [] = Unit
  Fits [] (b ∷ bs) = ⊥
  Fits (d ∷ ds) [] = ⊥
  Fits (none ∷ ds) (b ∷ bs) = ⊥
  Fits (some d ∷ ds) (b ∷ bs) =
      ((desc_types T M d ≡ ok (map type_of (values_of b))) × (shape_fits d b ≡ true)) × Fits ds bs

  length-list_types :
      (asms : Result (List Name)) (i n : ℕ) (ts : List M.IrType)
      → list_types T M asms i n ≡ ok ts
      → length ts ≡ n
  unfolding list_types
  length-list_types asms i zero ts h = let e : ts ≡ [] = cc in ap length e
  length-list_types asms i (suc n) ts h =
      let (texts, e, f) = bind-ok asms _ ts h in
      let (text, e1, g) = bind-ok (or_raise (get_elem? texts i) index_error) _ ts f in
      let (type, e2, k) = bind-ok (M.parse text) _ ts g in
      let (types, e3, l) = bind-ok (list_types T M asms (i + 1) n) _ ts k in
      let last : ts ≡ type ∷ types = cc in
      ap length last ∙ ap suc (length-list_types asms (i + 1) n types e3)

  one_type_lem :
      (d : ArgDescriptor T) (ts : List M.IrType)
      → one_type T M d true ≡ ok ts
      → (t : M.IrType) × (ts ≡ t ∷ [])
  one_type_lem d ts h =
      let (asm, e, f) = bind-ok (mlir_type_asm T M d) _ ts h in
      let (t, e1, g) = bind-ok (M.parse asm) _ ts f in (t, cc)

  -- A descriptor's share of the values, at the index where it begins.
  record Share (d : ArgDescriptor T) (pre vs post : List M.Value) : Type 0 where
    binding : Binding T M
    bound : bind_desc T M d (pre ++ (vs ++ post)) (length pre) ≡ ok (binding, length (pre ++ vs))
    same_values : values_of binding ≡ vs
    fits : shape_fits d binding ≡ true

  elided-Share :
      (d : ArgDescriptor T) (pre vs post : List M.Value)
      → is_list T d ≡ false
      → nat_beq (ir_arity T d) 1 ≡ false
      → map type_of vs ≡ []
      → Share d pre vs post
  unfolding bind_desc shape_fits
  elided-Share d pre [] post l a h = record {
    binding = elided;
    bound = rw (bind_desc, l, a, append-nil) refl;
    same_values = refl;
    fits = rw (shape_fits, l, a) refl;
  }
  elided-Share d pre (v ∷ vs) post l a h = absurd (cc)

  one-Share :
      (d : ArgDescriptor T) (pre vs post : List M.Value) (t : M.IrType)
      → is_list T d ≡ false
      → nat_beq (ir_arity T d) 1 ≡ true
      → map type_of vs ≡ t ∷ []
      → Share d pre vs post
  unfolding bind_desc shape_fits
  one-Share d pre [] post t l a h = absurd (cc)
  one-Share d pre (v ∷ w ∷ vs) post t l a h = absurd (cc)
  one-Share d pre (v ∷ []) post t l a h = record {
    binding = one v;
    bound = rw (bind_desc, l, a, get_elem-append pre post v, length-append pre (v ∷ [])) refl;
    same_values = refl;
    fits = rw (shape_fits, l, a) refl;
  }

  list-Share :
      (d : ArgDescriptor T) (pre vs post : List M.Value)
      → is_list T d ≡ true
      → length vs ≡ ir_arity T d
      → Share d pre vs post
  unfolding bind_desc shape_fits
  list-Share d pre vs post l a = record {
    binding = many vs;
    bound = rw (bind_desc, l, ← a, take-drop-append pre vs post, length-append pre vs) refl;
    same_values = refl;
    fits = rw (shape_fits, l) refl;
  }

  bind_desc-Share :
      (d : ArgDescriptor T) (pre vs post : List M.Value)
      → desc_types T M d ≡ ok (map type_of vs)
      → Share d pre vs post
  unfolding desc_types
  bind_desc-Share (attr_arg v spec) pre vs post h = elided-Share _ pre vs post refl refl (cc)
  bind_desc-Share (int_arg v spec arity) pre vs post h = elim (Bool-cases (nat_beq arity 1)) [
    | inl e ↦
        let (t, f) = one_type_lem (int_arg v spec arity) _ (rw e at h) in
        one-Share _ pre vs post t refl e f
    | inr e ↦ elided-Share _ pre vs post refl e (let g = (rw e at h) in cc)
  ]
  bind_desc-Share (tensor_arg t dims) pre vs post h =
      let (u, f) = one_type_lem (tensor_arg t dims) _ h in one-Share _ pre vs post u refl refl f
  bind_desc-Share (tensor_list_arg ts dims arity) pre vs post h =
      list-Share _ pre vs post refl
        (sym (length-map type_of vs) ∙ length-list_types (list_type_asm T M ts dims) 0 arity _ h)

  record Bound (ds : List (Option (ArgDescriptor T))) (pre vs : List M.Value) : Type 0 where
    bindings : List (Binding T M)
    bound : bind_args T M ds (pre ++ vs) (length pre) ≡ ok bindings
    same_values : all_values bindings ≡ vs
    fits : Fits ds bindings

  Bound-cons :
      (d : ArgDescriptor T) (ds : List (Option (ArgDescriptor T))) (pre us ws : List M.Value)
      → desc_types T M d ≡ ok (map type_of us)
      → Share d pre us ws
      → Bound ds (pre ++ us) ws
      → Bound (some d ∷ ds) pre (us ++ ws)
  unfolding bind_args
  Bound-cons d ds pre us ws e share later = record {
    bindings = share.binding ∷ later.bindings;
    bound = rw (bind_args, share.bound, ← append_assoc pre us ws, later.bound) refl;
    same_values = rw (share.same_values, later.same_values) refl;
    fits = ((rw share.same_values e, share.fits), later.fits);
  }

  bind_args-Bound :
      (ds : List (Option (ArgDescriptor T))) (types : List M.IrType) (pre vs : List M.Value)
      → arg_types T M ds ≡ ok types
      → map type_of vs ≡ types
      → Bound ds pre vs
  unfolding arg_types bind_args
  bind_args-Bound [] types pre [] h e = record {
    bindings = [];
    bound = refl;
    same_values = refl;
    fits = tt;
  }
  bind_args-Bound [] types pre (v ∷ vs) h e = absurd (cc)
  bind_args-Bound (none ∷ ds) types pre vs h e = absurd (cc)
  bind_args-Bound (some d ∷ ds) types pre vs h e =
      let (here, e1, f) = bind-ok (desc_types T M d) _ types h in
      let (rest, e2, g) = bind-ok (arg_types T M ds) _ types f in
      let (us, ws, cut, hu, hw) = split_map type_of vs here rest (cc) in
      let typed = e1 ∙ ap ok (sym hu) in
      subst (Bound (some d ∷ ds) pre) (sym cut) (
        Bound-cons d ds pre us ws typed (bind_desc-Share d pre us ws typed)
          (bind_args-Bound ds rest (pre ++ us) ws e2 hw))

-- What MLIR promises of an entry block: an argument for each type, of that type.
pub record EntryBlock (M : Mlir) : Type 0 where
  pub type_of : M.Value → M.IrType
  pub types_of_arguments :
      (types : List M.IrType) → map type_of (M.entry_block_arguments types) ≡ types

module _ (T : Tensors) (M : Mlir) (E : EntryBlock M) where
  -- What a construction makes.
  pub record Built (ksel : Selection T) (name : Name) (is_public : Bool)
      (inputs results : List M.IrType) : Type 0 where
    pub builder : Builder T M
    pub built : new_builder T M ksel name is_public ≡ ok builder
    pub same_inputs : (builder.func).inputs ≡ inputs
    pub same_results : (builder.func).results ≡ results
    pub all_bound : all_values T M E.type_of builder.arg_bindings ≡ M.entry_block_arguments inputs
    pub fits : Fits T M E.type_of ksel.arg_descs builder.arg_bindings

  -- If the types of a selection's arguments and results can be told, the construction of its
  -- kernel's function succeeds with these types, and the arguments share out the values of the
  -- entry block: in order, all of them, each argument those of its own types, a list for a list
  -- argument, one value for another of arity 1, and nothing otherwise. MLIR is taken to give an
  -- entry block one argument of each type.
  pub new_builder-Built :
      (ksel : Selection T) (name : Name) (is_public : Bool) (inputs results : List M.IrType)
      → arg_types T M ksel.arg_descs ≡ ok inputs
      → result_types T M ksel.result_descs ≡ ok results
      → Built ksel name is_public inputs results
  unfolding new_builder
  new_builder-Built ksel name is_public inputs results e f =
      let out =
        bind_args-Bound T M E.type_of ksel.arg_descs inputs [] (M.entry_block_arguments inputs) e
          (E.types_of_arguments inputs) in
      record {
        builder = record {
          ksel = ksel;
          func = record {
            sym_name = name;
            inputs = inputs;
            results = results;
            is_private = not is_public;
          };
          arg_bindings = out.bindings;
          yielded = false;
          returns = [];
        };
        built = rw (new_builder, e, f, out.bound) refl;
        same_inputs = refl;
        same_results = refl;
        all_bound = out.same_values;
        fits = out.fits;
      }
