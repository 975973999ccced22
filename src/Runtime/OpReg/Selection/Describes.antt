-- ===== src/Runtime/OpReg/Selection/Describes.antt =====
-- op_reg/base.py: what the descriptors of a selection say after any declarations.
use shark_turbine.Common.{
  ℕ, zero, suc, ◌≡◌, refl, ◌∙◌, subst, List, [], ◌∷◌, Option, none, some, Name, length, get_elem?,
  set, replicate, inl, inr, Option-cases,
}
use shark_turbine.Common.Exc.{Result, ok, Exec, after, Result-cases}
use shark_turbine.Runtime.OpReg.Descriptors.{Tensors, ArgDescriptor}
use shark_turbine.Runtime.OpReg.Selection.{
  Arg, Selection, new_selection, tensor_desc, tensor_list_desc, int_desc, str_desc, check_free,
  describe, store_desc, arg_tensor, arg_tensor_list, arg_int, attr_str, return_tensor,
}

module _ (T : Tensors) where
  -- A descriptor that one of the methods makes of the value.
  pub data Describes (v : Arg T) (d : ArgDescriptor T) : Type 0 where
    as_tensor : tensor_desc T v ≡ ok d → Describes v d
    as_tensor_list : tensor_list_desc T v ≡ ok d → Describes v d
    as_int : int_desc T v ≡ ok d → Describes v d
    as_str : str_desc T v ≡ ok d → Describes v d

  abbrev pub SlotDescribes : Arg T → Option (ArgDescriptor T) → Type 0
  SlotDescribes v none = Unit
  SlotDescribes v (some d) = Describes v d

  -- One slot for each argument, and a slot that is set describes its argument.
  abbrev pub Aligned : List (Arg T) → List (Option (ArgDescriptor T)) → Type 0
  Aligned [] [] = Unit
  Aligned [] (d ∷ ds) = ⊥
  Aligned (v ∷ vs) [] = ⊥
  Aligned (v ∷ vs) (d ∷ ds) = SlotDescribes v d × Aligned vs ds

  -- What is set stays as it is.
  pub record Keeps (before now : List (Option (ArgDescriptor T))) : Type 0 where
    pub keeps :
        (i : ℕ) (d : ArgDescriptor T)
        → get_elem? before i ≡ some (some d)
        → get_elem? now i ≡ some (some d)

  pub data Call : Type 0 where
    call_arg_tensor call_arg_tensor_list call_arg_int call_attr_str : ℕ → Call
    call_return_tensor : T.Tensor → Call

  unfoldable pub call : Call → Exec (Selection T) (ArgDescriptor T)
  call (call_arg_tensor i) s = arg_tensor T i s
  call (call_arg_tensor_list i) s = arg_tensor_list T i s
  call (call_arg_int i) s = arg_int T i s
  call (call_attr_str i) s = attr_str T i s
  call (call_return_tensor t) s = return_tensor T t s

  -- Declarations one after the other; one that raises may be caught.
  unfoldable pub select_all : List Call → Selection T → Selection T
  select_all [] s = s
  select_all (c ∷ cs) s = select_all cs (after (call c s))

  Aligned-new : (vs : List (Arg T)) → Aligned vs (replicate (length vs) none)
  Aligned-new [] = tt
  Aligned-new (v ∷ vs) = (tt, Aligned-new vs)

  Aligned-set :
      (vs : List (Arg T)) (ds : List (Option (ArgDescriptor T))) (i : ℕ) (v : Arg T)
      (d : ArgDescriptor T)
      → Aligned vs ds
      → get_elem? vs i ≡ some v
      → Describes v d
      → Aligned vs (set ds i (some d))
  Aligned-set [] [] i v d h at made = tt
  Aligned-set [] (e ∷ ds) i v d h at made = elim h [ ]
  Aligned-set (w ∷ vs) [] i v d h at made = elim h [ ]
  Aligned-set (w ∷ vs) (e ∷ ds) zero v d h at made = (subst (λ x. Describes x d) (cc) made, h.1)
  Aligned-set (w ∷ vs) (e ∷ ds) (suc i) v d h at made = (h.0, Aligned-set vs ds i v d h.1 at made)

  get_elem-set :
      (ds : List (Option (ArgDescriptor T))) (i j : ℕ) (d e : ArgDescriptor T)
      → get_elem? ds i ≡ some none
      → get_elem? ds j ≡ some (some e)
      → get_elem? (set ds i (some d)) j ≡ some (some e)
  get_elem-set [] i j d e free h = absurd (cc)
  get_elem-set (x ∷ ds) zero zero d e free h = absurd (cc)
  get_elem-set (x ∷ ds) zero (suc j) d e free h = h
  get_elem-set (x ∷ ds) (suc i) zero d e free h = h
  get_elem-set (x ∷ ds) (suc i) (suc j) d e free h = get_elem-set ds i j d e free h

  pub check_free_lem :
      (o : Option (Option (ArgDescriptor T))) (x : Unit {0}) → check_free T o ≡ ok x → o ≡ some none
  unfolding check_free
  check_free_lem none x h = absurd (cc)
  check_free_lem (some none) x h = refl
  check_free_lem (some (some d)) x h = absurd (cc)

  -- The invariant of one call.
  pub record Holds (s t : Selection T) : Type 0 where
    pub same_args : t.args ≡ s.args
    pub aligned : Aligned t.args t.arg_descs
    pub kept : Keeps s.arg_descs t.arg_descs

  Holds-same :
      (s t : Selection T)
      → t.args ≡ s.args
      → t.arg_descs ≡ s.arg_descs
      → Aligned s.args s.arg_descs
      → Holds s t
  Holds-same s t a d h = record {
    same_args = a;
    aligned = rw (a, d) h;
    kept = record { keeps = λ i e f. rw d f };
  }

  Holds-store_desc :
      (make : Arg T → Result (ArgDescriptor T)) (i : ℕ) (s : Selection T)
      → ((v : Arg T) (d : ArgDescriptor T) → make v ≡ ok d → Describes v d)
      → Aligned s.args s.arg_descs
      → Holds s (after (store_desc T i (describe T make i s) s))
  unfolding store_desc describe
  Holds-store_desc make i s described h = elim (Option-cases (get_elem? s.args i)) [
    | inl e ↦ rw (describe, e) (Holds-same s s refl refl h)
    | inr (v, e) ↦ elim (Result-cases (check_free T (get_elem? s.arg_descs i))) [
      | inl (x, f) ↦ rw (describe, e, f) (Holds-same s s refl refl h)
      | inr (x, f) ↦ elim (Result-cases (make v)) [
        | inl (y, g) ↦ rw (describe, e, f, g) (Holds-same s s refl refl h)
        | inr (d, g) ↦
            let free = check_free_lem (get_elem? s.arg_descs i) x f in
            rw (describe, e, f, g)
              (record {
                same_args = refl;
                aligned = Aligned-set s.args s.arg_descs i v d h e (described v d g);
                kept = record { keeps = λ j c k. get_elem-set s.arg_descs i j d c free k };
              })
      ]
    ]
  ]

  pub Holds-call :
      (c : Call) (s : Selection T) → Aligned s.args s.arg_descs → Holds s (after (call c s))
  unfolding call arg_tensor arg_tensor_list arg_int attr_str return_tensor
  Holds-call (call_arg_tensor i) s h = Holds-store_desc (tensor_desc T) i s (λ v d. as_tensor) h
  Holds-call (call_arg_tensor_list i) s h =
      Holds-store_desc (tensor_list_desc T) i s (λ v d. as_tensor_list) h
  Holds-call (call_arg_int i) s h = Holds-store_desc (int_desc T) i s (λ v d. as_int) h
  Holds-call (call_attr_str i) s h = Holds-store_desc (str_desc T) i s (λ v d. as_str) h
  Holds-call (call_return_tensor t) s h = Holds-same s _ refl refl h

  pub Holds-select_all :
      (cs : List Call) (s : Selection T) → Aligned s.args s.arg_descs → Holds s (select_all cs s)
  unfolding select_all
  Holds-select_all [] s h = Holds-same s s refl refl h
  Holds-select_all (c ∷ cs) s h =
      let first = Holds-call c s h in
      let rest = Holds-select_all cs (after (call c s)) first.aligned in
      record {
        same_args = rest.same_args ∙ first.same_args;
        aligned = rest.aligned;
        kept = record { keeps = λ i d e. rest.kept.keeps i d (first.kept.keeps i d e) };
      }

  -- After any declarations on a new selection, failed ones among them, there is one slot for each
  -- argument, a slot that is set has a descriptor that one of the methods makes of that argument,
  -- and further declarations leave it as it is.
  pub select_all-Aligned :
      (base : Name) (args : List (Arg T)) (cs ds : List Call)
      → let s = select_all cs (new_selection T base args) in
        Aligned args s.arg_descs × Keeps s.arg_descs (select_all ds s).arg_descs
  unfolding new_selection
  select_all-Aligned base args cs ds =
      let first = Holds-select_all cs (new_selection T base args) (Aligned-new args) in
      let rest = Holds-select_all ds (select_all cs (new_selection T base args)) first.aligned in
      (
        subst (λ vs. Aligned vs (select_all cs (new_selection T base args)).arg_descs)
            first.same_args first.aligned,
        rest.kept,
      )
