-- ===== src/Runtime/OpReg/Selection/Declared.antt =====
-- op_reg/base.py: a second declaration of an argument.
use shark_turbine.Common.{
  ℕ, zero, suc, ◌≡◌, refl, subst, List, [], ◌∷◌, Option, none, some, get_elem?, set, inl, inr,
  Option-cases,
}
use shark_turbine.Common.Exc.{assertion_error, Result, ok, err, after, Result-cases}
use shark_turbine.Runtime.OpReg.Descriptors.{Tensors, ArgDescriptor}
use shark_turbine.Runtime.OpReg.Selection.{
  Arg, Selection, tensor_desc, tensor_list_desc, int_desc, str_desc, check_free, describe,
  store_desc, arg_tensor, arg_tensor_list, arg_int, attr_str,
}
use shark_turbine.Runtime.OpReg.Selection.Describes.{
  Aligned, Call, call_arg_tensor, call_arg_tensor_list, call_arg_int, call_attr_str,
  call_return_tensor, call, select_all, check_free_lem, Holds-call, Holds-select_all,
}

module _ (T : Tensors) where
  -- The argument that a call declares.
  abbrev pub declares : Call T → Option ℕ
  declares (call_arg_tensor i) = some i
  declares (call_arg_tensor_list i) = some i
  declares (call_arg_int i) = some i
  declares (call_attr_str i) = some i
  declares (call_return_tensor t) = none

  record Declared (s : Selection T) (i : ℕ) : Type 0 where
    value : Arg T
    value_at : get_elem? s.args i ≡ some value
    desc : ArgDescriptor T
    desc_at : get_elem? s.arg_descs i ≡ some (some desc)

  get_elem-set_same :
      (ds : List (Option (ArgDescriptor T))) (i : ℕ) (d : ArgDescriptor T)
      → get_elem? ds i ≡ some none
      → get_elem? (set ds i (some d)) i ≡ some (some d)
  get_elem-set_same [] i d h = absurd (cc)
  get_elem-set_same (x ∷ ds) zero d h = refl
  get_elem-set_same (x ∷ ds) (suc i) d h = get_elem-set_same ds i d h

  store_desc-Declared :
      (make : Arg T → Result (ArgDescriptor T)) (i : ℕ) (s : Selection T) (d : ArgDescriptor T)
      → (store_desc T i (describe T make i s) s).0 ≡ ok d
      → Declared (after (store_desc T i (describe T make i s) s)) i
  unfolding store_desc describe
  store_desc-Declared make i s d h = elim (Option-cases (get_elem? s.args i)) [
    | inl e ↦ absurd (let g = (rw (describe, e) at h) in cc)
    | inr (v, e) ↦ elim (Result-cases (check_free T (get_elem? s.arg_descs i))) [
      | inl (x, f) ↦ absurd (let g = (rw (describe, e, f) at h) in cc)
      | inr (x, f) ↦ elim (Result-cases (make v)) [
        | inl (y, g) ↦ absurd (let k = (rw (describe, e, f, g) at h) in cc)
        | inr (c, g) ↦
            let free = check_free_lem T (get_elem? s.arg_descs i) x f in
            rw (describe, e, f, g)
              (record {
                value = v;
                value_at = e;
                desc = c;
                desc_at = get_elem-set_same s.arg_descs i c free;
              })
      ]
    ]
  ]

  store_again :
      (make : Arg T → Result (ArgDescriptor T)) (i : ℕ) (s : Selection T)
      → Declared s i
      → store_desc T i (describe T make i s) s ≡ (err assertion_error, s)
  unfolding store_desc describe check_free
  store_again make i s h = rw (describe, h.value_at, h.desc_at) refl

  call_again :
      (c : Call T) (i : ℕ) (s : Selection T)
      → declares c ≡ some i
      → Declared s i
      → call T c s ≡ (err assertion_error, s)
  unfolding call arg_tensor arg_tensor_list arg_int attr_str
  call_again (call_arg_tensor j) i s e h =
      store_again (tensor_desc T) j s (subst (Declared s) (cc) h)
  call_again (call_arg_tensor_list j) i s e h =
      store_again (tensor_list_desc T) j s (subst (Declared s) (cc) h)
  call_again (call_arg_int j) i s e h = store_again (int_desc T) j s (subst (Declared s) (cc) h)
  call_again (call_attr_str j) i s e h = store_again (str_desc T) j s (subst (Declared s) (cc) h)
  call_again (call_return_tensor t) i s e h = absurd (cc)

  call-Declared :
      (c : Call T) (i : ℕ) (s : Selection T) (d : ArgDescriptor T)
      → declares c ≡ some i
      → (call T c s).0 ≡ ok d
      → Declared (after (call T c s)) i
  unfolding call arg_tensor arg_tensor_list arg_int attr_str
  call-Declared (call_arg_tensor j) i s d e h =
      subst (Declared _) (cc) (store_desc-Declared (tensor_desc T) j s d h)
  call-Declared (call_arg_tensor_list j) i s d e h =
      subst (Declared _) (cc) (store_desc-Declared (tensor_list_desc T) j s d h)
  call-Declared (call_arg_int j) i s d e h =
      subst (Declared _) (cc) (store_desc-Declared (int_desc T) j s d h)
  call-Declared (call_attr_str j) i s d e h =
      subst (Declared _) (cc) (store_desc-Declared (str_desc T) j s d h)
  call-Declared (call_return_tensor t) i s d e h = absurd (cc)

  -- Once an argument has been declared on a selection whose slots describe its arguments, any
  -- later declaration of it, by whichever method and after any other declarations, raises
  -- AssertionError and changes nothing.
  pub declared_once :
      (first again : Call T) (between : List (Call T)) (i : ℕ) (d : ArgDescriptor T)
      (s : Selection T)
      → Aligned T s.args s.arg_descs
      → declares first ≡ some i
      → (call T first s).0 ≡ ok d
      → declares again ≡ some i
      → let t = select_all T between (after (call T first s)) in
        call T again t ≡ (err assertion_error, t)
  declared_once first again between i d s h e made f =
      let next = Holds-call T first s h in
      let later = Holds-select_all T between (after (call T first s)) next.aligned in
      let was = call-Declared first i s d e made in
      call_again again i (select_all T between (after (call T first s))) f (record {
        value = was.value;
        value_at = rw later.same_args was.value_at;
        desc = was.desc;
        desc_at = later.kept.keeps i was.desc was.desc_at;
      })
