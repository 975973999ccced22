-- ===== src/Runtime/OpReg/Selection.antt =====
-- op_reg/base.py, KernelSelection and EagerKernelSelection: the arguments of a call are declared
-- one by one, and each declaration reads and checks the argument's value. A descriptor that is
-- returned is the one that stands in the selection; an operator may change it afterwards.
pub mod Describes
pub mod Declared
pub mod Specialized
use shark_turbine.Common.{
  ℕ, Bool, true, false, List, [], ◌∷◌, ◌++◌, Option, none, some, Name, codes, length, map,
  get_elem?, set, replicate,
}
use shark_turbine.Common.Exc.{
  Exc, assertion_error, index_error, attribute_error, Result, ok, err, Exec, ◌>>=◌, or_raise,
}
use shark_turbine.Runtime.OpReg.Descriptors.{
  Tensors, ℤ, ArgDescriptor, new_attr_arg, new_int_arg, new_tensor_arg, new_tensor_list_arg,
  spec_key, join, Meta, generate_meta,
}

module _ (T : Tensors) where
  -- An argument as torch passes it: `none` in a list is an element that is not a tensor.
  pub data Arg : Type 0 where
    tensor_input : T.Tensor → Arg
    list_value : List (Option T.Tensor) → Arg
    int_value : ℤ → Arg
    str_value : Name → Arg
    other_value : Arg

  -- The slots, with what the selection reads of the operator: its cache_key_base.
  pub record Selection : Type 0 where
    pub cache_key_base : Name
    pub args : List Arg
    pub arg_descs : List (Option (ArgDescriptor T))
    pub result_descs : List (ArgDescriptor T)
    pub variant : Name

  -- EagerKernelSelection.__init__
  unfoldable pub new_selection : Name → List Arg → Selection
  new_selection cache_key_base args = record {
    cache_key_base = cache_key_base;
    args = args;
    arg_descs = replicate (length args) none;
    result_descs = [];
    variant = codes "default";
  }

  -- The checks on a value and the descriptor that is made of it.
  unfoldable pub tensor_desc : Arg → Result (ArgDescriptor T)
  tensor_desc (tensor_input t) = ok (new_tensor_arg T t)
  tensor_desc (list_value ts) = err assertion_error
  tensor_desc (int_value n) = err assertion_error
  tensor_desc (str_value s) = err assertion_error
  tensor_desc other_value = err assertion_error

  -- The tensors of a list; the shape of an element that is none cannot be read.
  unfoldable pub all_tensors : List (Option T.Tensor) → Result (List T.Tensor)
  all_tensors [] = ok []
  all_tensors (none ∷ ts) = err attribute_error
  all_tensors (some t ∷ ts) = all_tensors ts >>= λ rest. ok (t ∷ rest)

  unfoldable pub tensor_list_desc : Arg → Result (ArgDescriptor T)
  tensor_list_desc (tensor_input t) = err assertion_error
  tensor_list_desc (list_value ts) = all_tensors ts >>= λ ts. ok (new_tensor_list_arg T ts)
  tensor_list_desc (int_value n) = err assertion_error
  tensor_list_desc (str_value s) = err assertion_error
  tensor_list_desc other_value = err assertion_error

  unfoldable pub int_desc : Arg → Result (ArgDescriptor T)
  int_desc (tensor_input t) = err assertion_error
  int_desc (list_value ts) = err assertion_error
  int_desc (int_value n) = ok (new_int_arg T n)
  int_desc (str_value s) = err assertion_error
  int_desc other_value = err assertion_error

  unfoldable pub str_desc : Arg → Result (ArgDescriptor T)
  str_desc (tensor_input t) = err assertion_error
  str_desc (list_value ts) = err assertion_error
  str_desc (int_value n) = err assertion_error
  str_desc (str_value s) = ok (new_attr_arg T s)
  str_desc other_value = err assertion_error

  -- `assert arg_descs[arg] is None`
  unfoldable pub check_free : Option (Option (ArgDescriptor T)) → Result (Unit {0})
  check_free none = err index_error
  check_free (some none) = ok tt
  check_free (some (some d)) = err assertion_error

  -- What the four methods do before they store a descriptor.
  unfoldable pub describe :
      (Arg → Result (ArgDescriptor T)) → ℕ → Selection → Result (ArgDescriptor T)
  describe make arg s = or_raise (get_elem? s.args arg) index_error >>= λ value.
      check_free (get_elem? s.arg_descs arg) >>= λ _. make value

  -- `arg_descs[arg] = desc = …`
  unfoldable pub store_desc :
      ℕ → Result (ArgDescriptor T) → Selection → Result (ArgDescriptor T) × Selection
  store_desc arg (err e) s = (err e, s)
  store_desc arg (ok d) s = (ok d, record s { arg_descs = set s.arg_descs arg (some d) })

  unfoldable pub arg_tensor : ℕ → Exec Selection (ArgDescriptor T)
  arg_tensor arg s = store_desc arg (describe tensor_desc arg s) s

  unfoldable pub arg_tensor_list : ℕ → Exec Selection (ArgDescriptor T)
  arg_tensor_list arg s = store_desc arg (describe tensor_list_desc arg s) s

  unfoldable pub arg_int : ℕ → Exec Selection (ArgDescriptor T)
  arg_int arg s = store_desc arg (describe int_desc arg s) s

  unfoldable pub attr_str : ℕ → Exec Selection (ArgDescriptor T)
  attr_str arg s = store_desc arg (describe str_desc arg s) s

  unfoldable pub return_tensor : T.Tensor → Exec Selection (ArgDescriptor T)
  return_tensor t s =
      let desc = new_tensor_arg T t in
      (ok desc, record s { result_descs = s.result_descs ++ desc ∷ [] })

  abbrev pub key_of : Option (ArgDescriptor T) → Name
  key_of none = codes "None"
  key_of (some d) = spec_key T d

  -- KernelSelection.spec_key
  unfoldable pub selection_key : Selection → Name
  selection_key s =
      s.cache_key_base
      ++ (codes "::"
          ++ (s.variant
              ++ (codes "("
                  ++ (join (codes ",") (map key_of s.arg_descs)
                      ++ (codes ")->("
                          ++ (join (codes ",") (map (spec_key T) s.result_descs) ++ codes ")"))))))

  -- What the meta kernel returns: nothing, one value, or a tuple.
  pub data Returns : Type 0 where
    returns_none : Returns
    returns_one : Meta T → Returns
    returns_tuple : List (Meta T) → Returns

  abbrev pub returns_of : List (Meta T) → Returns
  returns_of [] = returns_none
  returns_of (m ∷ []) = returns_one m
  returns_of (m ∷ n ∷ ms) = returns_tuple (m ∷ n ∷ ms)

  unfoldable pub generate_meta_returns : Selection → Returns
  generate_meta_returns s = returns_of (map (generate_meta T) s.result_descs)
