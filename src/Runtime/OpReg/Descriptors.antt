-- ===== src/Runtime/OpReg/Descriptors.antt =====
-- op_reg/base.py: the descriptors of a kernel's arguments and results, and the text that a kernel
-- is specialized by. A tensor is torch's, and enters by its shape, the text of its dtype, and
-- what its copy on the meta device is.
pub mod Keys
pub mod Spec
use shark_turbine.Common.{
  ℕ, zero, suc, ◌+◌, Bool, true, false, List, [], ◌∷◌, ◌++◌, Option, none, some, Name, codes,
  length, map, if◌then◌else◌, ◌==◌, nat_key, list_key, replicate,
}
use shark_turbine.Common.Exc.{Exc, key_error, Result, ok, err, ◌>>=◌, or_raise}
use shark_turbine.Common.Dict.{Dict, lookup}
use shark_turbine.Common.Decimal.{show_nat}

pub record Tensors : Type 1 where
  pub Tensor : Type 0
  pub shape : Tensor → List ℕ
  -- str(t.dtype)
  pub dtype : Tensor → Name
  -- t.device == "meta"
  pub on_meta : Tensor → Bool
  -- t.clone().detach().to("meta")
  pub to_meta : Tensor → Tensor

-- A Python integer: its sign and what is behind it.
pub data ℤ : Type 0 where
  pos negsuc : ℕ → ℤ

unfoldable pub show_int : ℤ → Name
show_int (pos n) = show_nat n
show_int (negsuc n) = codes "-" ++ show_nat (suc n)

abbrev pub Dims : Type 0
Dims = List (Option ℕ)

-- `str.join`
unfoldable pub join : Name → List Name → Name
join sep [] = []
join sep (x ∷ []) = x
join sep (x ∷ y ∷ xs) = x ++ (sep ++ join sep (y ∷ xs))

-- str(xs) of a list whose elements have these texts.
unfoldable pub show_list : List Name → Name
show_list xs = codes "[" ++ (join (codes ", ") xs ++ codes "]")

unfoldable pub show_dim : Option ℕ → Name
show_dim none = codes "None"
show_dim (some n) = show_nat n

-- TORCH_DTYPE_TO_IREE_TYPE_ASM, with the dtypes by their texts.
abbrev pub torch_dtype_to_iree_type_asm : Dict Name Name
torch_dtype_to_iree_type_asm =
    (codes "torch.float16", codes "f16")
    ∷ (codes "torch.bfloat16", codes "bf16")
    ∷ (codes "torch.float32", codes "f32")
    ∷ (codes "torch.float64", codes "f64")
    ∷ (codes "torch.uint8", codes "i8")
    ∷ (codes "torch.int8", codes "i8")
    ∷ (codes "torch.int16", codes "i16")
    ∷ (codes "torch.int32", codes "i32")
    ∷ (codes "torch.int64", codes "i64")
    ∷ (codes "torch.bool", codes "i1")
    ∷ (codes "torch.qint8", codes "i8")
    ∷ (codes "torch.quint8", codes "i8")
    ∷ (codes "torch.complex32", codes "complex<f16>")
    ∷ (codes "torch.complex64", codes "complex<f32>")
    ∷ (codes "torch.complex128", codes "complex<f64>")
    ∷ []

-- The part of a type before its dtype: "?" for a dimension that is not specialized.
unfoldable pub dim_asm : Dims → Name
dim_asm dims = join (codes "x") (map (λ d. elim d [ none ↦ codes "?" | some n ↦ show_nat n ]) dims)

unfoldable pub tensor_spec : Name → Name → Name
tensor_spec [] dtype_asm = codes "tensor<" ++ (dtype_asm ++ codes ">")
tensor_spec (c ∷ dims) dtype_asm =
    codes "tensor<" ++ (((c ∷ dims) ++ (codes "x" ++ dtype_asm)) ++ codes ">")

unfoldable pub tensor_asm : Name → Dims → Result Name
tensor_asm dtype dims =
    or_raise (lookup dtype torch_dtype_to_iree_type_asm) key_error >>= λ dtype_asm.
    ok (tensor_spec (dim_asm dims) dtype_asm)

module _ (T : Tensors) where
  -- The slots of AttrArg, IntArg, TensorArg and TensorListArg. A string is the only attribute that
  -- a selection makes; `ir_arity` of an AttrArg and of a TensorArg is fixed by their classes.
  pub data ArgDescriptor : Type 0 where
    attr_arg : (v spec_value : Name) → ArgDescriptor
    int_arg : (v : ℤ) (spec_value : Option ℤ) (ir_arity : ℕ) → ArgDescriptor
    tensor_arg : (t : T.Tensor) (spec_dims : Dims) → ArgDescriptor
    tensor_list_arg : (ts : List T.Tensor) (spec_dims : List Dims) (ir_arity : ℕ) → ArgDescriptor

  -- The constructors AttrArg(v), IntArg(v), TensorArg(t) and TensorListArg(ts).
  unfoldable pub new_attr_arg : Name → ArgDescriptor
  new_attr_arg v = attr_arg v v

  unfoldable pub new_int_arg : ℤ → ArgDescriptor
  new_int_arg v = int_arg v none 1

  unfoldable pub new_tensor_arg : T.Tensor → ArgDescriptor
  new_tensor_arg t = tensor_arg t (replicate (length (T.shape t)) none)

  unfoldable pub new_tensor_list_arg : List T.Tensor → ArgDescriptor
  new_tensor_list_arg ts =
      tensor_list_arg ts (map (λ t. replicate (length (T.shape t)) none) ts) (length ts)

  abbrev pub ir_arity : ArgDescriptor → ℕ
  ir_arity (attr_arg v spec) = 0
  ir_arity (int_arg v spec arity) = arity
  ir_arity (tensor_arg t dims) = 1
  ir_arity (tensor_list_arg ts dims arity) = arity

  abbrev pub is_list : ArgDescriptor → Bool
  is_list (attr_arg v spec) = false
  is_list (int_arg v spec arity) = false
  is_list (tensor_arg t dims) = false
  is_list (tensor_list_arg ts dims arity) = true

  unfoldable pub show_spec_value : Option ℤ → Name
  show_spec_value none = codes "None"
  show_spec_value (some n) = show_int n

  -- The property spec_key of each class.
  unfoldable pub spec_key : ArgDescriptor → Name
  spec_key (attr_arg v spec) = codes "attr<" ++ (spec ++ codes ">")
  spec_key (int_arg v spec arity) = codes "int<" ++ (show_spec_value spec ++ codes ">")
  spec_key (tensor_arg t dims) =
      codes "tensor["
      ++ (show_nat (length (T.shape t))
          ++ (codes ":"
              ++ (T.dtype t ++ (codes "]<" ++ (show_list (map show_dim dims) ++ codes ">")))))
  spec_key (tensor_list_arg ts dims arity) =
      codes "tensor["
      ++ (show_list (map (λ t. show_nat (length (T.shape t))) ts)
          ++ (codes ":"
              ++ (show_list (map (λ t. codes "'" ++ (T.dtype t ++ codes "'")) ts)
                  ++ (codes "]<"
                      ++ (show_list (map (λ d. show_list (map show_dim d)) dims) ++ codes ">")))))

  -- What `generate_meta` makes of an argument.
  pub data Meta : Type 0 where
    meta_str : Name → Meta
    meta_int : ℤ → Meta
    meta_tensor : T.Tensor → Meta
    meta_list : List T.Tensor → Meta

  unfoldable pub meta_of : T.Tensor → T.Tensor
  meta_of t = if T.on_meta t then t else T.to_meta t

  unfoldable pub generate_meta : ArgDescriptor → Meta
  generate_meta (attr_arg v spec) = meta_str v
  generate_meta (int_arg v spec arity) = meta_int v
  generate_meta (tensor_arg t dims) = meta_tensor (meta_of t)
  generate_meta (tensor_list_arg ts dims arity) = meta_list (map meta_of ts)
