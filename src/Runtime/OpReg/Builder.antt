-- ===== src/Runtime/OpReg/Builder.antt =====
-- op_reg/base.py, KernelBuilder and FreeFuncKernelBuilder: the function of a kernel, its types
-- from the descriptors of the selection, and the values that its arguments are bound to. MLIR is
-- a parameter: its types, the parser of their texts, and the values of a new entry block.
pub mod Binds
pub mod SameKey
use shark_turbine.Common.{
  ℕ, zero, suc, ◌+◌, Bool, true, false, not, List, [], ◌∷◌, ◌++◌, Option, none, some, Name, codes,
  length, get_elem?, if◌then◌else◌, nat_beq, take, drop, map,
}
use shark_turbine.Common.Exc.{
  Exc, assertion_error, index_error, Result, ok, err, Exec, ◌>>=◌, or_raise, check,
}
use shark_turbine.Runtime.OpReg.Descriptors.{
  Tensors, ArgDescriptor, attr_arg, int_arg, tensor_arg, tensor_list_arg, Dims, ir_arity, is_list,
  tensor_asm,
}
use shark_turbine.Runtime.OpReg.Selection.{Selection}

pub record Mlir : Type 1 where
  pub IrType : Type 0
  pub Value : Type 0
  -- IrType.parse
  pub parse : Name → Result IrType
  -- func_op.add_entry_block().arguments, of a function with these argument types
  pub entry_block_arguments : List IrType → List Value

module _ (T : Tensors) (M : Mlir) where
  -- A property mlir_type_asm that is one text; that of a list is a list of texts.
  unfoldable pub mlir_type_asm : ArgDescriptor T → Result Name
  mlir_type_asm (attr_arg v spec) = err assertion_error
  mlir_type_asm (int_arg v spec arity) = ok (codes "i64")
  mlir_type_asm (tensor_arg t dims) = tensor_asm (T.dtype t) dims
  mlir_type_asm (tensor_list_arg ts dims arity) = err assertion_error

  -- TensorListArg.mlir_type_asm: as many texts as both lists have.
  unfoldable pub list_type_asm : List T.Tensor → List Dims → Result (List Name)
  list_type_asm [] dims = ok []
  list_type_asm (t ∷ ts) [] = ok []
  list_type_asm (t ∷ ts) (d ∷ dims) =
      tensor_asm (T.dtype t) d >>= λ asm. list_type_asm ts dims >>= λ asms. ok (asm ∷ asms)

  -- The types from the `i`-th text on, for `n` more turns of the loop. Each turn builds the texts.
  unfoldable pub list_types : Result (List Name) → (i n : ℕ) → Result (List M.IrType)
  list_types asms i zero = ok []
  list_types asms i (suc n) = asms >>= λ texts. or_raise (get_elem? texts i) index_error >>= λ text.
      M.parse text >>= λ type. list_types asms (i + 1) n >>= λ types. ok (type ∷ types)

  abbrev pub one_type : ArgDescriptor T → Bool → Result (List M.IrType)
  one_type d false = ok []
  one_type d true = mlir_type_asm d >>= λ asm. M.parse asm >>= λ type. ok (type ∷ [])

  -- The types that a descriptor adds to those of the function's arguments.
  unfoldable pub desc_types : ArgDescriptor T → Result (List M.IrType)
  desc_types (attr_arg v spec) = ok []
  desc_types (int_arg v spec arity) = one_type (int_arg v spec arity) (nat_beq arity 1)
  desc_types (tensor_arg t dims) = one_type (tensor_arg t dims) true
  desc_types (tensor_list_arg ts dims arity) = list_types (list_type_asm ts dims) 0 arity

  unfoldable pub arg_types : List (Option (ArgDescriptor T)) → Result (List M.IrType)
  arg_types [] = ok []
  arg_types (none ∷ ds) = err assertion_error
  arg_types (some d ∷ ds) = desc_types d >>= λ types. arg_types ds >>= λ rest. ok (types ++ rest)

  -- The types of the results: none of them is a list.
  unfoldable pub result_types : List (ArgDescriptor T) → Result (List M.IrType)
  result_types [] = ok []
  result_types (d ∷ ds) = (if is_list T d then err assertion_error else desc_types d) >>= λ types.
      result_types ds >>= λ rest. ok (types ++ rest)

  -- What an argument is bound to: nothing, a value, or a list of values.
  pub data Binding : Type 0 where
    elided : Binding
    one : M.Value → Binding
    many : List M.Value → Binding

  -- `block_arguments[i]`
  abbrev pub one_at : List M.Value → ℕ → Result Binding
  one_at values i = or_raise (get_elem? values i) index_error >>= λ v. ok (one v)

  -- The binding of a descriptor at an index of the block's arguments, and the index behind it.
  unfoldable pub bind_desc : ArgDescriptor T → List M.Value → ℕ → Result (Binding × ℕ)
  bind_desc d values i =
      if is_list T d
      then ok (many (take (ir_arity T d) (drop i values)), i + ir_arity T d)
      else (if nat_beq (ir_arity T d) 1
          then (one_at values i >>= λ b. ok (b, i + 1))
          else ok (elided, i))

  unfoldable pub bind_args :
      List (Option (ArgDescriptor T)) → List M.Value → ℕ → Result (List Binding)
  bind_args [] values i = ok []
  bind_args (none ∷ ds) values i = err assertion_error
  bind_args (some d ∷ ds) values i =
      bind_desc d values i >>= λ (b, j). bind_args ds values j >>= λ bs. ok (b ∷ bs)

  pub record Func : Type 0 where
    pub sym_name : Name
    pub inputs : List M.IrType
    pub results : List M.IrType
    pub is_private : Bool

  -- The slots of a builder, and the operands of the return operations that it has emitted.
  pub record Builder : Type 0 where
    pub ksel : Selection T
    pub func : Func
    pub arg_bindings : List Binding
    pub yielded : Bool
    pub returns : List (List M.Value)

  -- FreeFuncKernelBuilder.__init__. Inserting the function into the symbol table is MLIR's.
  unfoldable pub new_builder :
      Selection T → (func_name : Name) → (is_public : Bool) → Result Builder
  new_builder ksel func_name is_public = arg_types ksel.arg_descs >>= λ inputs.
      result_types ksel.result_descs >>= λ results.
      bind_args ksel.arg_descs (M.entry_block_arguments inputs) 0 >>= λ bindings. ok (record {
        ksel = ksel;
        func = record {
          sym_name = func_name;
          inputs = inputs;
          results = results;
          is_private = not is_public;
        };
        arg_bindings = bindings;
        yielded = false;
        returns = [];
      })

  abbrev pub value_of : Binding → Result Binding
  value_of elided = err assertion_error
  value_of (one v) = ok (one v)
  value_of (many vs) = ok (many vs)

  -- KernelBuilder.arg_value
  unfoldable pub arg_value : Builder → ℕ → Result Binding
  arg_value kb index = or_raise (get_elem? kb.arg_bindings index) assertion_error >>= value_of

  -- FreeFuncKernelBuilder.yield_results
  unfoldable pub yield_results : List M.Value → Exec Builder (Unit {0})
  yield_results results kb =
      if kb.yielded
      then (err assertion_error, kb)
      else (ok tt, record kb { yielded = true; returns = kb.returns ++ results ∷ [] })
