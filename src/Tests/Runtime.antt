-- ===== src/Tests/Runtime.antt =====
-- Concrete operators, selections and calls of core/shark_turbine/runtime.
use shark_turbine.Common.{
  Bool, ◌==◌, pair_key, list_key, nat_key, if◌then◌else◌, ℕ, ◌≡◌, refl, ap, true, false, List, [],
  ◌∷◌, none, some, Name, codes, map, list_key, nat_key, contains, arith,
}
use shark_turbine.Common.Exc.{runtime_error, assertion_error, Result, ok, err, after}
use shark_turbine.Common.Decimal.{show_nat}
use shark_turbine.Runtime.OpReg.Signature
use shark_turbine.Runtime.OpReg.Signature.{Torch, Registry, OpKey, split_signature, has_unique}
use shark_turbine.Runtime.OpReg.Signature.Unique.{split_signature-append}
use shark_turbine.Runtime.OpReg.Signature.Defined.{
  Distinct, push_all, register_all, register_all-Distinct, Accepts, register_all_unique, numbered,
}
use shark_turbine.Runtime.OpReg.CustomOp
use shark_turbine.Runtime.OpReg.CustomOp.{Library, Ops, no_key, Registers, init-Registers}
use shark_turbine.Runtime.OpReg.Descriptors
use shark_turbine.Runtime.OpReg.Descriptors.{
  Tensors, new_int_arg, pos, ArgDescriptor, attr_arg, int_arg, tensor_arg, tensor_list_arg,
  tensor_asm,
}
use shark_turbine.Runtime.OpReg.Selection
use shark_turbine.Runtime.OpReg.Selection.{
  Arg, tensor_input, int_value, str_value, list_value, Selection, new_selection,
}
use shark_turbine.Runtime.OpReg.Selection.Declared.{declared_once}
use shark_turbine.Runtime.OpReg.Selection.Describes.{
  Aligned, Keeps, Call, select_all, call, call_arg_tensor, call_arg_int, call_attr_str,
  select_all-Aligned,
}
use shark_turbine.Runtime.OpReg.Selection.Specialized.{PlainSelection}
use shark_turbine.Runtime.OpReg.Descriptors.Spec.{Without}
use shark_turbine.Runtime.OpReg.Builder
use shark_turbine.Runtime.OpReg.Builder.{Mlir, Builder, arg_types, result_types}
use shark_turbine.Runtime.OpReg.Builder.Binds.{EntryBlock, Built, new_builder-Built}
use shark_turbine.Runtime.OpReg.Builder.SameKey.{same_key-arg_types}
use shark_turbine.Runtime.OpReg.Dispatch.{Iree, Pushed, pushed_int, pushed_ref}
use shark_turbine.Runtime.OpReg.Dispatch.Cache.{CacheIsSound}
use shark_turbine.Runtime.OpReg.Dispatch.Convention.{AllConform, push_args-AllConform}
use shark_turbine.Runtime.OpReg.Dispatch.Eager
use shark_turbine.Runtime.OpReg.Dispatch.Eager.{Target, Runtime, eager_dispatch, push_args}
use shark_turbine.Runtime.OpReg.Dispatch.Served.{
  PlainDevices, Dispatched, eager_dispatch-Dispatched,
}

-- A library that takes each schema once.
abbrev torch : Torch
torch = record {
  State = List OpKey;
  Op = Name;
  define = λ ns schema s.
      if contains ⦃e = pair_key⦄ (ns, schema) s
      then (err runtime_error, s)
      else (ok tt, (ns, schema) ∷ s);
  impl = λ ns name key s. (ok tt, s);
  get_op = λ ns name s. ok name;
}

abbrev registry : Registry torch
registry = record { unique_op_name_counter = []; defined_op_names = []; libraries = [] }

split_signature-append_example : split_signature (codes "f(x)") ≡ ok (codes "f", codes "(x)")
split_signature-append_example =
    split_signature-append 102 120 [] (codes ")") ((λ e. ground arith), tt)
      ((λ e. ground arith), ((λ e. ground arith), tt))

abbrev calls : List (Name × Name)
calls =
    (codes "t", codes "f(x)") ∷ (codes "t", codes "f(y)") ∷ (codes "t", codes "g@UNIQUE@(x)") ∷ []

register_all-Distinct_example :
    ((register_all torch calls registry).1.defined_op_names
      ≡ push_all (register_all torch calls registry).0 [])
    × Distinct (push_all (register_all torch calls registry).0 [])
register_all-Distinct_example = register_all-Distinct torch calls registry tt

-- The second signature repeats a name.
calls_test :
    (register_all torch calls registry).0 ≡ (codes "t", codes "f") ∷ (codes "t", codes "g1") ∷ []
unfolding register_all Signature.define_signature_in_library Signature.define_name
    Signature.reserve_name Signature.split_signature Signature.match_signature Signature.match_args
    Signature.match_line Signature.span_to Signature.unique_name Signature.has_unique
    Signature.begins Signature.replace_unique show_nat
calls_test = refl

abbrev unique_calls : List (Name × Name)
unique_calls = (codes "t", codes "g@UNIQUE@(x)") ∷ (codes "t", codes "g@UNIQUE@(x)") ∷ []

g_split : split_signature (codes "g@UNIQUE@(x)") ≡ ok (codes "g@UNIQUE@", codes "(x)")
unfolding Signature.split_signature Signature.match_signature Signature.match_args
    Signature.match_line Signature.span_to
g_split = refl

g-has_unique : has_unique (codes "g@UNIQUE@") ≡ true
unfolding has_unique Signature.begins
g-has_unique = refl

g-Accepts : Accepts torch (codes "t") (codes "g@UNIQUE@") (codes "(x)") 0 2 []
unfolding Signature.replace_unique Signature.begins show_nat
g-Accepts = (refl, (refl, tt))

register_all_unique_example :
    (register_all torch unique_calls registry).0 ≡ numbered (codes "t") (codes "g@UNIQUE@") 0 2
register_all_unique_example =
    register_all_unique torch (codes "t") (codes "g@UNIQUE@") (codes "(x)") 2 0
      (codes "g@UNIQUE@(x)") registry g_split g-has_unique refl tt g-Accepts

abbrev library : Library
library = CustomOp.def_library (codes "t")

abbrev ops : Ops torch
ops = record { registry = registry; all_custom_op_regs = [] }

init-Registers_example :
    let out = CustomOp.init torch library (codes "f(x)") no_key true true ops in
    Registers torch library [] out.0 (out.1).all_custom_op_regs
init-Registers_example = init-Registers torch library (codes "f(x)") no_key true true ops

-- A tensor by its shape and its dtype, all of them on the CPU.
abbrev tensors : Tensors
tensors = record {
  Tensor = List ℕ × Name;
  shape = λ t. t.0;
  dtype = λ t. t.1;
  on_meta = λ t. false;
  to_meta = λ t. t;
}

abbrev row : List ℕ × Name
row = (4 ∷ 2 ∷ [], codes "torch.float32")

abbrev other_row : List ℕ × Name
other_row = (7 ∷ 3 ∷ [], codes "torch.float32")

abbrev args : List (Arg tensors)
args = tensor_input row ∷ int_value (pos 3) ∷ str_value (codes "add") ∷ []

abbrev first_calls : List (Call tensors)
first_calls = call_arg_tensor 0 ∷ call_arg_int 0 ∷ call_attr_str 2 ∷ []

select_all-Aligned_example :
    let s = select_all tensors first_calls (new_selection tensors (codes "t.f") args) in
    Aligned tensors args s.arg_descs
    × Keeps tensors s.arg_descs (select_all tensors (call_arg_int 1 ∷ []) s).arg_descs
select_all-Aligned_example =
    select_all-Aligned tensors (codes "t.f") args first_calls (call_arg_int 1 ∷ [])

abbrev new_call : Selection tensors
new_call = record {
  cache_key_base = codes "t.f";
  args = args;
  arg_descs = none ∷ none ∷ none ∷ [];
  result_descs = [];
  variant = codes "default";
}

new_call_int : (call tensors (call_arg_int 1) new_call).0 ≡ ok (int_arg (pos 3) none 1)
unfolding call Selection.arg_int Selection.store_desc Selection.describe Selection.check_free
    Selection.int_desc new_int_arg
new_call_int = refl

declared_once_example :
    let t =
      select_all tensors
        (call_arg_tensor 0 ∷ [])
        (after (call tensors (call_arg_int 1) new_call)) in
    call tensors (call_attr_str 1) t ≡ (err assertion_error, t)
declared_once_example =
    declared_once tensors (call_arg_int 1) (call_attr_str 1) (call_arg_tensor 0 ∷ []) 1
      (int_arg (pos 3) none 1) new_call (tt, (tt, (tt, tt))) refl new_call_int refl

-- Types are their texts, and a value is its type.
abbrev mlir : Mlir
mlir = record {
  IrType = Name;
  Value = Name;
  parse = λ text. ok text;
  entry_block_arguments = λ types. types;
}

map_same : (xs : List Name) → map (λ x. x) xs ≡ xs
map_same [] = refl
map_same (x ∷ xs) = ap (λ l. x ∷ l) (map_same xs)

entry_block : EntryBlock mlir
entry_block = record { type_of = λ v. v; types_of_arguments = map_same }

abbrev selected : (List ℕ × Name) → Selection tensors
selected t = record {
  cache_key_base = codes "t.f";
  args = [];
  arg_descs =
      some (tensor_arg t (some 4 ∷ none ∷ []))
      ∷ some (attr_arg (codes "add") (codes "add"))
      ∷ some (tensor_list_arg (t ∷ t ∷ []) ((none ∷ none ∷ []) ∷ (none ∷ none ∷ []) ∷ []) 2)
      ∷ some (int_arg (pos 3) none 1)
      ∷ [];
  result_descs = tensor_arg t (none ∷ none ∷ []) ∷ [];
  variant = codes "default";
}

abbrev inputs : List Name
inputs =
    codes "tensor<4x?xf32>" ∷ codes "tensor<?x?xf32>" ∷ codes "tensor<?x?xf32>" ∷ codes "i64" ∷ []

selected_inputs : arg_types tensors mlir (selected row).arg_descs ≡ ok inputs
unfolding arg_types Builder.desc_types Builder.mlir_type_asm Builder.list_type_asm
    Builder.list_types tensor_asm Descriptors.tensor_spec Descriptors.dim_asm Descriptors.join
    show_nat
selected_inputs = refl

selected_results :
    result_types tensors mlir (selected row).result_descs ≡ ok (codes "tensor<?x?xf32>" ∷ [])
unfolding result_types Builder.desc_types Builder.mlir_type_asm tensor_asm Descriptors.tensor_spec
    Descriptors.dim_asm Descriptors.join
selected_results = refl

new_builder-Built_example :
    Built tensors mlir entry_block
      (selected row)
      (codes "main")
      true
      inputs
      (codes "tensor<?x?xf32>" ∷ [])
new_builder-Built_example =
    new_builder-Built tensors mlir entry_block (selected row) (codes "main") true inputs
      (codes "tensor<?x?xf32>" ∷ []) selected_inputs selected_results

-- A runtime that runs a kernel by giving its first buffer back.
abbrev iree : Iree tensors mlir
iree = record {
  device_of = λ t. (codes "cpu", none);
  to_device = λ td t. t;
  is_contiguous = λ t. true;
  contiguous = λ t. t;
  Device = Bool;
  Ref = List ℕ × Name;
  new_device = λ uri. ok (uri == codes "local-task");
  type_cache_key = λ d. if d then codes "local-task" else codes "other";
  import_torch_tensor = λ d t. t;
  export_torch_tensor = λ d ref t. ref;
  Compiled = Name;
  compile = λ d kb. ok ((kb.func).sym_name);
  invoke = λ kernel ps. ok (row ∷ []);
}

abbrev target : Target iree
target = record {
  device = true;
  torch_device = (codes "cpu", none);
  config = record {
    key = codes "k";
    in_process = true;
    async_invocations = false;
    layout_specialized = false;
  };
}

abbrev pushed : List (Pushed (List ℕ × Name))
pushed = pushed_ref row ∷ pushed_ref row ∷ pushed_ref row ∷ pushed_int (pos 3) ∷ []

selected-pushed : push_args iree target (selected row).arg_descs ≡ ok pushed
unfolding push_args Eager.push_desc Eager.push_list Eager.push_tensor Eager.moved
selected-pushed = refl

push_args-AllConform_example : AllConform iree target (selected row).arg_descs inputs pushed
push_args-AllConform_example =
    push_args-AllConform iree target (selected row).arg_descs inputs pushed selected_inputs
      selected-pushed

abbrev runtime : Runtime iree
runtime = record { devices = []; kernel_cache = [] }

abbrev generate_nothing : Selection tensors → Builder tensors mlir → Result (Builder tensors mlir)
generate_nothing ksel kb = ok kb

empty-CacheIsSound : CacheIsSound iree generate_nothing (codes "main") []
empty-CacheIsSound = record { sound = λ key kernel e. absurd (cc) }

plain_types : (d : Bool) → contains 58 (iree.type_cache_key d) ≡ false
plain_types true = refl
plain_types false = refl

iree-PlainDevices : PlainDevices iree
iree-PlainDevices = record { no_colon = plain_types }

eager_dispatch-Dispatched_example :
    let out = eager_dispatch iree generate_nothing (selected row) runtime in
    Dispatched iree generate_nothing (selected row) runtime out.0 out.1
eager_dispatch-Dispatched_example =
    eager_dispatch-Dispatched iree generate_nothing (selected row) runtime iree-PlainDevices
      empty-CacheIsSound

same_key :
    Selection.selection_key tensors (selected row)
    ≡ Selection.selection_key tensors (selected other_row)
unfolding Selection.selection_key Descriptors.spec_key Descriptors.show_list Descriptors.show_dim
    Descriptors.join Descriptors.show_spec_value show_nat
same_key = refl

without : (c : ℕ) (text : Name) → contains c text ≡ false → Without c text
without c [] h = tt
without c (x ∷ text) h = ((λ e. ground arith), without c text (ground arith))

selected-PlainSelection :
    (shape : List ℕ) → PlainSelection tensors (selected (shape, codes "torch.float32"))
unfolding Descriptors.show_spec_value
selected-PlainSelection shape =
    let no_bracket = without 93 (codes "torch.float32") refl in
    let no_quote = without 39 (codes "torch.float32") refl in
    (
      (
        no_bracket,
        (
          without 62 (codes "add") refl,
          ((no_quote, (no_quote, tt)), (without 62 (codes "None") refl, tt)),
        ),
      ),
      (no_bracket, tt),
    )

same_key-arg_types_example :
    arg_types tensors mlir (selected row).arg_descs
    ≡ arg_types tensors mlir (selected other_row).arg_descs
same_key-arg_types_example =
    same_key-arg_types tensors mlir (selected row) (selected other_row)
      (selected-PlainSelection (4 ∷ 2 ∷ [])) (selected-PlainSelection (7 ∷ 3 ∷ []))
      (tt, (tt, (refl, (refl, tt)))) (tt, (tt, (refl, (refl, tt)))) refl refl same_key
