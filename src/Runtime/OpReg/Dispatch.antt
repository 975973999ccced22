-- ===== src/Runtime/OpReg/Dispatch.antt =====
-- op_reg/eager.py and op_reg/compiler.py: an eager call of a custom operator, from the selection of
-- its kernel to its results. Compiling, loading and running a module are the IREE runtime's, and
-- enter as parameters, as do the operations on torch's tensors.
pub mod Passing
pub mod TypeText
pub mod Convention
pub mod Cache
pub mod Eager
pub mod Served
use shark_turbine.Common.{
  ℕ, zero, suc, ◌+◌, Bool, true, false, not, List, [], ◌∷◌, ◌++◌, Option, none, some, Name, codes,
  length, get_elem?, leb, if◌then◌else◌, nat_beq, ◌==◌, nat_key, list_key, option_key, pair_key,
}
use shark_turbine.Common.Exc.{
  Exc, assertion_error, index_error, runtime_error, Result, ok, err, Exec, ◌>>=◌, or_raise, check,
}
use shark_turbine.Common.Dict.{Dict, lookup, insert}
use shark_turbine.Runtime.Device.{TorchDevice, lookup_device_from_torch}
use shark_turbine.Runtime.OpReg.Descriptors.{
  Tensors, ℤ, ArgDescriptor, attr_arg, int_arg, tensor_arg, tensor_list_arg, ir_arity, is_list,
}
use shark_turbine.Runtime.OpReg.Selection.{Selection, selection_key}
use shark_turbine.Runtime.OpReg.Builder.{Mlir, Builder, new_builder}

-- What stands on an argument list.
pub data Pushed (Ref : Type 0) : Type 0 where
  pushed_int : ℤ → Pushed Ref
  pushed_ref : Ref → Pushed Ref

pub record Iree (T : Tensors) (M : Mlir) : Type 1 where
  -- t.device, t.to(device), t.is_contiguous() and t.contiguous()
  pub device_of : T.Tensor → TorchDevice
  pub to_device : TorchDevice → T.Tensor → T.Tensor
  pub is_contiguous : T.Tensor → Bool
  pub contiguous : T.Tensor → T.Tensor
  -- Devices, and the buffers on them.
  pub Device : Type 0
  pub Ref : Type 0
  pub new_device : Name → Result Device
  pub type_cache_key : Device → Name
  pub import_torch_tensor : Device → T.Tensor → Ref
  pub export_torch_tensor : Device → Ref → T.Tensor → T.Tensor
  -- The verified, compiled and loaded module of a builder, with its function "main".
  pub Compiled : Type 0
  pub compile : Device → Builder T M → Result Compiled
  -- vm_context.invoke(vm_f, arg_list, ret_list): what is then on the result list.
  pub invoke : Compiled → List (Pushed Ref) → Result (List Ref)

module _ {T : Tensors} {M : Mlir} (I : Iree T M) where
  -- KernelCompileConfig, but for the flags and what is only kept alive.
  pub record KernelCompileConfig : Type 0 where
    pub key : Name
    pub in_process : Bool
    pub async_invocations : Bool
    pub layout_specialized : Bool

  -- KERNEL_CACHE
  abbrev pub KernelCache : Type 0
  KernelCache = Dict Name (I.Compiled × KernelCompileConfig)

  unfoldable pub new_config : Name → KernelCompileConfig
  new_config key = record {
    key = key;
    in_process = true;
    async_invocations = false;
    layout_specialized = false;
  }

  unfoldable pub cache_key : I.Device → Selection T → Name
  cache_key device ksel = selection_key T ksel ++ (codes "::" ++ I.type_cache_key device)

  -- The compilation of a kernel that is not cached. The operator writes the function's body.
  unfoldable pub compile_kernel :
      (Selection T → Builder T M → Result (Builder T M))
      → I.Device
      → Selection T
      → Name
      → Result (I.Compiled × KernelCompileConfig)
  compile_kernel generate device ksel func_name = new_builder T M ksel func_name true >>= λ kb.
      generate ksel kb >>= λ kb.
      I.compile device kb >>= λ compiled. ok (compiled, new_config (cache_key device ksel))

  abbrev keep :
      Name
      → Result (I.Compiled × KernelCompileConfig)
      → KernelCache
      → Result (I.Compiled × KernelCompileConfig) × KernelCache
  keep key (err e) cache = (err e, cache)
  keep key (ok kernel) cache = (ok kernel, insert key kernel cache)

  -- compile_standalone_kernel
  unfoldable pub compile_standalone_kernel :
      (Selection T → Builder T M → Result (Builder T M))
      → I.Device
      → Selection T
      → Name
      → Exec KernelCache (I.Compiled × KernelCompileConfig)
  compile_standalone_kernel generate device ksel func_name cache =
      let key = cache_key device ksel in
      elim (lookup key cache) [
        | some hit ↦ (ok hit, cache)
        | none ↦ keep key (compile_kernel generate device ksel func_name) cache
      ]

  abbrev pub Devices : Type 0
  Devices = Dict TorchDevice I.Device

  -- The two variables of the scan for a device.
  pub record Choice : Type 0 where
    pub device : Option I.Device
    pub torch_device : Option TorchDevice

  -- A tensor of the scan, and whether its device is supported, which ends the loop it stands in.
  unfoldable pub scan_tensor : T.Tensor → Devices → Result (Choice × Bool) × Devices
  scan_tensor t devices =
      let found = lookup_device_from_torch I.new_device (I.device_of t) true devices in
      elim found.0 [
        | err e ↦ (err e, found.1)
        | ok none ↦
            (ok (record { device = none; torch_device = some (I.device_of t) }, false), found.1)
        | ok (some d) ↦
            (ok (record { device = some d; torch_device = some (I.device_of t) }, true), found.1)
      ]

  -- The inner loop over a list: its `break` does not end the outer one.
  unfoldable pub scan_list : List T.Tensor → Choice → Exec Devices Choice
  scan_list [] choice devices = (ok choice, devices)
  scan_list (t ∷ ts) choice devices =
      let out = scan_tensor t devices in
      elim out.0 [
        | err e ↦ (err e, out.1)
        | ok (c, true) ↦ (ok c, out.1)
        | ok (c, false) ↦ scan_list ts c out.1
      ]

  unfoldable pub scan_args : List (Option (ArgDescriptor T)) → Choice → Exec Devices Choice
  scan_args [] choice devices = (ok choice, devices)
  scan_args (none ∷ ds) choice devices = (err assertion_error, devices)
  scan_args (some (attr_arg v spec) ∷ ds) choice devices = scan_args ds choice devices
  scan_args (some (int_arg v spec arity) ∷ ds) choice devices =
      let rest = scan_args ds choice devices in
      if leb arity 1 then rest else (err assertion_error, devices)
  scan_args (some (tensor_arg t dims) ∷ ds) choice devices =
      let out = scan_tensor t devices in
      elim out.0 [
        | err e ↦ (err e, out.1)
        | ok (c, true) ↦ (ok c, out.1)
        | ok (c, false) ↦ scan_args ds c out.1
      ]
  scan_args (some (tensor_list_arg ts dims arity) ∷ ds) choice devices =
      let out = scan_list ts choice devices in
      elim out.0 [ err e ↦ (err e, out.1) | ok c ↦ scan_args ds c out.1 ]

  abbrev pub cpu : TorchDevice
  cpu = (codes "cpu", none)

  -- The device and the torch device of the call: the CPU if the scan found none.
  unfoldable pub choose_device :
      List (Option (ArgDescriptor T)) → Exec Devices (I.Device × TorchDevice)
  choose_device ds devices =
      let out = scan_args ds (record { device = none; torch_device = none }) devices in
      elim out.0 [
        | err e ↦ (err e, out.1)
        | ok c ↦ elim c.device [
          | none ↦
              let found = lookup_device_from_torch I.new_device cpu true out.1 in
              (found.0 >>= λ d. or_raise d assertion_error >>= λ d. ok (d, cpu), found.1)
          | some d ↦ (or_raise c.torch_device assertion_error >>= λ td. ok (d, td), out.1)
        ]
      ]
