-- ===== src/Runtime/OpReg/Dispatch/Eager.antt =====
-- op_reg/eager.py: the arguments and the results of an invocation, and the whole call.
use shark_turbine.Common.{
  ℕ, zero, suc, ◌+◌, List, [], ◌∷◌, ◌++◌, Option, none, some, codes, get_elem?, if◌then◌else◌,
  nat_beq, ◌==◌, nat_key, list_key, option_key, pair_key,
}
use shark_turbine.Common.Exc.{
  assertion_error, index_error, runtime_error, Result, ok, err, Exec, ◌>>=◌, or_raise,
}
use shark_turbine.Runtime.Device.{TorchDevice}
use shark_turbine.Runtime.OpReg.Descriptors.{
  Tensors, ArgDescriptor, attr_arg, int_arg, tensor_arg, tensor_list_arg,
}
use shark_turbine.Runtime.OpReg.Selection.{Selection}
use shark_turbine.Runtime.OpReg.Builder.{Mlir, Builder}
use shark_turbine.Runtime.OpReg.Dispatch.{
  Iree, Pushed, pushed_int, pushed_ref, KernelCompileConfig, KernelCache, compile_standalone_kernel,
  Devices, choose_device,
}

module _ {T : Tensors} {M : Mlir} (I : Iree T M) where
  -- Where a call runs: its device, the torch device, and the kernel's configuration.
  pub record Target : Type 0 where
    pub device : I.Device
    pub torch_device : TorchDevice
    pub config : KernelCompileConfig I

  unfoldable pub moved : Target → T.Tensor → T.Tensor
  moved on t = if I.device_of t == on.torch_device then t else I.to_device on.torch_device t

  -- push_tensor; NotImplementedError is a RuntimeError.
  unfoldable pub push_tensor : Target → T.Tensor → Result (Pushed I.Ref)
  push_tensor on t =
      let u = moved on t in
      if I.is_contiguous u
      then ok (pushed_ref (I.import_torch_tensor on.device u))
      else (if on.config.layout_specialized
          then err runtime_error
          else ok (pushed_ref (I.import_torch_tensor on.device (I.contiguous u))))

  -- The tensors of a list from the `i`-th on, for `n` more turns of the loop.
  unfoldable pub push_list : Target → List T.Tensor → (i n : ℕ) → Result (List (Pushed I.Ref))
  push_list on ts i zero = ok []
  push_list on ts i (suc n) = or_raise (get_elem? ts i) index_error >>= λ t.
      push_tensor on t >>= λ p. push_list on ts (i + 1) n >>= λ ps. ok (p ∷ ps)

  unfoldable pub push_desc : Target → ArgDescriptor T → Result (List (Pushed I.Ref))
  push_desc on (attr_arg v spec) = ok []
  push_desc on (int_arg v spec arity) = if nat_beq arity 1 then ok (pushed_int v ∷ []) else ok []
  push_desc on (tensor_arg t dims) = push_tensor on t >>= λ p. ok (p ∷ [])
  push_desc on (tensor_list_arg ts dims arity) = push_list on ts 0 arity

  unfoldable pub push_args : Target → List (Option (ArgDescriptor T)) → Result (List (Pushed I.Ref))
  push_args on [] = ok []
  push_args on (none ∷ ds) = err assertion_error
  push_args on (some d ∷ ds) = push_desc on d >>= λ ps. push_args on ds >>= λ rest. ok (ps ++ rest)

  -- The `i`-th result by its descriptor.
  unfoldable pub unpack : I.Device → List I.Ref → ℕ → ArgDescriptor T → Result T.Tensor
  unpack device refs i (attr_arg v spec) = err runtime_error
  unpack device refs i (int_arg v spec arity) = err runtime_error
  unpack device refs i (tensor_arg t dims) =
      or_raise (get_elem? refs i) index_error >>= λ ref. ok (I.export_torch_tensor device ref t)
  unpack device refs i (tensor_list_arg ts dims arity) = err assertion_error

  unfoldable pub unpack_all :
      I.Device → List I.Ref → ℕ → List (ArgDescriptor T) → Result (List T.Tensor)
  unpack_all device refs i [] = ok []
  unpack_all device refs i (d ∷ ds) =
      unpack device refs i d >>= λ t. unpack_all device refs (i + 1) ds >>= λ ts. ok (t ∷ ts)

  pub data Output : Type 0 where
    no_output : Output
    one_output : T.Tensor → Output
    tuple_output : List T.Tensor → Output

  abbrev pub output_of : List T.Tensor → Output
  output_of [] = no_output
  output_of (t ∷ []) = one_output t
  output_of (t ∷ u ∷ ts) = tuple_output (t ∷ u ∷ ts)

  -- The invocation of a kernel, behind its compilation.
  unfoldable pub invoke_kernel : Target → I.Compiled → Selection T → Result Output
  invoke_kernel on kernel ksel = push_args on ksel.arg_descs >>= λ args.
      if on.config.async_invocations
      then err runtime_error
      else (I.invoke kernel args >>= λ refs.
          unpack_all on.device refs 0 ksel.result_descs >>= λ results. ok (output_of results))

  -- The devices of the thread, and KERNEL_CACHE.
  pub record Runtime : Type 0 where
    pub devices : Devices I
    pub kernel_cache : KernelCache I

  -- eager_dispatch
  unfoldable pub eager_dispatch :
      (Selection T → Builder T M → Result (Builder T M)) → Selection T → Exec Runtime Output
  eager_dispatch generate ksel r =
      let chosen = choose_device I ksel.arg_descs r.devices in
      elim chosen.0 [
        | err e ↦ (err e, record r { devices = chosen.1 })
        | ok (device, torch_device) ↦
            let out =
              compile_standalone_kernel I generate device ksel (codes "main") r.kernel_cache in
            let now : Runtime = record { devices = chosen.1; kernel_cache = out.1 } in
            elim out.0 [
              | err e ↦ (err e, now)
              | ok (kernel, config) ↦
                  let on : Target = record {
                    device = device;
                    torch_device = torch_device;
                    config = config;
                  } in
                  (invoke_kernel on kernel ksel, now)
            ]
      ]
