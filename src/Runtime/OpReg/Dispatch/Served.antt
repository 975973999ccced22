-- ===== src/Runtime/OpReg/Dispatch/Served.antt =====
-- op_reg/eager.py: the kernel that an eager call runs, on what, and what comes back.
use shark_turbine.Common.{
  ℕ, arith, ◌≡◌, refl, sym, ap, ◌∙◌, inl, inr, codes, Name, List, [], ◌∷◌, ◌++◌, contains, nat_key,
  true, false, Bool-cases,
}
use shark_turbine.Common.Exc.{Result, ok, Result-cases, bind-ok}
use shark_turbine.Runtime.OpReg.Descriptors.{Tensors}
use shark_turbine.Runtime.OpReg.Selection.{Selection, selection_key}
use shark_turbine.Runtime.OpReg.Builder.{Mlir, Builder}
use shark_turbine.Runtime.OpReg.Dispatch.{
  Iree, Pushed, KernelCompileConfig, cache_key, choose_device, compile_kernel,
  compile_standalone_kernel,
}
use shark_turbine.Runtime.OpReg.Dispatch.Cache.{CompiledFor, CacheIsSound, compile-Serves}
use shark_turbine.Runtime.OpReg.Dispatch.Eager.{
  Target, Output, output_of, Runtime, push_args, unpack_all, invoke_kernel, eager_dispatch,
}
use shark_turbine.Runtime.OpReg.Dispatch.Passing.{
  AllPassed, push_args-AllPassed, AllExported, unpack_all-AllExported,
}

-- The code point of a colon.
abbrev pub colon : ℕ
colon = 58

colon_inside : (before after : Name) → contains colon (before ++ colon ∷ after) ≡ true
colon_inside [] after = refl
colon_inside (c ∷ before) after = rw (colon_inside before after) (ground arith)

tail_of : (x y : ℕ) (xs ys : Name) → x ∷ xs ≡ y ∷ ys → xs ≡ ys
tail_of x y xs ys h = cc

no_colon_inside :
    (a before after : Name) → contains colon a ≡ false → a ≡ before ++ colon ∷ after → ⊥
no_colon_inside a before after h e =
    let inside = ap (contains colon) e ∙ colon_inside before after in cc

-- Two texts with a last "::" are equal only if the parts before it and the parts behind it are.
last_separator :
    (x y a b : Name)
    → contains colon a ≡ false
    → contains colon b ≡ false
    → x ++ (codes "::" ++ a) ≡ y ++ (codes "::" ++ b)
    → (x ≡ y) × (a ≡ b)
last_separator [] [] a b ha hb e = (refl, tail_of _ _ _ _ (tail_of _ _ _ _ e))
last_separator [] (c ∷ []) a b ha hb e =
    absurd (no_colon_inside a [] b ha (tail_of _ _ _ _ (tail_of _ _ _ _ e)))
last_separator [] (c ∷ d ∷ y) a b ha hb e =
    absurd (no_colon_inside a y (colon ∷ b) ha (tail_of _ _ _ _ (tail_of _ _ _ _ e)))
last_separator (c ∷ []) [] a b ha hb e =
    absurd (no_colon_inside b [] a hb (sym (tail_of _ _ _ _ (tail_of _ _ _ _ e))))
last_separator (c ∷ d ∷ x) [] a b ha hb e =
    absurd (no_colon_inside b x (colon ∷ a) hb (sym (tail_of _ _ _ _ (tail_of _ _ _ _ e))))
last_separator (c ∷ x) (d ∷ y) a b ha hb e =
    let (same, ends) = last_separator x y a b ha hb (tail_of _ _ _ _ e) in
    let first : c ≡ d = cc in (ap (λ k. k ∷ x) first ∙ ap (λ l. d ∷ l) same, ends)

-- The types of devices are told by texts without a colon.
pub record PlainDevices {T : Tensors} {M : Mlir} (I : Iree T M) : Type 0 where
  pub no_colon : (d : I.Device) → contains colon (I.type_cache_key d) ≡ false

module _ {T : Tensors} {M : Mlir} (I : Iree T M)
    (generate : Selection T → Builder T M → Result (Builder T M)) where
  -- A kernel that was compiled for a device of this type and for a selection with this one's key.
  pub record MadeFor (ksel : Selection T) (device : I.Device)
      (kernel : I.Compiled × KernelCompileConfig I) : Type 0 where
    pub of_device : I.Device
    pub of_ksel : Selection T
    pub same_type : I.type_cache_key of_device ≡ I.type_cache_key device
    pub same_key : selection_key T of_ksel ≡ selection_key T ksel
    pub compiled : compile_kernel I generate of_device of_ksel (codes "main") ≡ ok kernel

  CompiledFor-MadeFor :
      (ksel : Selection T) (device : I.Device) (kernel : I.Compiled × KernelCompileConfig I)
      → PlainDevices I
      → CompiledFor I generate (codes "main") (cache_key I device ksel) kernel
      → MadeFor ksel device kernel
  unfolding cache_key
  CompiledFor-MadeFor ksel device kernel plain for =
      let (keys, types) =
        last_separator (selection_key T for.ksel) (selection_key T ksel) _ _
          (plain.no_colon for.device) (plain.no_colon device) for.same_key in
      record {
        of_device = for.device;
        of_ksel = for.ksel;
        same_type = types;
        same_key = keys;
        compiled = for.compiled;
      }

  -- A run, on the device that was chosen for the call's arguments, of a kernel made for it and for
  -- the call: what it is given stands for the arguments, and the output is what it gives back.
  pub record Ran (ksel : Selection T) (r : Runtime I) (output : Output I) : Type 0 where
    pub on : Target I
    pub kernel : I.Compiled
    pub args : List (Pushed I.Ref)
    pub refs : List I.Ref
    pub results : List T.Tensor
    pub chosen : (choose_device I ksel.arg_descs r.devices).0 ≡ ok (on.device, on.torch_device)
    pub made_for : MadeFor ksel on.device (kernel, on.config)
    pub passed : AllPassed I on ksel.arg_descs args
    pub invoked : I.invoke kernel args ≡ ok refs
    pub exported : AllExported I on refs 0 ksel.result_descs results
    pub returned : output ≡ output_of I results

  invoke_kernel-Ran :
      (ksel : Selection T) (r : Runtime I) (on : Target I) (kernel : I.Compiled) (output : Output I)
      → (choose_device I ksel.arg_descs r.devices).0 ≡ ok (on.device, on.torch_device)
      → MadeFor ksel on.device (kernel, on.config)
      → invoke_kernel I on kernel ksel ≡ ok output
      → Ran ksel r output
  unfolding invoke_kernel
  invoke_kernel-Ran ksel r on kernel output chosen made h =
      let (args, e, f) = bind-ok (push_args I on ksel.arg_descs) _ output h in
      elim (Bool-cases on.config.async_invocations) [
        | inl async ↦ let g = (rw async at f) in absurd (cc)
        | inr sync ↦
            let (refs, e1, f1) = bind-ok (I.invoke kernel args) _ output (rw sync at f) in
            let (results, e2, f2) =
              bind-ok (unpack_all I on.device refs 0 ksel.result_descs) _ output f1 in
            record {
              on = on;
              kernel = kernel;
              args = args;
              refs = refs;
              results = results;
              chosen = chosen;
              made_for = made;
              passed = push_args-AllPassed I on ksel.arg_descs args e;
              invoked = e1;
              exported = unpack_all-AllExported I on refs 0 ksel.result_descs results e2;
              returned = cc;
            }
      ]

  pub record Dispatched (ksel : Selection T) (r : Runtime I) (result : Result (Output I))
      (now : Runtime I) : Type 0 where
    pub still_sound : CacheIsSound I generate (codes "main") now.kernel_cache
    pub outputs : (output : Output I) → result ≡ ok output → Ran ksel r output

  -- If no device's type has a colon in its key, and each cached kernel was compiled for a
  -- selection and a device with the key that it stands under, the latter holds after an eager
  -- call too; and if the call returns, then a kernel that was compiled for a device of the type
  -- of the one chosen for the call, and for a selection with the call's key, was invoked on
  -- values that stand for the call's arguments on that device, in order, and the output is made
  -- of the buffers that came back, each exported as the result at its place.
  pub eager_dispatch-Dispatched :
      (ksel : Selection T) (r : Runtime I)
      → PlainDevices I
      → CacheIsSound I generate (codes "main") r.kernel_cache
      → let out = eager_dispatch I generate ksel r in Dispatched ksel r out.0 out.1
  unfolding eager_dispatch
  eager_dispatch-Dispatched ksel r plain h =
      elim (Result-cases ((choose_device I ksel.arg_descs r.devices).0)) [
        | inl (x, e) ↦
            rw (eager_dispatch, e) (record { still_sound = h; outputs = λ output f. absurd (cc) })
        | inr ((device, torch_device), e) ↦
            let served = compile-Serves I generate (codes "main") device ksel r.kernel_cache h in
            elim (Result-cases (
              (compile_standalone_kernel I generate device ksel (codes "main") r.kernel_cache).0)) [
                | inl (x, f) ↦
                    rw (eager_dispatch, e, f)
                      (record {
                        still_sound = served.still_sound;
                        outputs = λ output g. absurd (cc);
                      })
                | inr ((kernel, config), f) ↦
                    rw (eager_dispatch, e, f)
                      (record {
                        still_sound = served.still_sound;
                        outputs = λ output g.
                            invoke_kernel-Ran ksel r
                              (record {
                                device = device;
                                torch_device = torch_device;
                                config = config;
                              })
                              kernel output e
                              (CompiledFor-MadeFor ksel device (kernel, config) plain
                                (served.returned_for (kernel, config) f))
                              g;
                      })
              ]
      ]
