-- ===== src/Runtime/OpReg/Dispatch/Cache.antt =====
-- op_reg/compiler.py: what the cache of kernels holds.
use shark_turbine.Common.{
  ◌≡◌, refl, sym, ap, ◌∙◌, subst, some, Name, inl, inr, Option-cases, eq_self, list_key, nat_key,
  ◌==◌, Bool-cases, list_beq_iff,
}
use shark_turbine.Common.Exc.{Result, ok, Result-cases}
use shark_turbine.Common.Dict.{lookup, insert, lookup-insert}
use shark_turbine.Runtime.OpReg.Descriptors.{Tensors}
use shark_turbine.Runtime.OpReg.Selection.{Selection}
use shark_turbine.Runtime.OpReg.Builder.{Mlir, Builder}
use shark_turbine.Runtime.OpReg.Dispatch.{
  Iree, KernelCompileConfig, KernelCache, cache_key, compile_kernel, compile_standalone_kernel,
}

module _ {T : Tensors} {M : Mlir} (I : Iree T M)
    (generate : Selection T → Builder T M → Result (Builder T M)) (func_name : Name) where
  -- A kernel that was compiled for a device and a selection with the key.
  pub record CompiledFor (key : Name) (kernel : I.Compiled × KernelCompileConfig I) : Type 0 where
    pub device : I.Device
    pub ksel : Selection T
    pub same_key : cache_key I device ksel ≡ key
    pub compiled : compile_kernel I generate device ksel func_name ≡ ok kernel

  pub record CacheIsSound (cache : KernelCache I) : Type 0 where
    pub sound :
        (key : Name) (kernel : I.Compiled × KernelCompileConfig I)
        → lookup key cache ≡ some kernel
        → CompiledFor key kernel

  CacheIsSound-insert :
      (key : Name) (kernel : I.Compiled × KernelCompileConfig I) (cache : KernelCache I)
      → CompiledFor key kernel
      → CacheIsSound cache
      → CacheIsSound (insert key kernel cache)
  CacheIsSound-insert key kernel cache for h = record {
    sound = λ j found e. elim (Bool-cases (j == key)) [
      | inl same ↦
          let f = (rw (lookup-insert key j kernel cache, same) at e) in
          let at_key = (list_beq_iff j key).0 same in
          subst (λ k. CompiledFor k found) (sym at_key) (subst (CompiledFor key) (cc) for)
      | inr other ↦ h.sound j found (rw (lookup-insert key j kernel cache, other) at e)
    ];
  }

  -- What a call leaves: a sound cache, and under the call's key the kernel that it returns.
  pub record Serves (key : Name) (result : Result (I.Compiled × KernelCompileConfig I))
      (now : KernelCache I) : Type 0 where
    pub still_sound : CacheIsSound now
    pub returned_for :
        (kernel : I.Compiled × KernelCompileConfig I) → result ≡ ok kernel → CompiledFor key kernel
    pub cached :
        (kernel : I.Compiled × KernelCompileConfig I)
        → result ≡ ok kernel
        → lookup key now ≡ some kernel

  pub compile-Serves :
      (device : I.Device) (ksel : Selection T) (cache : KernelCache I)
      → CacheIsSound cache
      → let out = compile_standalone_kernel I generate device ksel func_name cache in
        Serves (cache_key I device ksel) out.0 out.1
  unfolding compile_standalone_kernel
  compile-Serves device ksel cache h =
      elim (Option-cases (lookup (cache_key I device ksel) cache)) [
        | inr (hit, e) ↦
            rw (compile_standalone_kernel, e)
              (record {
                still_sound = h;
                returned_for = λ kernel f. h.sound _ kernel (e ∙ ap some (cc));
                cached = λ kernel f. e ∙ ap some (cc);
              })
        | inl e ↦ elim (Result-cases (compile_kernel I generate device ksel func_name)) [
          | inl (x, f) ↦
              rw (compile_standalone_kernel, e, f)
                (record {
                  still_sound = h;
                  returned_for = λ kernel g. absurd (cc);
                  cached = λ kernel g. absurd (cc);
                })
          | inr (kernel, f) ↦
              let for : CompiledFor (cache_key I device ksel) kernel = record {
                device = device;
                ksel = ksel;
                same_key = refl;
                compiled = f;
              } in
              let key = cache_key I device ksel in
              rw (compile_standalone_kernel, e, f)
                (record {
                  still_sound = CacheIsSound-insert key kernel cache for h;
                  returned_for = λ k g. subst (CompiledFor key) (cc) for;
                  cached =
                      λ k g. rw (lookup-insert key key kernel cache, eq_self key) (ap some (cc));
                })
        ]
      ]

  compile_hit :
      (device : I.Device) (ksel : Selection T) (kernel : I.Compiled × KernelCompileConfig I)
      (cache : KernelCache I)
      → lookup (cache_key I device ksel) cache ≡ some kernel
      → compile_standalone_kernel I generate device ksel func_name cache ≡ (ok kernel, cache)
  unfolding compile_standalone_kernel
  compile_hit device ksel kernel cache e = rw (compile_standalone_kernel, e) refl

  -- A selection with the key of an earlier one, on any device with that key, is served from the
  -- cache.
  pub compile_again :
      (device other : I.Device) (ksel again : Selection T)
      (kernel : I.Compiled × KernelCompileConfig I) (cache : KernelCache I)
      → CacheIsSound cache
      → cache_key I other again ≡ cache_key I device ksel
      → let out = compile_standalone_kernel I generate device ksel func_name cache in
        out.0 ≡ ok kernel
        → compile_standalone_kernel I generate other again func_name out.1 ≡ (ok kernel, out.1)
  compile_again device other ksel again kernel cache h same made =
      let out = compile_standalone_kernel I generate device ksel func_name cache in
      let hit = (compile-Serves device ksel cache h).cached kernel made in
      compile_hit other again kernel out.1 (ap (λ k. lookup k out.1) same ∙ hit)
