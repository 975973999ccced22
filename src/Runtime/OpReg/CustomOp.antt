-- ===== src/Runtime/OpReg/CustomOp.antt =====
-- op_reg/base.py, CustomOp: the construction of a registered operator. A subclass gives its
-- signature; its methods `select` and `generate` are called later.
use shark_turbine.Common.{
  Bool, List, [], ◌∷◌, ◌++◌, some, Name, codes, if◌then◌else◌, ◌≡◌, refl, ◌≢◌, nat_key, list_key,
  eq_self, eq_ne, inl, inr,
}
use shark_turbine.Common.Exc.{Result, ok, err, Exec, Result-cases}
use shark_turbine.Common.Dict.{Dict, lookup, insert, lookup-insert}
use shark_turbine.Runtime.OpReg.Signature.{Torch, Registry, define_signature_in_library}

-- torch.library.Library
pub record Library : Type 0 where
  pub ns : Name
  pub kind : Name

-- def_library
abbrev pub def_library : Name → Library
def_library ns = record { ns = ns; kind = codes "DEF" }

abbrev pub default_dispatch_keys : List Name
default_dispatch_keys = codes "CPU" ∷ []

-- The parameter `dispatch_key`: None, a text, or a sequence of texts.
pub data DispatchKey : Type 0 where
  no_key : DispatchKey
  one_key : Name → DispatchKey
  many_keys : List Name → DispatchKey

unfoldable pub dispatch_keys : DispatchKey → List Name
dispatch_keys no_key = default_dispatch_keys
dispatch_keys (one_key k) = k ∷ []
dispatch_keys (many_keys ks) = ks

module _ (T : Torch) where
  pub record CustomOp : Type 0 where
    pub name : Name
    pub library : Library
    pub cache_key_base : Name
    pub op : T.Op

  -- The registry, and ALL_CUSTOM_OP_REGS.
  pub record Ops : Type 0 where
    pub registry : Registry T
    pub all_custom_op_regs : Dict Name CustomOp

  -- library.impl(name, …, k) for each of the keys.
  unfoldable pub impl_all : Name → Name → List Name → Exec T.State (Unit {0})
  impl_all ns name [] s = (ok tt, s)
  impl_all ns name (k ∷ ks) s =
      let out = T.impl ns name k s in
      elim out.0 [ err e ↦ (err e, out.1) | ok _ ↦ impl_all ns name ks out.1 ]

  unfoldable pub fq_name : Library → Name → Name
  fq_name library name = library.ns ++ (codes "." ++ name)

  unfoldable pub cache_key_of : Library → Name → Name
  cache_key_of library name = library.ns ++ (codes "." ++ (library.kind ++ (codes "::" ++ name)))

  unfoldable pub new_op : Library → Name → T.Op → CustomOp
  new_op library name op = record {
    name = name;
    library = library;
    cache_key_base = cache_key_of library name;
    op = op;
  }

  -- What the constructor registers, key after key.
  unfoldable pub impl_keys : DispatchKey → (register_meta register_impl : Bool) → List Name
  impl_keys keys register_meta register_impl =
      (if register_meta then codes "Meta" ∷ [] else [])
      ++ (if register_impl then dispatch_keys keys else [])

  -- The constructor behind the definition of the name.
  unfoldable pub register_impls :
      Library → DispatchKey → (register_meta register_impl : Bool) → Name → Exec Ops CustomOp
  register_impls library keys register_meta register_impl name s =
      elim (T.get_op library.ns name (s.registry).libraries) [
        | err e ↦ (err e, s)
        | ok op ↦
            let self = new_op library name op in
            let out =
              impl_all library.ns name (impl_keys keys register_meta register_impl)
                (s.registry).libraries in
            let registry = record (s.registry) { libraries = out.1 } in
            elim out.0 [
              | err e ↦ (err e, record s { registry = registry })
              | ok _ ↦ (
                ok self,
                record {
                  registry = registry;
                  all_custom_op_regs = insert (fq_name library name) self s.all_custom_op_regs;
                },
              )
            ]
      ]

  -- CustomOp.__init__, with the class's signature.
  unfoldable pub init :
      Library
      → (signature : Name) → DispatchKey
      → (register_meta register_impl : Bool) → Exec Ops CustomOp
  init library signature keys register_meta register_impl s =
      let out = define_signature_in_library T library.ns signature s.registry in
      let defined = record s { registry = out.1 } in
      elim out.0 [
        | err e ↦ (err e, defined)
        | ok name ↦ register_impls library keys register_meta register_impl name defined
      ]

  -- What the table of operators is after the constructor: an operator that it returns stands under
  -- its name and no other entry has changed; a failure leaves the table.
  abbrev pub Registers :
      Library → Dict Name CustomOp → Result CustomOp → Dict Name CustomOp → Type 0
  Registers library before (err e) now = now ≡ before
  Registers library before (ok self) now =
      (self.library ≡ library)
      × (lookup (fq_name library self.name) now ≡ some self)
      × ((k : Name) → k ≢ fq_name library self.name → lookup k now ≡ lookup k before)

  Registers-insert :
      (library : Library) (self : CustomOp) (before : Dict Name CustomOp)
      → self.library ≡ library
      → Registers library before (ok self) (insert (fq_name library self.name) self before)
  Registers-insert library self before e =
      let key = fq_name library self.name in
      (
        e,
        rw (lookup-insert key key self before, eq_self key) refl,
        λ k ne. rw (lookup-insert key k self before, eq_ne k key ne) refl,
      )

  register_impls-Registers :
      (library : Library) (keys : DispatchKey) (register_meta register_impl : Bool) (name : Name)
      (s : Ops)
      → let out = register_impls library keys register_meta register_impl name s in
        Registers library s.all_custom_op_regs out.0 (out.1).all_custom_op_regs
  unfolding register_impls new_op
  register_impls-Registers library keys m i name s =
      elim (Result-cases (T.get_op library.ns name (s.registry).libraries)) [
        | inl (x, e) ↦ rw (register_impls, e) refl
        | inr (op, e) ↦
            elim (Result-cases
              ((impl_all library.ns name (impl_keys keys m i) (s.registry).libraries).0)) [
                | inl (x, f) ↦ rw (register_impls, e, f) refl
                | inr (x, f) ↦
                    rw (register_impls, e, f) (Registers-insert library _ s.all_custom_op_regs refl)
              ]
      ]

  -- If the construction of an operator returns, the operator stands in the table under its
  -- qualified name and the other entries are as before; if it raises, the table is as before.
  pub init-Registers :
      (library : Library) (signature : Name) (keys : DispatchKey)
      (register_meta register_impl : Bool) (s : Ops)
      → let out = init library signature keys register_meta register_impl s in
        Registers library s.all_custom_op_regs out.0 (out.1).all_custom_op_regs
  unfolding init
  init-Registers library signature keys m i s =
      elim (Result-cases ((define_signature_in_library T library.ns signature s.registry).0)) [
        | inl (x, e) ↦ rw (init, e) refl
        | inr (name, e) ↦ rw (init, e) (register_impls-Registers library keys m i name _)
      ]
