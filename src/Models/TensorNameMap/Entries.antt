-- ===== src/Models/TensorNameMap/Entries.antt =====
-- custom_models/remap_gguf.py: what stands in the map.
use Prim.Native.String.{String}
use shark_turbine.Common.{
  ℕ, zero, suc, ◌+◌, ◌<◌, ◌≡◌, refl, sym, ◌∙◌, true, List, [], ◌∷◌, some, Name, codes, list_key,
  nat_key, ◌==◌, ◌⊎◌, inl, inr, Bool-cases, Option-cases, subst, arith,
}
use shark_turbine.Common.Exc.{Result, ok, err, ◌>>=◌, Result-cases}
use shark_turbine.Common.Dict.{Dict, lookup, insert, lookup-insert}
use shark_turbine.Models.Names.{
  ModelArch, ModelTensor, Template, model_tensors, model_arch_names, tensor_names,
}
use shark_turbine.Models.Mappings.{mappings_cfg, block_mappings_cfg}
use shark_turbine.Models.TensorNameMap.{
  is_in, get, raw, format, top_entry, top_loop, block_entry, block_loop, blocks_loop,
  tensor_name_map,
}

abbrev pub In : {A : Type 0} → A → List A → Type 0
In x [] = ⊥
In x (y ∷ ys) = (x ≡ y) ⊎ In x ys

-- The entries that the tables describe for an architecture with `n` blocks.
pub data IsEntry (arch : ModelArch) (n : ℕ) : Name → Name → Type 0 where
  top :
      {tensor : ModelTensor} {d : List (String × String)} {name : String}
      → In (tensor, d) mappings_cfg
      → is_in tensor (model_tensors arch) ≡ true
      → get (model_arch_names arch) d ≡ some name
      → IsEntry arch n (codes name) (raw (tensor_names tensor))
  block :
      {bid : ℕ} {tensor : ModelTensor} {d : List (String × Template)} {template : Template}
      {k v : Name}
      → bid < n
      → In (tensor, d) block_mappings_cfg
      → is_in tensor (model_tensors arch) ≡ true
      → get (model_arch_names arch) d ≡ some template
      → format template bid ≡ ok k
      → format (tensor_names tensor) bid ≡ ok v
      → IsEntry arch n k v

some_injective : {A : Type 0} (a b : A) → some a ≡ some b → a ≡ b
some_injective a b h = cc

-- A property of maps that the insertion of an entry keeps is kept by the loops.
module _ (P : Name → Name → Type 0) (Q : Dict Name Name → Type 0)
    (insert_keeps : (k v : Name) (m : Dict Name Name) → P k v → Q m → Q (insert k v m)) where
  abbrev pub OfOk : Result (Dict Name Name) → Type 0
  OfOk (err e) = Unit
  OfOk (ok m) = Q m

  pub OfOk-bind :
      (r : Result (Dict Name Name)) (k : Dict Name Name → Result (Dict Name Name))
      → OfOk r
      → ((m : Dict Name Name) → Q m → OfOk (k m))
      → OfOk (r >>= k)
  OfOk-bind (err e) k h f = tt
  OfOk-bind (ok m) k h f = f m h

  module _ (arch : ModelArch) where
    top_entry_keeps :
        (tensor : ModelTensor) (d : List (String × String)) (m : Dict Name Name)
        → (is_in tensor (model_tensors arch) ≡ true
            → (name : String) → get (model_arch_names arch) d ≡ some name
            → P (codes name) (raw (tensor_names tensor)))
        → Q m
        → Q (top_entry arch tensor d m)
    unfolding top_entry
    top_entry_keeps tensor d m p h = elim (Bool-cases (is_in tensor (model_tensors arch))) [
      | inr out ↦ rw (top_entry, out) h
      | inl here ↦ elim (Option-cases (get (model_arch_names arch) d)) [
        | inl e ↦ rw (top_entry, here, e) h
        | inr (name, e) ↦
            rw (top_entry, here, e)
              (insert_keeps (codes name) (raw (tensor_names tensor)) m (p here name e) h)
      ]
    ]

    pub top_loop_keeps :
        (cfg : List (ModelTensor × List (String × String))) (m : Dict Name Name)
        → ((tensor : ModelTensor) (d : List (String × String)) (name : String)
            → In (tensor, d) cfg
            → is_in tensor (model_tensors arch) ≡ true
            → get (model_arch_names arch) d ≡ some name
            → P (codes name) (raw (tensor_names tensor)))
        → Q m
        → Q (top_loop arch cfg m)
    unfolding top_loop
    top_loop_keeps [] m p h = h
    top_loop_keeps ((tensor, d) ∷ cfg) m p h =
        top_loop_keeps cfg (top_entry arch tensor d m) (λ t c name i. p t c name (inr i))
          (top_entry_keeps tensor d m (λ here name e. p tensor d name (inl refl) here e) h)

    OfOk-block_entry :
        (bid : ℕ) (tensor : ModelTensor) (d : List (String × Template)) (m : Dict Name Name)
        → (is_in tensor (model_tensors arch) ≡ true
            → (template : Template) (k v : Name) → get (model_arch_names arch) d ≡ some template
            → format template bid ≡ ok k
            → format (tensor_names tensor) bid ≡ ok v
            → P k v)
        → Q m
        → OfOk (block_entry arch bid tensor d m)
    unfolding block_entry
    OfOk-block_entry bid tensor d m p h = elim (Bool-cases (is_in tensor (model_tensors arch))) [
      | inr out ↦ rw (block_entry, out) h
      | inl here ↦ elim (Result-cases (format (tensor_names tensor) bid)) [
        | inl (x, f) ↦ rw (block_entry, here, f) tt
        | inr (v, f) ↦ elim (Option-cases (get (model_arch_names arch) d)) [
          | inl e ↦ rw (block_entry, here, f, e) h
          | inr (template, e) ↦ elim (Result-cases (format template bid)) [
            | inl (x, g) ↦ rw (block_entry, here, f, e, g) tt
            | inr (k, g) ↦
                rw (block_entry, here, f, e, g) (insert_keeps k v m (p here template k v e g f) h)
          ]
        ]
      ]
    ]

    pub OfOk-block_loop :
        (bid : ℕ) (cfg : List (ModelTensor × List (String × Template))) (m : Dict Name Name)
        → ((tensor : ModelTensor) (d : List (String × Template)) (template : Template) (k v : Name)
            → In (tensor, d) cfg
            → is_in tensor (model_tensors arch) ≡ true
            → get (model_arch_names arch) d ≡ some template
            → format template bid ≡ ok k
            → format (tensor_names tensor) bid ≡ ok v
            → P k v)
        → Q m
        → OfOk (block_loop arch bid cfg m)
    unfolding block_loop
    OfOk-block_loop bid [] m p h = h
    OfOk-block_loop bid ((tensor, d) ∷ cfg) m p h =
        OfOk-bind (block_entry arch bid tensor d m) (block_loop arch bid cfg)
          (OfOk-block_entry bid tensor d m
            (λ here template k v e g f. p tensor d template k v (inl refl) here e g f) h)
          λ m' h'. OfOk-block_loop bid cfg m' (λ t c template k v i. p t c template k v (inr i)) h'

  pub OfOk-blocks_loop :
      (arch : ModelArch) (bid count : ℕ) (m : Dict Name Name)
      → ((k v : Name) → IsEntry arch (bid + count) k v → P k v)
      → Q m
      → OfOk (blocks_loop arch bid count m)
  unfolding blocks_loop
  OfOk-blocks_loop arch bid zero m p h = h
  OfOk-blocks_loop arch bid (suc count) m p h =
      OfOk-bind (block_loop arch bid block_mappings_cfg m) (blocks_loop arch (suc bid) count)
        (OfOk-block_loop arch bid block_mappings_cfg m
          (λ tensor d template k v i here e g f. p k v (block (omega arith) i here e g f)) h)
        λ m' h'.
          OfOk-blocks_loop arch (suc bid) count m'
            (λ k v entry. p k v (subst (λ n. IsEntry arch n k v) (omega arith) entry)) h'

module _ (P : Name → Name → Type 0) where
  record Every (m : Dict Name Name) : Type 0 where
    every : (k v : Name) → lookup k m ≡ some v → P k v

  Every-insert : (k v : Name) (m : Dict Name Name) → P k v → Every m → Every (insert k v m)
  Every-insert k v m p h = record {
    every = λ j w e. elim (Bool-cases (j == k)) [
      | inl same ↦
          let is_w : some v ≡ some w = sym (lookup-insert k j v m ∙ rw same refl) ∙ e in
          subst (λ x. P x w) (sym ((list_key.same_iff j k).0 same))
            (subst (P k) (some_injective v w is_w) p)
      | inr other ↦ h.every j w (sym (lookup-insert k j v m ∙ rw other refl) ∙ e)
    ];
  }

-- Whatever stands in a tensor name map that was built is an entry that the tables describe: a
-- tensor of the architecture under its name there, with its GGUF name, formatted with the number
-- of one of the blocks if it is a block's.
pub tensor_name_map-IsEntry :
    (arch : ModelArch) (n_blocks : ℕ) (mapping : Dict Name Name) (k v : Name)
    → tensor_name_map arch n_blocks ≡ ok mapping
    → lookup k mapping ≡ some v
    → IsEntry arch n_blocks k v
unfolding tensor_name_map
tensor_name_map-IsEntry arch n mapping k v built e =
    let P = IsEntry arch n in
    let start : Every P (top_loop arch mappings_cfg []) =
      top_loop_keeps P (Every P) (Every-insert P) arch mappings_cfg []
        (λ tensor d name i here e. top i here e) (record { every = λ k v e. absurd (cc) }) in
    let all : OfOk P (Every P) (Every-insert P)
        (blocks_loop arch 0 n (top_loop arch mappings_cfg [])) =
      OfOk-blocks_loop P (Every P) (Every-insert P) arch 0 n (top_loop arch mappings_cfg [])
        (λ k v entry. subst (λ n. IsEntry arch n k v) (omega arith) entry) start in
    let every : OfOk P (Every P) (Every-insert P) (ok mapping) =
      subst (OfOk P (Every P) (Every-insert P)) built all in
    every.every k v e
