-- ===== src/Models/TensorNameMap/Complete.antt =====
-- custom_models/remap_gguf.py: the keys that the loops leave in the map.
use Prim.Native.String.{String}
use shark_turbine.Common.{
  ℕ, zero, suc, ◌+◌, ◌<◌, ◌≤◌, ◌≡◌, refl, ◌∙◌, true, List, [], ◌∷◌, some, Name, codes, list_key,
  nat_key, ◌==◌, inl, inr, Bool-cases, eq_self, subst, arith, nat_beq, nat_beq_iff,
}
use shark_turbine.Common.Exc.{Result, ok, err, ◌>>=◌}
use shark_turbine.Common.Dict.{Dict, lookup, insert, lookup-insert}
use shark_turbine.Models.Names.{
  ModelArch, ModelTensor, Template, model_tensors, model_arch_names, tensor_names,
}
use shark_turbine.Models.Mappings.{mappings_cfg, block_mappings_cfg}
use shark_turbine.Models.TensorNameMap.{
  is_in, get, raw, format, top_entry, top_loop, block_entry, block_loop, blocks_loop,
  tensor_name_map,
}
use shark_turbine.Models.TensorNameMap.Entries.{
  In, IsEntry, top, block, OfOk, OfOk-bind, top_loop_keeps, OfOk-block_loop, OfOk-blocks_loop,
}

abbrev Has : Name → Dict Name Name → Type 0
Has k m = (v : Name) × (lookup k m ≡ some v)

Has-insert : (j k v : Name) (m : Dict Name Name) → Unit {0} → Has j m → Has j (insert k v m)
Has-insert j k v m _ (w, e) = elim (Bool-cases (j == k)) [
  | inl same ↦ (v, lookup-insert k j v m ∙ rw same refl)
  | inr other ↦ (w, lookup-insert k j v m ∙ rw other e)
]

Has-insert_self : (k v : Name) (m : Dict Name Name) → Has k (insert k v m)
Has-insert_self k v m = (v, lookup-insert k k v m ∙ rw (eq_self k) refl)

abbrev Any : Name → Name → Type 0
Any k v = Unit

abbrev HasOk : Name → Result (Dict Name Name) → Type 0
HasOk k = OfOk Any (Has k) (Has-insert k)

HasOk-any :
    (k : Name) (r : Result (Dict Name Name)) (f : Dict Name Name → Result (Dict Name Name))
    → ((m : Dict Name Name) → HasOk k (f m))
    → HasOk k (r >>= f)
HasOk-any k (err e) f h = tt
HasOk-any k (ok m) f h = h m

module _ (arch : ModelArch) where
  Has-top_loop :
      (tensor : ModelTensor) (d : List (String × String)) (name : String)
      (cfg : List (ModelTensor × List (String × String))) (m : Dict Name Name)
      → In (tensor, d) cfg
      → is_in tensor (model_tensors arch) ≡ true
      → get (model_arch_names arch) d ≡ some name
      → Has (codes name) (top_loop arch cfg m)
  unfolding top_loop top_entry
  Has-top_loop tensor d name [] m i here e = absurd i
  Has-top_loop tensor d name ((t, c) ∷ cfg) m (inl same) here e =
      subst (λ x. Has (codes name) (top_loop arch cfg (top_entry arch x.0 x.1 m))) same
        (top_loop_keeps Any (Has (codes name)) (Has-insert (codes name)) arch cfg
          (top_entry arch tensor d m) (λ _ _ _ _ _ _. tt)
          (rw (top_entry, here, e) (Has-insert_self (codes name) (raw (tensor_names tensor)) m)))
  Has-top_loop tensor d name ((t, c) ∷ cfg) m (inr i) here e =
      Has-top_loop tensor d name cfg (top_entry arch t c m) i here e

  HasOk-block_loop :
      (bid : ℕ) (tensor : ModelTensor) (d : List (String × Template)) (template : Template)
      (k v : Name) (cfg : List (ModelTensor × List (String × Template))) (m : Dict Name Name)
      → In (tensor, d) cfg
      → is_in tensor (model_tensors arch) ≡ true
      → get (model_arch_names arch) d ≡ some template
      → format template bid ≡ ok k
      → format (tensor_names tensor) bid ≡ ok v
      → HasOk k (block_loop arch bid cfg m)
  unfolding block_loop block_entry
  HasOk-block_loop bid tensor d template k v [] m i here e g f = absurd i
  HasOk-block_loop bid tensor d template k v ((t, c) ∷ cfg) m (inl same) here e g f =
      subst (λ x. HasOk k (block_entry arch bid x.0 x.1 m >>= block_loop arch bid cfg)) same
        (OfOk-bind Any (Has k) (Has-insert k) (block_entry arch bid tensor d m)
          (block_loop arch bid cfg) (rw (block_entry, here, f, e, g) (Has-insert_self k v m))
          λ m' h'.
            OfOk-block_loop Any (Has k) (Has-insert k) arch bid cfg m' (λ _ _ _ _ _ _ _ _ _ _. tt)
              h')
  HasOk-block_loop bid tensor d template k v ((t, c) ∷ cfg) m (inr i) here e g f =
      HasOk-any k (block_entry arch bid t c m) (block_loop arch bid cfg)
        λ m'. HasOk-block_loop bid tensor d template k v cfg m' i here e g f

  HasOk-blocks_loop :
      (bid : ℕ) (tensor : ModelTensor) (d : List (String × Template)) (template : Template)
      (k v : Name) (first count : ℕ) (m : Dict Name Name)
      → first ≤ bid
      → bid < first + count
      → In (tensor, d) block_mappings_cfg
      → is_in tensor (model_tensors arch) ≡ true
      → get (model_arch_names arch) d ≡ some template
      → format template bid ≡ ok k
      → format (tensor_names tensor) bid ≡ ok v
      → HasOk k (blocks_loop arch first count m)
  unfolding blocks_loop
  HasOk-blocks_loop bid tensor d template k v first zero m lo hi i here e g f =
      absurd (omega (arith, lo, hi))
  HasOk-blocks_loop bid tensor d template k v first (suc count) m lo hi i here e g f =
      elim (Bool-cases (nat_beq bid first)) [
        | inl same ↦
            let at : bid ≡ first = (nat_beq_iff bid first).0 same in
            OfOk-bind Any (Has k) (Has-insert k) (block_loop arch first block_mappings_cfg m)
              (blocks_loop arch (suc first) count)
              (subst (λ b. HasOk k (block_loop arch b block_mappings_cfg m)) at
                (HasOk-block_loop bid tensor d template k v block_mappings_cfg m i here e g f))
              λ m' h'.
                OfOk-blocks_loop Any (Has k) (Has-insert k) arch (suc first) count m' (λ _ _ _. tt)
                  h'
        | inr other ↦
            HasOk-any k (block_loop arch first block_mappings_cfg m)
              (blocks_loop arch (suc first) count)
              λ m'.
                HasOk-blocks_loop bid tensor d template k v (suc first) count m'
                  (ground (arith, other, lo)) (omega (arith, hi)) i here e g f
      ]

-- A tensor name map that was built has a key for every entry that the tables describe for the
-- architecture and the number of blocks.
pub IsEntry-tensor_name_map :
    (arch : ModelArch) (n_blocks : ℕ) (mapping : Dict Name Name) (k v : Name)
    → tensor_name_map arch n_blocks ≡ ok mapping
    → IsEntry arch n_blocks k v
    → (w : Name) × (lookup k mapping ≡ some w)
unfolding tensor_name_map
IsEntry-tensor_name_map arch n mapping k v built entry = subst (HasOk k) built (all entry)
  where
    all :
        {k v : Name}
        → IsEntry arch n k v
        → HasOk k (blocks_loop arch 0 n (top_loop arch mappings_cfg []))
    all (top {tensor} {d} {name} i here e) =
        OfOk-blocks_loop Any (Has (codes name)) (Has-insert (codes name)) arch 0 n
          (top_loop arch mappings_cfg []) (λ _ _ _. tt)
          (Has-top_loop arch tensor d name mappings_cfg [] i here e)
    all (block {bid} {tensor} {d} {template} {k} {v} lt i here e g f) =
        HasOk-blocks_loop arch bid tensor d template k v 0 n (top_loop arch mappings_cfg [])
          (omega arith) (omega (arith, lt)) i here e g f
