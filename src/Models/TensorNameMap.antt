-- ===== src/Models/TensorNameMap.antt =====
-- models/turbine_models/custom_models/remap_gguf.py: the constructor of TensorNameMap, which builds
-- the map from an architecture's own tensor names to those of GGUF files.
pub mod Entries
pub mod Complete
pub mod Formats
use Prim.Native.String.{String}
use shark_turbine.Common.{
  ℕ, zero, suc, ◌+◌, Bool, true, false, ◌||◌, List, [], ◌∷◌, ◌++◌, Option, none, some, Name, codes,
  Key, list_key, nat_key, ◌==◌, if◌then◌else◌, nat_beq,
}
use shark_turbine.Common.Exc.{Result, ok, err, key_error, ◌>>=◌, ◌>>◌}
use shark_turbine.Common.Dict.{Dict, lookup, insert}
use shark_turbine.Common.Decimal.{show_nat}
use shark_turbine.Models.Names.{
  ModelArch, ModelTensor, Template, text, field, tensor_value, model_arch_names, tensor_names,
  model_tensors,
}
use shark_turbine.Models.Mappings.{mappings_cfg, block_mappings_cfg}

-- `tensor in tensors`
unfoldable pub is_in : ModelTensor → List ModelTensor → Bool
is_in tensor [] = false
is_in tensor (t ∷ tensors) = nat_beq (tensor_value tensor) (tensor_value t) || is_in tensor tensors

-- A table's entry for an architecture.
unfoldable pub get : {V : Type 0} → String → List (String × V) → Option V
get name [] = none
get name ((k, v) ∷ d) = if codes name == codes k then some v else get name d

-- The name as it is written, for a tensor that is formatted nowhere.
unfoldable pub raw : Template → Name
raw [] = []
raw (text s ∷ t) = codes s ++ raw t
raw (field f ∷ t) = codes "{" ++ (codes f ++ (codes "}" ++ raw t))

-- `template.format(bid=bid)`: a field of another name is missing.
unfoldable pub format : Template → ℕ → Result Name
format [] bid = ok []
format (text s ∷ t) bid = do rest ← format t bid; ok (codes s ++ rest)
format (field f ∷ t) bid = do
  rest ← format t bid
  if codes f == codes "bid" then ok (show_nat bid ++ rest) else err key_error

-- The first loop's body, and the loop.
unfoldable pub top_entry :
    ModelArch → ModelTensor → List (String × String) → Dict Name Name → Dict Name Name
top_entry arch tensor tensor_dict mapping = elim (is_in tensor (model_tensors arch)) [
  | false ↦ mapping
  | true ↦ elim (get (model_arch_names arch) tensor_dict) [
    | none ↦ mapping
    | some name ↦ insert (codes name) (raw (tensor_names tensor)) mapping
  ]
]

unfoldable pub top_loop :
    ModelArch → List (ModelTensor × List (String × String)) → Dict Name Name → Dict Name Name
top_loop arch [] mapping = mapping
top_loop arch ((tensor, tensor_dict) ∷ cfg) mapping =
    top_loop arch cfg (top_entry arch tensor tensor_dict mapping)

-- The second loop's body for one tensor: the GGUF name is formatted first.
unfoldable pub block_entry :
    ModelArch
    → ℕ
    → ModelTensor
    → List (String × Template)
    → Dict Name Name
    → Result (Dict Name Name)
block_entry arch bid tensor tensor_dict mapping = elim (is_in tensor (model_tensors arch)) [
  | false ↦ ok mapping
  | true ↦ format (tensor_names tensor) bid >>= λ gguf_tensor_name.
      elim (get (model_arch_names arch) tensor_dict) [
        | none ↦ ok mapping
        | some template ↦ format template bid >>= λ name. ok (insert name gguf_tensor_name mapping)
      ]
]

unfoldable pub block_loop :
    ModelArch
    → ℕ
    → List (ModelTensor × List (String × Template))
    → Dict Name Name
    → Result (Dict Name Name)
block_loop arch bid [] mapping = ok mapping
block_loop arch bid ((tensor, tensor_dict) ∷ cfg) mapping =
    block_entry arch bid tensor tensor_dict mapping >>= block_loop arch bid cfg

-- for bid in range(bid, bid + count)
unfoldable pub blocks_loop : ModelArch → ℕ → ℕ → Dict Name Name → Result (Dict Name Name)
blocks_loop arch bid zero mapping = ok mapping
blocks_loop arch bid (suc count) mapping =
    block_loop arch bid block_mappings_cfg mapping >>= blocks_loop arch (suc bid) count

-- TensorNameMap(arch, n_blocks), by its field `mapping`
unfoldable pub tensor_name_map : ModelArch → ℕ → Result (Dict Name Name)
tensor_name_map arch n_blocks = blocks_loop arch 0 n_blocks (top_loop arch mappings_cfg [])
