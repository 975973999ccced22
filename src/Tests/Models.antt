-- ===== src/Tests/Models.antt =====
-- models: the theorems at concrete architectures, and runs of the constructor.
use shark_turbine.Common.{◌≡◌, refl, [], Name, codes, list_key, nat_key, some, ◌≢◌}
use shark_turbine.Common.Exc.{Result, ok, err, key_error}
use shark_turbine.Common.Dict.{Dict, lookup}
use shark_turbine.Common.Decimal.{show_nat}
use shark_turbine.Models.Names.{llama, gptj, refact}
use shark_turbine.Models.TensorNameMap.{
  is_in, get, raw, format, top_entry, top_loop, block_entry, block_loop, blocks_loop,
  tensor_name_map,
}
use shark_turbine.Models.TensorNameMap.Entries.{IsEntry, tensor_name_map-IsEntry}
use shark_turbine.Models.TensorNameMap.Complete.{IsEntry-tensor_name_map}
use shark_turbine.Models.TensorNameMap.Formats.{tensor_name_map_lem}

abbrev or_empty : Result (Dict Name Name) → Dict Name Name
or_empty (ok m) = m
or_empty (err e) = []

abbrev llama_map : Dict Name Name
llama_map = or_empty (tensor_name_map llama 2)

llama_map-built : tensor_name_map llama 2 ≡ ok llama_map
unfolding tensor_name_map top_loop top_entry blocks_loop block_loop block_entry format raw get is_in
    show_nat
llama_map-built = refl

llama_query :
    lookup (codes "params.model.layers.1.self_attn.q_proj.weight") llama_map
    ≡ some (codes "blk.1.attn_q.weight")
unfolding tensor_name_map top_loop top_entry blocks_loop block_loop block_entry format raw get is_in
    show_nat
llama_query = refl

-- The tables have no entry under the name of GPTJ, so its map is empty.
gptj_test : tensor_name_map gptj 2 ≡ ok []
unfolding tensor_name_map top_loop top_entry blocks_loop block_loop block_entry format raw get is_in
    show_nat
gptj_test = refl

refact_ne : gptj ≢ refact
refact_ne h = cc

tensor_name_map_lem_example :
    (gptj ≢ refact → (m : Dict Name Name) × (tensor_name_map gptj 2 ≡ ok m))
    × (tensor_name_map refact 3 ≡ err key_error)
tensor_name_map_lem_example = tensor_name_map_lem gptj 2

tensor_name_map-IsEntry_example :
    IsEntry llama 2
      (codes "params.model.layers.1.self_attn.q_proj.weight")
      (codes "blk.1.attn_q.weight")
tensor_name_map-IsEntry_example =
    tensor_name_map-IsEntry llama 2 llama_map
      (codes "params.model.layers.1.self_attn.q_proj.weight") (codes "blk.1.attn_q.weight")
      llama_map-built llama_query

norm_query : lookup (codes "params.model.norm.weight") llama_map ≡ some (codes "output_norm.weight")
unfolding tensor_name_map top_loop top_entry blocks_loop block_loop block_entry format raw get is_in
    show_nat
norm_query = refl

norm-IsEntry : IsEntry llama 2 (codes "params.model.norm.weight") (codes "output_norm.weight")
norm-IsEntry =
    tensor_name_map-IsEntry llama 2 llama_map (codes "params.model.norm.weight")
      (codes "output_norm.weight") llama_map-built norm_query

IsEntry-tensor_name_map_example :
    (w : Name) × (lookup (codes "params.model.norm.weight") llama_map ≡ some w)
IsEntry-tensor_name_map_example =
    IsEntry-tensor_name_map llama 2 llama_map (codes "params.model.norm.weight")
      (codes "output_norm.weight") llama_map-built norm-IsEntry
