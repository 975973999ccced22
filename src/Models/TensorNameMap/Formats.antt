-- ===== src/Models/TensorNameMap/Formats.antt =====
-- custom_models/remap_gguf.py: building the map of each architecture.
use shark_turbine.Common.{ℕ, zero, suc, ◌≡◌, refl, Name, list_key, nat_key, ◌≢◌}
use shark_turbine.Common.Exc.{ok, err, key_error}
use shark_turbine.Common.Dict.{Dict}
use shark_turbine.Models.Names.{
  ModelArch, llama, falcon, baichuan, gpt2, gptj, gptneox, mpt, starcoder, persimmon, refact, bert,
  bloom,
}
use shark_turbine.Models.Mappings.{block_mappings_cfg}
use shark_turbine.Models.TensorNameMap.{
  is_in, get, format, block_entry, block_loop, blocks_loop, tensor_name_map,
}

-- One round for a block succeeds, for all architectures but one.
block_loop-ok :
    (arch : ModelArch) (bid : ℕ) (mapping : Dict Name Name)
    → arch ≢ refact
    → (m : Dict Name Name) × (block_loop arch bid block_mappings_cfg mapping ≡ ok m)
unfolding block_loop block_entry format get is_in
block_loop-ok llama bid mapping h = (_, refl)
block_loop-ok falcon bid mapping h = (_, refl)
block_loop-ok baichuan bid mapping h = (_, refl)
block_loop-ok gpt2 bid mapping h = (_, refl)
block_loop-ok gptj bid mapping h = (_, refl)
block_loop-ok gptneox bid mapping h = (_, refl)
block_loop-ok mpt bid mapping h = (_, refl)
block_loop-ok starcoder bid mapping h = (_, refl)
block_loop-ok persimmon bid mapping h = (_, refl)
block_loop-ok bert bid mapping h = (_, refl)
block_loop-ok bloom bid mapping h = (_, refl)
block_loop-ok refact bid mapping h = absurd (h refl)

block_loop-refact :
    (bid : ℕ) (mapping : Dict Name Name)
    → block_loop refact bid block_mappings_cfg mapping ≡ err key_error
unfolding block_loop block_entry format get is_in
block_loop-refact bid mapping = refl

blocks_loop-ok :
    (arch : ModelArch) (bid count : ℕ) (mapping : Dict Name Name)
    → arch ≢ refact
    → (m : Dict Name Name) × (blocks_loop arch bid count mapping ≡ ok m)
unfolding blocks_loop
blocks_loop-ok arch bid zero mapping h = (mapping, refl)
blocks_loop-ok arch bid (suc count) mapping h =
    let (m, e) = block_loop-ok arch bid mapping h in
    let (m', e') = blocks_loop-ok arch (suc bid) count m h in (m', rw e e')

-- The tensor name map of every architecture but REFACT can be built for any number of blocks;
-- that of REFACT with at least one block raises KeyError.
pub tensor_name_map_lem :
    (arch : ModelArch) (n_blocks : ℕ)
    → (arch ≢ refact → (m : Dict Name Name) × (tensor_name_map arch n_blocks ≡ ok m))
      × (tensor_name_map refact (suc n_blocks) ≡ err key_error)
unfolding tensor_name_map blocks_loop
tensor_name_map_lem arch n_blocks =
    (λ h. blocks_loop-ok arch 0 n_blocks _ h, rw (block_loop-refact 0) refl)
