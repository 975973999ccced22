-- ===== src/Models/Mappings.antt =====
-- The two tables of the class TensorNameMap of models/turbine_models/custom_models/remap_gguf.py:
-- for each tensor, its name in the models of an architecture. A key that a literal has twice keeps
-- its last value.
use Prim.Native.String.{String}
use shark_turbine.Common.{List, [], ◌∷◌}
use shark_turbine.Models.Names.{
  ModelTensor, Template, text, field, token_embd, token_embd_norm, token_types, pos_embd, output,
  output_norm, rope_freqs, attn_q, attn_k, attn_v, attn_qkv, attn_out, attn_norm, attn_norm_2,
  attn_rot_embd, ffn_gate, ffn_down, ffn_up, ffn_norm,
}

abbrev pub mappings_cfg : List (ModelTensor × List (String × String))
mappings_cfg =
    (
      token_embd,
      ("gpt2", "transformer.wte")
          ∷ ("falcon", "transformer.word_embeddings")
          ∷ ("bloom", "word_embeddings")
          ∷ ("llama-hf", "params.model.embed_tokens.weight")
          ∷ ("llama-pth", "tok_embeddings")
          ∷ ("bert", "embeddings.word_embeddings")
          ∷ ("persimmon", "language_model.embedding.word_embeddings")
          ∷ [],
    )
    ∷ (token_types, ("bert", "embeddings.token_type_embeddings") ∷ [])
    ∷ (token_embd_norm, ("bloom", "word_embeddings_layernorm") ∷ [])
    ∷ (pos_embd, ("gpt2", "transformer.wpe") ∷ ("bert", "embeddings.position_embeddings") ∷ [])
    ∷ (
      output,
      ("gptneoz", "embed_out")
          ∷ ("gpt2", "params.lm_head.weight")
          ∷ ("mpt", "params.lm_head.weight")
          ∷ ("falcon", "params.lm_head.weight")
          ∷ ("llama-hf", "params.lm_head.weight")
          ∷ ("baichuan", "params.lm_head.weight")
          ∷ ("llama-pth", "output")
          ∷ ("persimmon", "word_embeddings_for_head")
          ∷ [],
    )
    ∷ (
      output_norm,
      ("gptneoz", "gpt_neox.final_layer_norm")
          ∷ ("gpt2", "transformer.ln_f")
          ∷ ("gpt-j", "transformer.ln_f")
          ∷ ("falcon", "transformer.ln_f")
          ∷ ("llama-hf", "params.model.norm.weight")
          ∷ ("baichuan", "params.model.norm.weight")
          ∷ ("llama-pth", "norm")
          ∷ ("bert", "embeddings.LayerNorm")
          ∷ ("mpt", "transformer.norm_f")
          ∷ ("refact", "ln_f")
          ∷ ("bloom", "ln_f")
          ∷ ("persimmon", "language_model.encoder.final_layernorm")
          ∷ [],
    )
    ∷ (rope_freqs, ("llama-pth", "params.model.rope.freqs") ∷ [])
    ∷ []

abbrev pub block_mappings_cfg : List (ModelTensor × List (String × Template))
block_mappings_cfg =
    (
      attn_norm,
      ("gptneox", text "gpt_neox.layers." ∷ field "bid" ∷ text ".input_layernorm" ∷ [])
          ∷ ("gpt2", text "transformer.h." ∷ field "bid" ∷ text ".ln_1" ∷ [])
          ∷ ("refact", text "transformer.h." ∷ field "bid" ∷ text ".ln_1" ∷ [])
          ∷ ("gpt2-j", text "transformer.h." ∷ field "bid" ∷ text ".ln_1" ∷ [])
          ∷ ("mpt", text "transformer.blocks." ∷ field "bid" ∷ text ".norm_1" ∷ [])
          ∷ ("falcon7b", text "transformer.h." ∷ field "bid" ∷ text ".input_layernorm" ∷ [])
          ∷ ("bloom", text "h." ∷ field "bid" ∷ text ".input_layernorm" ∷ [])
          ∷ ("falcon40b", text "transformer.h." ∷ field "bid" ∷ text ".ln_mlp" ∷ [])
          ∷ (
            "llama-hf",
            text "params.model.layers." ∷ field "bid" ∷ text ".input_layernorm.weight" ∷ [],
          )
          ∷ ("llama-pth", text "layers." ∷ field "bid" ∷ text ".attention_norm" ∷ [])
          ∷ ("bert", text "encoder.layer." ∷ field "bid" ∷ text ".attention.output.LayerNorm" ∷ [])
          ∷ (
            "persimmon",
            text "language_model.encoder.layers." ∷ field "bid" ∷ text ".input_layernorm" ∷ [],
          )
          ∷ [],
    )
    ∷ (attn_norm_2, ("falcon40b", text "transformer.h." ∷ field "bid" ∷ text ".ln_attn" ∷ []) ∷ [])
    ∷ (
      attn_qkv,
      ("gptneox", text "gpt_neox.layers." ∷ field "bid" ∷ text ".attention.query_key_value" ∷ [])
          ∷ ("mpt", text "transformer.h." ∷ field "bid" ∷ text ".attn.c_attn" ∷ [])
          ∷ (
            "falcon",
            text "transformer.h." ∷ field "bid" ∷ text ".self_attention.query_key_value" ∷ [],
          )
          ∷ ("bloom", text "h." ∷ field "bid" ∷ text ".self_attention.query_key_value" ∷ [])
          ∷ (
            "persimmon",
            text "language_model.encoder.layers."
                ∷ field "bid"
                ∷ text ".self_attention.query_key_value"
                ∷ [],
          )
          ∷ [],
    )
    ∷ (
      attn_q,
      ("llama-hf", text "params.model.layers." ∷ field "bid" ∷ text ".self_attn.q_proj.weight" ∷ [])
          ∷ ("llama-pth", text "layers." ∷ field "bid" ∷ text ".attention.wq" ∷ [])
          ∷ ("bert", text "encoder.layer." ∷ field "bid" ∷ text ".attention.self.query" ∷ [])
          ∷ ("gpt-j", text "transformer.h." ∷ field "bid" ∷ text ".attn.q_proj" ∷ [])
          ∷ [],
    )
    ∷ (
      attn_k,
      ("llama-hf", text "params.model.layers." ∷ field "bid" ∷ text ".self_attn.k_proj.weight" ∷ [])
          ∷ ("llama-pth", text "layers." ∷ field "bid" ∷ text ".attention.wk" ∷ [])
          ∷ ("bert", text "encoder.layer." ∷ field "bid" ∷ text ".attention.self.key" ∷ [])
          ∷ ("gpt-j", text "transformer.h." ∷ field "bid" ∷ text ".attn.k_proj" ∷ [])
          ∷ [],
    )
    ∷ (
      attn_v,
      ("llama-hf", text "params.model.layers." ∷ field "bid" ∷ text ".self_attn.v_proj.weight" ∷ [])
          ∷ ("llama-pth", text "layers." ∷ field "bid" ∷ text ".attention.wv" ∷ [])
          ∷ ("bert", text "encoder.layer." ∷ field "bid" ∷ text ".attention.self.value" ∷ [])
          ∷ ("gpt-j", text "transformer.h." ∷ field "bid" ∷ text ".attn.v_proj" ∷ [])
          ∷ [],
    )
    ∷ (
      attn_out,
      ("gptneox", text "gpt_neox.layers." ∷ field "bid" ∷ text ".attention.dense" ∷ [])
          ∷ ("gpt2", text "transformer.h." ∷ field "bid" ∷ text ".attn.c_proj" ∷ [])
          ∷ ("refact", text "transformer.h." ∷ field "bind" ∷ text ".attn.c_proj" ∷ [])
          ∷ ("mpt", text "transformer.blocks." ∷ field "bid" ∷ text ".attn.out_proj" ∷ [])
          ∷ ("falcon", text "transformer.h." ∷ field "bid" ∷ text ".self_attention.dense" ∷ [])
          ∷ ("bloom", text "h." ∷ field "bid" ∷ text ".self_attention.dense" ∷ [])
          ∷ (
            "llama-hf",
            text "params.model.layers." ∷ field "bid" ∷ text ".self_attn.o_proj.weight" ∷ [],
          )
          ∷ ("llama-pth", text "layers." ∷ field "bid" ∷ text ".attention.wo" ∷ [])
          ∷ ("bert", text "encoder.layer." ∷ field "bid" ∷ text ".attention.output.dense" ∷ [])
          ∷ ("gpt-j", text "transformer.h." ∷ field "bid" ∷ text ".attn.out_proj" ∷ [])
          ∷ (
            "persimmon",
            text "language_model.encoder.layers." ∷ field "bid" ∷ text ".self_attention.dense" ∷ [],
          )
          ∷ [],
    )
    ∷ (
      attn_rot_embd,
      (
        "llama-hf",
        text "params.model.layers."
            ∷ field "bid"
            ∷ text ".self_attn.rotary_emb.inv_freq.weight"
            ∷ [],
      )
          ∷ (
            "llama-pth",
            text "layers." ∷ field "bid" ∷ text ".attention.inner_attention.rope.freqs" ∷ [],
          )
          ∷ [],
    )
    ∷ (
      ffn_norm,
      ("gptneox", text "gpt_neox.layers." ∷ field "bid" ∷ text ".post_attention_layernorm" ∷ [])
          ∷ ("gpt2", text "transformer.h." ∷ field "bid" ∷ text ".ln_2" ∷ [])
          ∷ ("refact", text "transformer.h." ∷ field "bid" ∷ text ".ln_2" ∷ [])
          ∷ ("blom", text "h." ∷ field "bid" ∷ text ".post_attention_layernorm" ∷ [])
          ∷ ("mpt", text "transformer.blocks." ∷ field "bid" ∷ text ".norm_2" ∷ [])
          ∷ (
            "llama-hf",
            text "params.model.layers."
                ∷ field "bid"
                ∷ text ".post_attention_layernorm.weight"
                ∷ [],
          )
          ∷ ("llama-pth", text "layers." ∷ field "bid" ∷ text ".ffn_norm" ∷ [])
          ∷ ("bert", text "encoder.layer." ∷ field "bid" ∷ text ".output.LayerNorm" ∷ [])
          ∷ (
            "persimmon",
            text "language_model.encoder.layers."
                ∷ field "bid"
                ∷ text ".post_attention_layernorm"
                ∷ [],
          )
          ∷ [],
    )
    ∷ (
      ffn_up,
      ("gptneox", text "gpt_neox.layers." ∷ field "bid" ∷ text ".mlp.dense_h_to_4h" ∷ [])
          ∷ ("gpt2", text "transformer.h." ∷ field "bid" ∷ text ".mlp.c_fc" ∷ [])
          ∷ ("mpt", text "transformer.blocks." ∷ field "bid" ∷ text ".ffn.up_proj" ∷ [])
          ∷ ("falcon", text "transformer.h." ∷ field "bid" ∷ text ".mlp.dense_h_to_4h" ∷ [])
          ∷ ("bloom", text "h." ∷ field "bid" ∷ text ".mlp.dense_h_to_4h" ∷ [])
          ∷ (
            "llama-hf",
            text "params.model.layers." ∷ field "bid" ∷ text ".mlp.up_proj.weight" ∷ [],
          )
          ∷ ("refact", text "params.model.layer." ∷ field "bid" ∷ text ".mlp.up_proj.weight" ∷ [])
          ∷ ("llama-pth", text "layers." ∷ field "bid" ∷ text ".feed_forward.w3" ∷ [])
          ∷ ("bert", text "encoder.layer." ∷ field "bid" ∷ text ".intermediate.dense" ∷ [])
          ∷ ("gpt-j", text "transformer.h." ∷ field "bid" ∷ text ".mlp.fc_in" ∷ [])
          ∷ (
            "persimmon",
            text "language_model.encoder.layers." ∷ field "bid" ∷ text ".mlp.dense_h_to_4h" ∷ [],
          )
          ∷ [],
    )
    ∷ (
      ffn_gate,
      ("llama-hf", text "params.model.layers." ∷ field "bid" ∷ text ".mlp.gate_proj.weight" ∷ [])
          ∷ (
            "refact",
            text "params.model.layers." ∷ field "bid" ∷ text ".mlp.gate_proj.weight" ∷ [],
          )
          ∷ ("llama-pth", text "layers." ∷ field "bid" ∷ text ".feed_forward.w1" ∷ [])
          ∷ [],
    )
    ∷ (
      ffn_down,
      ("gptneox", text "gpt_neox.layers." ∷ field "bid" ∷ text ".mlp.dense_4h_to_h" ∷ [])
          ∷ ("gpt2", text "transformer.h." ∷ field "bid" ∷ text ".mlp.c_proj" ∷ [])
          ∷ ("refact", text "transformer.h." ∷ field "bid" ∷ text ".mlp.c_proj" ∷ [])
          ∷ ("mpt", text "transformer.blocks." ∷ field "bid" ∷ text ".ffn.down_proj" ∷ [])
          ∷ ("falcon", text "transformer.h." ∷ field "bid" ∷ text ".mlp.dense_4h_to_h" ∷ [])
          ∷ ("bloom", text "h." ∷ field "bid" ∷ text ".mlp.dense_4h_to_h" ∷ [])
          ∷ (
            "llama-hf",
            text "params.model.layers." ∷ field "bid" ∷ text ".mlp.down_proj.weight" ∷ [],
          )
          ∷ ("llama-pth", text "layers." ∷ field "bid" ∷ text ".feed_forward.w2" ∷ [])
          ∷ ("bert", text "params.encoder.layer." ∷ field "bid" ∷ text ".output.dense" ∷ [])
          ∷ ("gpt-j", text "params.transformer.h." ∷ field "bid" ∷ text ".mlp.fc_out" ∷ [])
          ∷ (
            "persimmon",
            text "params.language_model.encoder.layers."
                ∷ field "bid"
                ∷ text ".mlp.dense_4h_to_h"
                ∷ [],
          )
          ∷ [],
    )
    ∷ []
