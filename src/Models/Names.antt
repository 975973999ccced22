-- ===== src/Models/Names.antt =====
-- The enumerations, the names and the tensors of each architecture of
-- models/turbine_models/custom_models/remap_gguf.py. A name with a place for the block number is a
-- list of pieces, as `str.format` reads it.
use shark_turbine.Common.{ℕ, List, [], ◌∷◌}
use Prim.Native.String.{String}

pub data ModelArch : Type 0 where
  llama falcon baichuan gpt2 gptj gptneox mpt starcoder persimmon refact bert bloom : ModelArch

pub data ModelTensor : Type 0 where
  token_embd token_embd_norm token_types pos_embd output output_norm rope_freqs attn_q attn_k attn_v
        attn_qkv attn_out attn_norm attn_norm_2 attn_rot_embd ffn_gate ffn_down ffn_up ffn_norm
        attn_q_norm attn_k_norm :
      ModelTensor

pub data Piece : Type 0 where
  text field : String → Piece

abbrev pub Template : Type 0
Template = List Piece

-- The value of the IntEnum, by which members are compared.
abbrev pub tensor_value : ModelTensor → ℕ
tensor_value token_embd = 1
tensor_value token_embd_norm = 2
tensor_value token_types = 3
tensor_value pos_embd = 4
tensor_value output = 5
tensor_value output_norm = 6
tensor_value rope_freqs = 7
tensor_value attn_q = 8
tensor_value attn_k = 9
tensor_value attn_v = 10
tensor_value attn_qkv = 11
tensor_value attn_out = 12
tensor_value attn_norm = 13
tensor_value attn_norm_2 = 14
tensor_value attn_rot_embd = 15
tensor_value ffn_gate = 16
tensor_value ffn_down = 17
tensor_value ffn_up = 18
tensor_value ffn_norm = 19
tensor_value attn_q_norm = 20
tensor_value attn_k_norm = 21

abbrev pub model_arch_names : ModelArch → String
model_arch_names llama = "llama-hf"
model_arch_names falcon = "falcon"
model_arch_names baichuan = "baichuan"
model_arch_names gpt2 = "gpt2"
model_arch_names gptj = "gptj"
model_arch_names gptneox = "gptneox"
model_arch_names mpt = "mpt"
model_arch_names starcoder = "starcoder"
model_arch_names persimmon = "persimmon"
model_arch_names refact = "refact"
model_arch_names bert = "bert"
model_arch_names bloom = "bloom"

abbrev pub tensor_names : ModelTensor → Template
tensor_names token_embd = text "token_embd.weight" ∷ []
tensor_names token_embd_norm = text "token_embd_norm.weight" ∷ []
tensor_names token_types = text "token_types.weight" ∷ []
tensor_names pos_embd = text "position_embd.weight" ∷ []
tensor_names output = text "output.weight" ∷ []
tensor_names output_norm = text "output_norm.weight" ∷ []
tensor_names rope_freqs = text "rope_freqs.weight" ∷ []
tensor_names attn_q = text "blk." ∷ field "bid" ∷ text ".attn_q.weight" ∷ []
tensor_names attn_k = text "blk." ∷ field "bid" ∷ text ".attn_k.weight" ∷ []
tensor_names attn_v = text "blk." ∷ field "bid" ∷ text ".attn_v.weight" ∷ []
tensor_names attn_qkv = text "blk." ∷ field "bid" ∷ text ".attn_qkv.weight" ∷ []
tensor_names attn_out = text "blk." ∷ field "bid" ∷ text ".attn_output.weight" ∷ []
tensor_names attn_norm = text "blk." ∷ field "bid" ∷ text ".attn_norm.weight" ∷ []
tensor_names attn_norm_2 = text "blk." ∷ field "bid" ∷ text ".attn_norm_2.weight" ∷ []
tensor_names attn_rot_embd = text "blk." ∷ field "bid" ∷ text ".attn_rot_embd.weight" ∷ []
tensor_names ffn_gate = text "blk." ∷ field "bid" ∷ text ".ffn_gate.weight" ∷ []
tensor_names ffn_down = text "blk." ∷ field "bid" ∷ text ".ffn_down.weight" ∷ []
tensor_names ffn_up = text "blk." ∷ field "bid" ∷ text ".ffn_up.weight" ∷ []
tensor_names ffn_norm = text "blk." ∷ field "bid" ∷ text ".ffn_norm.weight" ∷ []
tensor_names attn_q_norm = text "blk." ∷ field "bid" ∷ text ".attn_q_norm.weight" ∷ []
tensor_names attn_k_norm = text "blk." ∷ field "bid" ∷ text ".attn_k_norm.weight" ∷ []

abbrev pub model_tensors : ModelArch → List ModelTensor
model_tensors llama =
    token_embd ∷ output_norm ∷ output ∷ rope_freqs ∷ attn_norm ∷ attn_q ∷ attn_k ∷ attn_v ∷ attn_out
    ∷ attn_rot_embd ∷ ffn_norm ∷ ffn_gate ∷ ffn_down ∷ ffn_up ∷ []
model_tensors falcon =
    token_embd ∷ output_norm ∷ output ∷ attn_norm ∷ attn_norm_2 ∷ attn_qkv ∷ attn_out ∷ ffn_down
    ∷ ffn_up ∷ []
model_tensors baichuan =
    token_embd ∷ output_norm ∷ output ∷ rope_freqs ∷ attn_norm ∷ attn_q ∷ attn_k ∷ attn_v ∷ attn_out
    ∷ attn_rot_embd ∷ ffn_norm ∷ ffn_gate ∷ ffn_down ∷ ffn_up ∷ []
model_tensors gpt2 = []
model_tensors gptj =
    token_embd ∷ output_norm ∷ output ∷ attn_norm ∷ attn_q ∷ attn_k ∷ attn_v ∷ attn_out ∷ ffn_down
    ∷ ffn_up ∷ []
model_tensors gptneox =
    token_embd ∷ output_norm ∷ output ∷ attn_norm ∷ attn_qkv ∷ attn_out ∷ ffn_norm ∷ ffn_down
    ∷ ffn_up ∷ []
model_tensors mpt =
    token_embd ∷ output_norm ∷ output ∷ attn_norm ∷ attn_qkv ∷ attn_out ∷ ffn_norm ∷ ffn_down
    ∷ ffn_up ∷ []
model_tensors starcoder =
    token_embd ∷ pos_embd ∷ output_norm ∷ output ∷ attn_norm ∷ attn_qkv ∷ attn_out ∷ ffn_norm
    ∷ ffn_down ∷ ffn_up ∷ []
model_tensors persimmon =
    token_embd ∷ output ∷ output_norm ∷ attn_norm ∷ attn_qkv ∷ attn_out ∷ ffn_norm ∷ ffn_down
    ∷ ffn_up ∷ attn_q_norm ∷ attn_k_norm ∷ attn_rot_embd ∷ []
model_tensors refact =
    token_embd ∷ output_norm ∷ output ∷ attn_norm ∷ attn_q ∷ attn_k ∷ attn_v ∷ attn_out ∷ ffn_norm
    ∷ ffn_gate ∷ ffn_down ∷ ffn_up ∷ []
model_tensors bert =
    token_embd ∷ token_types ∷ pos_embd ∷ output_norm ∷ attn_norm ∷ attn_q ∷ attn_k ∷ attn_v
    ∷ attn_out ∷ ffn_norm ∷ ffn_down ∷ ffn_up ∷ []
model_tensors bloom =
    token_embd ∷ token_embd_norm ∷ output_norm ∷ output ∷ attn_norm ∷ attn_qkv ∷ attn_out ∷ ffn_norm
    ∷ ffn_down ∷ ffn_up ∷ []
