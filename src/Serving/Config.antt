-- ===== src/Serving/Config.antt =====
-- serving/turbine_serving/llm/config.py: the parameters of a compiled model and of its attention
-- block cache, and the sizes that are derived from them. The element types of the HAL are those of
-- the IREE runtime, and enter as an interface.
use shark_turbine.Common.{ℕ, ◌*◌, ◌≡◌, Bool, true, List, Name, get_last?, max}
use shark_turbine.Common.Exc.{
  Result, ok, check, or_raise, assertion_error, index_error, ◌>>=◌, ◌>>◌,
}

-- iree.runtime.HalElementType, with the documented sizes of the two integer types that are used.
pub record Hal : Type 1 where
  pub ElementType : Type 0
  pub is_byte_aligned : ElementType → Bool
  pub dense_byte_count : ElementType → ℕ
  pub int_16 : ElementType
  pub int_32 : ElementType
  pub int_16_aligned : is_byte_aligned int_16 ≡ true
  pub int_32_aligned : is_byte_aligned int_32 ≡ true
  pub int_16_bytes : dense_byte_count int_16 ≡ 2
  pub int_32_bytes : dense_byte_count int_32 ≡ 4

pub record ModelParams (E : Type 0) : Type 0 where
  pub attn_dtype : E
  pub max_seq_len : ℕ
  pub transformer_block_count : ℕ
  pub attn_head_count : ℕ
  pub attn_head_dim : ℕ
  pub prefill_batch_sizes : List ℕ
  pub decode_batch_sizes : List ℕ
  pub module_name : Name
  pub module_abi_version : ℕ

pub record CacheParams (E : Type 0) : Type 0 where
  pub model : ModelParams E
  pub device_block_count : ℕ
  pub block_pos_stride : ℕ

pub record ServiceParams (E : Type 0) : Type 0 where
  pub cache : CacheParams E
  pub model : ModelParams E

unfoldable pub attn_dtype_size : (hal : Hal) → ModelParams hal.ElementType → Result ℕ
attn_dtype_size hal m = do
  check (hal.is_byte_aligned m.attn_dtype) assertion_error
  ok (hal.dense_byte_count m.attn_dtype)

module _ {E : Type 0} where
  unfoldable pub max_prefill_batch_size : ModelParams E → Result ℕ
  max_prefill_batch_size m = or_raise (get_last? m.prefill_batch_sizes) index_error

  unfoldable pub max_decode_batch_size : ModelParams E → Result ℕ
  max_decode_batch_size m = or_raise (get_last? m.decode_batch_sizes) index_error

  unfoldable pub max_batch_size : ModelParams E → Result ℕ
  unfolding max_prefill_batch_size max_decode_batch_size
  max_batch_size m = do p ← max_prefill_batch_size m; d ← max_decode_batch_size m; ok (max p d)

  unfoldable pub attn_unit_size_elements : CacheParams E → ℕ
  attn_unit_size_elements c =
      let size : ℕ = 1 in
      let size = size * c.model.transformer_block_count in
      let size = size * 2 in
      let size = size * c.model.attn_head_count in size * c.model.attn_head_dim

  unfoldable pub attn_block_size_elements : CacheParams E → ℕ
  unfolding attn_unit_size_elements
  attn_block_size_elements c = attn_unit_size_elements c * c.block_pos_stride
