-- ===== src/Serving/Generate/Prefill/Bounds.antt =====
-- The sizes of the transfer buffers against those of the views that `prefill` makes of them.
use shark_turbine.Common.{
  refl, true, false, inl, inr, Bool-cases, nat_beq, ℕ, ◌*◌, ◌/◌, ◌≤◌, ◌<◌, ◌≡◌, ◌↔◌, arith,
}
use native.Mathlib.Nat.{mul-one}
use shark_turbine.Common.Exc.{ok, err, zero_division_error}
use shark_turbine.Serving.Config.{Hal, ServiceParams, max_batch_size}
use shark_turbine.Serving.Session.Pool.{shaped_size}
use shark_turbine.Serving.Generate.Prefill.{PoolSizes, initialize_transfer_pools, prefill_bytes}

module _ (hal : Hal) (params : ServiceParams hal.ElementType) (max_bs : ℕ)
    (largest : max_batch_size params.model ≡ ok max_bs) where
  abbrev pub stride : ℕ
  stride = params.cache.block_pos_stride

  abbrev pub pools : PoolSizes
  pools = record {
    block_indices = max_bs * (params.model.max_seq_len / stride) * 2;
    prefill_tokens = max_bs * params.model.max_seq_len * 4;
    prefill_seq_lens = max_bs * 2;
  }

  -- The sizes of the pools' buffers.
  pub initialize_transfer_pools_lem : 0 < stride → initialize_transfer_pools hal params ≡ ok pools
  unfolding initialize_transfer_pools shaped_size
  initialize_transfer_pools_lem some =
      let some_stride : nat_beq stride 0 ≡ false = ground arith in
      rw
        (
          initialize_transfer_pools, largest, some_stride, hal.int_16_aligned, hal.int_32_aligned,
          hal.int_16_bytes, hal.int_32_bytes,
        )
        (simp mul-one)

  no_pools :
      nat_beq stride 0 ≡ true → initialize_transfer_pools hal params ≡ err zero_division_error
  unfolding initialize_transfer_pools
  no_pools e = rw (initialize_transfer_pools, largest, e) refl

  sizes : {p : PoolSizes} → initialize_transfer_pools hal params ≡ ok p → p ≡ pools
  sizes e = elim (Bool-cases (nat_beq stride 0)) [
    | inl none ↦ let f = no_pools none in absurd (cc)
    | inr some ↦ let f = initialize_transfer_pools_lem (ground (arith, some)) in cc
  ]

  module _ (p : PoolSizes) (made : initialize_transfer_pools hal params ≡ ok p)
      (bs msl mab : ℕ) where
    abbrev pub views : PoolSizes
    views = prefill_bytes hal bs msl mab

    views_lem : views ≡ record {
      block_indices = bs * mab * 2;
      prefill_tokens = bs * msl * 4;
      prefill_seq_lens = bs * 4;
    }
    unfolding prefill_bytes
    views_lem = rw (hal.int_16_bytes, hal.int_32_bytes) (simp mul-one)

    -- The token view fits the buffer of its pool, for a batch and prompts within the model's limits.
    pub tokens_fit :
        bs ≤ max_bs → msl ≤ params.model.max_seq_len → views.prefill_tokens ≤ p.prefill_tokens
    tokens_fit hb hs = rw (views_lem, sizes made) (grind arith)

    -- The view of the sequence lengths fits the buffer of its pool exactly when twice the batch
    -- size is within the largest batch size: the pool is made of 2-byte elements, the view of
    -- 4-byte ones.
    pub seq_lens_fit : (views.prefill_seq_lens ≤ p.prefill_seq_lens) ↔ (2 * bs ≤ max_bs)
    seq_lens_fit = rw (views_lem, sizes made) (λ h. omega arith, λ h. omega arith)

    -- For a full batch, the view of the block indices fits exactly when the longest row of blocks is
    -- within the number of whole blocks in the longest sequence.
    pub block_indices_fit :
        0 < max_bs
        → bs ≡ max_bs
        → (views.block_indices ≤ p.block_indices) ↔ (mab ≤ params.model.max_seq_len / stride)
    block_indices_fit pos full =
        rw (views_lem, sizes made, full) (λ h. grind arith, λ h. grind arith)
