-- ===== src/Serving/Generate/Prefill/Rows.antt =====
-- What `prefill` writes into its arrays, and the order of what it submits.
use shark_turbine.Common.{
  ℕ, zero, suc, ◌+◌, ◌-◌, ◌≤◌, ◌<◌, ◌≡◌, refl, ap, arith, List, [], ◌∷◌, ◌++◌, map, length,
  replicate, All, some, le→leb,
}
use shark_turbine.Common.Exc.{ok}
use shark_turbine.Serving.Config.{Hal}
use shark_turbine.Serving.Session.Pool.{Store}
use shark_turbine.Serving.Session.WorkQueue.{WorkQueue, execute_sequential, step_fences, guard}
use shark_turbine.Serving.BlockCache.{Entry}
use shark_turbine.Serving.Generate.{Sequence, Batch}
use shark_turbine.Serving.Generate.Prefill.{
  Arrays, Backend, TransferPools, Prefilled, fill_row, convert_all, write_blocks, populate, submit,
  fill_and_submit, prefill_dims, prefill,
}
use shark_turbine.Serving.Generate.Prefill.Buffers.{
  Views, HasPools, Acquired, acquired, acquire_arrays_lem,
}

-- The sequences fit in arrays of the given widths.
abbrev pub Fits : ℕ → ℕ → Sequence → Type 0
Fits width blocks s = (length s.prefill_token_ids ≤ width) × (length s.attn_blocks ≤ blocks)

-- Each row is a sequence's values with zeros behind them, and rows of zeros follow the sequences.
abbrev pub rows_of : ℕ → ℕ → List (List ℕ) → List (List ℕ)
rows_of rows width values =
    map (fill_row width) values ++ replicate (rows - length values) (replicate width 0)

abbrev pub prompts : List Sequence → List (List ℕ)
prompts ss = map (λ s. s.prefill_token_ids) ss

abbrev pub block_rows : List Sequence → List (List ℕ)
block_rows ss = map (λ s. map (λ b. b.index) s.attn_blocks) ss

abbrev pub arrays_of : ℕ → ℕ → ℕ → List Sequence → Arrays
arrays_of rows width blocks ss = record {
  tokens = rows_of rows width (prompts ss);
  seq_lens = map length (prompts ss) ++ replicate (rows - length ss) 0;
  block_indices = rows_of rows blocks (block_rows ss);
}

sub_zero : (n : ℕ) → n - 0 ≡ n
sub_zero n = omega arith

suc-sub-suc : (m n : ℕ) → suc m - suc n ≡ m - n
suc-sub-suc m n = omega arith

length-map {ℓ κ} :
    {A : Type ℓ} {B : Type κ} (f : A → B) (xs : List A) → length (map f xs) ≡ length xs
length-map f [] = refl
length-map f (x ∷ xs) = ap suc (length-map f xs)

-- The numbers of a sequence fit their element types.
abbrev pub InRange : Sequence → Type 0
InRange s =
    All (λ n. n < 2147483648) s.prefill_token_ids
    × (length s.prefill_token_ids < 2147483648)
    × All (λ (b : Entry). b.index < 32768) s.attn_blocks

module _ {hal : Hal} {F : Type 0} (D : Backend hal F) where
  -- numpy keeps a number that is in the range of the signed element type.
  pub record Converts : Type 0 where
    pub int_32_law : (n : ℕ) → n < 2147483648 → D.convert hal.int_32 n ≡ ok n
    pub int_16_law : (n : ℕ) → n < 32768 → D.convert hal.int_16 n ≡ ok n

  convert_all-ok :
      Converts → (ns : List ℕ) → All (λ n. n < 2147483648) ns → convert_all D ns ≡ ok ns
  unfolding convert_all
  convert_all-ok law [] h = refl
  convert_all-ok law (n ∷ ns) h = rw (law.int_32_law n h.0, convert_all-ok law ns h.1) refl

  write_blocks-ok :
      Converts
      → (width : ℕ) (bs : List Entry) → All (λ (b : Entry). b.index < 32768) bs
      → length bs ≤ width
      → write_blocks D width (map (λ b. b.index) bs) ≡ ok (fill_row width (map (λ b. b.index) bs))
  unfolding write_blocks fill_row
  write_blocks-ok law zero [] h le = refl
  write_blocks-ok law zero (b ∷ bs) h le = elim le [ ]
  write_blocks-ok law (suc width) [] h le = rw (sub_zero (suc width)) refl
  write_blocks-ok law (suc width) (b ∷ bs) (hb, hbs) le =
      rw
        (
          law.int_16_law b.index hb,
          write_blocks-ok law width bs hbs (omega arith),
          suc-sub-suc width (length (map (λ (b : Entry). b.index) bs)),
        )
        refl

  pub populate_lem :
      Converts
      → (rows width blocks : ℕ) (ss : List Sequence) → length ss ≤ rows
      → All (Fits width blocks) ss
      → All InRange ss
      → populate D rows width blocks ss ≡ ok (arrays_of rows width blocks ss)
  unfolding populate
  populate_lem law zero width blocks [] h fits range = refl
  populate_lem law zero width blocks (s ∷ ss) h fits range = elim h [ ]
  populate_lem law (suc rows) width blocks [] h fits range = rw (
    populate_lem law rows width blocks [] (omega arith) tt tt,
    sub_zero rows,
    sub_zero (suc rows),
  )
  populate_lem law (suc rows) width blocks (s ∷ ss) h ((fits_width, fits_blocks), fits)
        ((tokens, len, indices), range) =
      rw (
        convert_all-ok law s.prefill_token_ids tokens,
        le→leb _ _ fits_width,
        law.int_32_law _ len,
        write_blocks-ok law blocks s.attn_blocks indices fits_blocks,
        populate_lem law rows width blocks ss (omega arith) fits range,
        suc-sub-suc rows (length (prompts ss)),
        suc-sub-suc rows (length ss),
        suc-sub-suc rows (length (block_rows ss)),
      )

  -- What a prefill that succeeds leaves: the buffers it holds then, the arrays, and the order of
  -- what it submitted.
  pub record Prefills (pools : TransferPools) (b : Batch F) (st : Store) (q : WorkQueue)
      (bs width blocks : ℕ) (output : D.BufferView) : Type 0 where
    pub prefilled : Prefilled D.BufferView
    pub buffers : Acquired D pools bs width blocks st
    pub queue : WorkQueue
    pub returns : prefill D pools ((b, st), q) ≡ (
      ok prefilled,
      (
        (
          record b {
            resources =
                b.resources ++ buffers.tokens.tb ∷ buffers.seq_lens.tb ∷ buffers.indices.tb ∷ [];
          },
          buffers.indices.now,
        ),
        queue,
      ),
    )
    pub arrays : prefilled.arrays ≡ arrays_of bs width blocks b.sequences
    pub value : prefilled.result.value ≡ output
    pub transfer_waits : prefilled.transfer.wait ≡ q.step
    pub invocation_waits : prefilled.invocation.wait ≡ prefilled.transfer.signal
    pub result_waits : prefilled.result.timeline ≡ prefilled.invocation.signal
    pub step : queue.step ≡ prefilled.invocation.signal

  submit-ok :
      (b : Batch F) (arrays : Arrays) (q : WorkQueue) (f : F) (output : D.BufferView)
      → b.prefill_function ≡ some f
      → D.invoke f arrays ≡ ok output
      → submit D b arrays q ≡ (
        ok (record {
          arrays = arrays;
          transfer = record { wait = q.step; signal = q.step + 1 };
          invocation = record { wait = q.step + 1; signal = q.step + 1 + 1 };
          result = record { value = output; timeline = q.step + 1 + 1 };
        }),
        record q { step = q.step + 1 + 1 },
      )
  unfolding submit execute_sequential step_fences guard
  submit-ok b arrays q f output e invoked = rw (submit, e, invoked) refl

  fill_and_submit-ok :
      Converts
      → (b : Batch F) (st : Store) (res : List ℕ) (q : WorkQueue) (bs width blocks : ℕ) (f : F)
        (output : D.BufferView)
      → b.prefill_function ≡ some f
      → length b.sequences ≤ bs
      → All (Fits width blocks) b.sequences
      → All InRange b.sequences
      → D.invoke f (arrays_of bs width blocks b.sequences) ≡ ok output
      → fill_and_submit D bs width blocks b q (ok tt, (st, res)) ≡ (
        ok (record {
          arrays = arrays_of bs width blocks b.sequences;
          transfer = record { wait = q.step; signal = q.step + 1 };
          invocation = record { wait = q.step + 1; signal = q.step + 1 + 1 };
          result = record { value = output; timeline = q.step + 1 + 1 };
        }),
        ((record b { resources = res }, st), record q { step = q.step + 1 + 1 }),
      )
  unfolding fill_and_submit
  fill_and_submit-ok law b st res q bs width blocks f output e h fits range invoked =
      let submitted =
        submit-ok (record b { resources = res }) (arrays_of bs width blocks b.sequences) q f output
          e invoked in
      rw (fill_and_submit, populate_lem law bs width blocks b.sequences h fits range)
        (ap (λ o. (o.0, ((record b { resources = res }, st), o.1))) submitted)

  prefill_dims-ok :
      (b : Batch F) {bs width blocks : ℕ}
      → b.bs ≡ some bs
      → b.max_seq_length ≡ some width
      → b.max_attn_blocks_length ≡ some blocks
      → prefill_dims D b ≡ ok (bs, (width, blocks))
  unfolding prefill_dims
  prefill_dims-ok b e₁ e₂ e₃ = rw (prefill_dims, e₁, e₂, e₃) refl

  -- If the runtime makes views that fit their buffers and numpy keeps numbers in range, a batch with
  -- its fields set, whose sequences fit its three dimensions and its element types, prefills from
  -- pools that can grow and whose buffers are large enough, provided that the compiled function
  -- returns on the arrays: it then holds one buffer of each pool that nobody held before, the arrays
  -- have each sequence's prompt, length and blocks, row by row and with zeros behind them, and the
  -- device has two pieces of work on one timeline: the invocation waits for the transfer, and the
  -- function's output is guarded by the invocation.
  pub prefill_lem :
      Views D
      → Converts
      → (pools : TransferPools) (b : Batch F) (st : Store) (q : WorkQueue) {bs width blocks : ℕ}
        (f : F) (output : D.BufferView)
      → b.bs ≡ some bs
      → b.max_seq_length ≡ some width
      → b.max_attn_blocks_length ≡ some blocks
      → b.prefill_function ≡ some f
      → length b.sequences ≤ bs
      → All (Fits width blocks) b.sequences
      → All InRange b.sequences
      → HasPools D pools bs width blocks st
      → D.invoke f (arrays_of bs width blocks b.sequences) ≡ ok output
      → Prefills pools b st q bs width blocks output
  unfolding prefill
  prefill_lem views law pools b st q {bs} {width} {blocks} f output e₁ e₂ e₃ e₄ h fits range has
        invoked =
      let a = acquired D pools bs width blocks st has in
      let arrays = arrays_of bs width blocks b.sequences in
      let held = b.resources ++ a.tokens.tb ∷ a.seq_lens.tb ∷ a.indices.tb ∷ [] in
      let e = acquire_arrays_lem D pools bs width blocks st views b.resources a in
      record {
        prefilled = record {
          arrays = arrays;
          transfer = record { wait = q.step; signal = q.step + 1 };
          invocation = record { wait = q.step + 1; signal = q.step + 1 + 1 };
          result = record { value = output; timeline = q.step + 1 + 1 };
        };
        buffers = a;
        queue = record q { step = q.step + 1 + 1 };
        returns =
            rw (prefill, prefill_dims-ok b e₁ e₂ e₃, e)
              (fill_and_submit-ok law b a.indices.now held q bs width blocks f output e₄ h fits
                range invoked);
        arrays = refl;
        value = refl;
        transfer_waits = refl;
        invocation_waits = refl;
        result_waits = refl;
        step = refl;
      }
