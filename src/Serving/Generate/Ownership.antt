-- ===== src/Serving/Generate/Ownership.antt =====
-- Who has which attention block: the cache's free list and the sequences of all batches.
use mathlib.Core.List.{reverse, reverse-append}
use shark_turbine.Common.{
  ℕ, ◌+◌, ◌≡◌, refl, sym, ap, ◌∙◌, inl, inr, List, [], ◌∷◌, ◌++◌, length, arith, Bool-cases,
  Option-cases, take_all, nil_or_cons, subst, length-append, leb→le, ltb, leb, nat_key,
}
use shark_turbine.Common.Exc.{Result, ok, err, after, Result-cases}
use shark_turbine.Common.Dict.{lookup}
use shark_turbine.Serving.BlockCache.{Entry, Cache, acquire_attn_blocks}
use shark_turbine.Serving.BlockCache.Accounting.{
  count, count-append, acquire_attn_blocks_ok, acquire_attn_blocks_short, release_attn_blocks_lem,
}
use shark_turbine.Serving.Session.Pool.{Store, recycle_all}
use shark_turbine.Serving.Generate.{
  Request, Sequence, Service, Batch, Reserve, reserve_start, reserve, allowed_batch_size, place,
  choose, assign, set_sequences, collect, clear, recycle_blocks, recycle,
}
use shark_turbine.Serving.Generate.Sequences.{
  needed, IsEmpty, collect-IsEmpty, IsReserve, Reserved, reserve-Reserved, collect-distribute,
}

collect-clear : (ss : List Sequence) → collect (clear ss) ≡ []
unfolding collect clear
collect-clear [] = refl
collect-clear (s ∷ ss) = collect-clear ss

count-reverse : (a : ℕ) (xs : List Entry) → count a (reverse xs) ≡ count a xs
count-reverse a [] = refl
count-reverse a (x ∷ xs) =
    ap (count a) (reverse-append (x ∷ []) xs)
    ∙ omega (arith, count-append a (reverse xs) (x ∷ []), count-reverse a xs)

pub length-reverse {ℓ} : {A : Type ℓ} (xs : List A) → length (reverse xs) ≡ length xs
length-reverse [] = refl
length-reverse (x ∷ xs) =
    ap length (reverse-append (x ∷ []) xs)
    ∙ omega (arith, length-append (reverse xs) (x ∷ []), length-reverse xs)

module _ {F : Type 0} where
  -- How often a block is free or held by the batch.
  abbrev pub total : ℕ → Batch F × Cache → ℕ
  total a (b, cache) = count a cache.attn_block_free + count a (collect b.sequences)

  module _ (allowed_bs : ℕ) (r : Reserve) (b : Batch F) (cache : Cache) (h : IsReserve r) where
    placed_total :
        (a : ℕ) (kept taken : List Entry)
        → cache.attn_block_free ≡ kept ++ taken
        → length taken ≡ r.attn_blocks_required
        → acquire_attn_blocks r.attn_blocks_required (cache, [])
          ≡ (ok tt, (record cache { attn_block_free = kept }, reverse taken))
        → total a (place allowed_bs r (b, cache)).1 ≡ count a cache.attn_block_free
    unfolding place
    placed_total a kept taken parts amount run =
        let every =
          take_all (reverse taken) (needed r.sequences)
            (omega (arith, length-reverse taken, h.required)) in
        let given = collect-distribute (reverse taken) 0 r.sequences h.empty ∙ every in
        rw (place, run)
          (rw (given, parts) (omega (arith, count-append a kept taken, count-reverse a taken)))

    total-place :
        (a : ℕ)
        → IsEmpty b.sequences
        → total a (place allowed_bs r (b, cache)).1 ≡ count a cache.attn_block_free
    unfolding place
    total-place a empty =
        elim (Bool-cases (leb r.attn_blocks_required (length cache.attn_block_free))) [
          | inr short ↦
              let run = acquire_attn_blocks_short r.attn_blocks_required cache [] (ground arith) in
              rw (place, run) (rw (collect-IsEmpty b.sequences empty) (omega arith))
          | inl enough ↦
              let (kept, taken, parts, amount, run) =
                acquire_attn_blocks_ok r.attn_blocks_required cache [] (leb→le _ _ enough) in
              placed_total a kept taken parts amount run
        ]

  total-choose :
      (a : ℕ) (service : Service F) (r : Reserve) (b : Batch F) (cache : Cache)
      → IsReserve r
      → IsEmpty b.sequences
      → total a (choose service r (b, cache)).1 ≡ count a cache.attn_block_free
  unfolding choose
  total-choose a service r b cache h empty =
      let none_held : count a (collect b.sequences) ≡ 0 =
        ap (count a) (collect-IsEmpty b.sequences empty) in
      elim (Option-cases (allowed_batch_size service.batch_sizes r.bs)) [
        | inl e ↦ rw (choose, e) (omega arith)
        | inr (s, e) ↦ elim (Option-cases (lookup s service.prefill_functions)) [
          | inl p ↦ rw (choose, e, p) (omega arith)
          | inr (pf, p) ↦ elim (Option-cases (lookup s service.decode_functions)) [
            | inl d ↦ rw (choose, e, p, d) (omega arith)
            | inr (df, d) ↦ rw (choose, e, p, d) (total-place s r _ cache h a empty)
          ]
        ]
      ]

  total-assign :
      (a : ℕ) (service : Service F) (b : Batch F) (cache : Cache) (o : Result (Unit {0}) × Reserve)
      → Reserved o
      → total a (assign service b cache o).1 ≡ count a cache.attn_block_free
  unfolding assign
  total-assign a service b cache (err e, r) h = rw (collect-IsEmpty r.sequences h) (omega arith)
  total-assign a service b cache (ok _, r) h = elim (Bool-cases (ltb 0 r.bs)) [
    | inl some_request ↦ rw (assign, some_request) (total-choose a service r _ cache h h.empty)
    | inr no_request ↦
        rw (assign, no_request) (rw (collect-IsEmpty r.sequences h.empty) (omega arith))
  ]

  collect_at : (a : ℕ) (b : Batch F) → b.sequences ≡ [] → count a (collect b.sequences) ≡ 0
  collect_at a b e = rw e (unfold collect in refl)

  pub started :
      (service : Service F) (requests : List Request) (b : Batch F) (cache : Cache)
      → b.sequences ≡ []
      → set_sequences service requests (b, cache)
        ≡ assign service b cache (reserve service.block_pos_stride requests reserve_start)
  unfolding set_sequences
  started service requests b cache e = rw (set_sequences, e)

  -- Setting a batch's sequences loses no block and makes none up, whether it raises or not.
  pub total-set_sequences :
      (a : ℕ) (service : Service F) (requests : List Request) (b : Batch F) (cache : Cache)
      → total a (set_sequences service requests (b, cache)).1 ≡ total a (b, cache)
  unfolding set_sequences
  total-set_sequences a service requests b cache = elim (nil_or_cons b.sequences) [
    | inr (s, ss, e) ↦ rw (set_sequences, e) (rw e)
    | inl e ↦
        let o = reserve service.block_pos_stride requests reserve_start in
        let fresh =
          reserve-Reserved service.block_pos_stride requests reserve_start
            (record { counted = refl; required = refl; empty = tt }) in
        let all_free = total-assign a service b cache o fresh in
        let none_held = collect_at a b e in
        subst (λ (n : ℕ). n ≡ total a (b, cache))
          (sym (ap (total a) (ap after (started service requests b cache e)))) (omega arith)
  ]

  -- Recycling a batch loses no block and makes none up, whether it raises or not.
  total-recycle_blocks :
      (a : ℕ) (b : Batch F) (cache : Cache)
      → total a (recycle_blocks (b, cache)) ≡ total a (b, cache)
  unfolding recycle_blocks
  total-recycle_blocks a b cache = rw release_attn_blocks_lem (
      omega (
        arith,
        count-append a cache.attn_block_free (collect b.sequences),
        ap (count a) (collect-clear b.sequences),
      ))

  pub total-recycle :
      (a : ℕ) (b : Batch F) (cache : Cache) (store : Store)
      → let (b', (cache', store')) = (recycle (b, (cache, store))).1 in
        total a (b', cache') ≡ total a (b, cache)
  unfolding recycle
  total-recycle a b cache store =
      let (result, (store', resources)) = recycle_all (store, b.resources) in
      elim (Result-cases ((recycle_all (store, b.resources)).0)) [
        | inl (x, e) ↦ rw (recycle, e) refl
        | inr (x, e) ↦
            rw (recycle, e) (total-recycle_blocks a (record b { resources = resources }) cache)
      ]

  -- If no transfer buffer raises, recycling returns every block of the batch to the end of the free
  -- list, in order, and leaves the batch with none.
  pub recycle-returns :
      (b : Batch F) (cache : Cache) (store : Store)
      → (recycle_all (store, b.resources)).0 ≡ ok tt
      → let (b', (cache', store')) = (recycle (b, (cache, store))).1 in
        (cache' ≡ record cache { attn_block_free = cache.attn_block_free ++ collect b.sequences })
        × (collect b'.sequences ≡ [])
  unfolding recycle recycle_blocks
  recycle-returns b cache store e =
      rw (recycle, e)
        (release_attn_blocks_lem (collect b.sequences) cache, collect-clear b.sequences)
