-- ===== src/Serving/BlockCache/Accounting.antt =====
-- What acquiring and releasing blocks do to the free list, with blocks counted.
use mathlib.Core.List.{reverse, reverse-append}
use shark_turbine.Common.{
  ℕ, zero, suc, ◌+◌, ◌<◌, ◌≤◌, ◌≡◌, refl, sym, ap, ◌∙◌, ◌&&◌, List, [], ◌∷◌, ◌++◌, append_assoc,
  length, length-append, pop, pop-some, pop-none, Option-cases, inl, inr, arith, le→leb, leb, ltb,
  nat_beq, Bool-cases, if◌then◌else◌, append-nil,
}
use shark_turbine.Common.Exc.{ok, err, assertion_error}
use shark_turbine.Serving.BlockCache.{
  Entry, Cache, entries_from, acquire_loop, acquire_attn_blocks, release_attn_blocks,
}

-- How often the block of an index stands in a list.
abbrev pub count : ℕ → List Entry → ℕ
count a [] = 0
count a (b ∷ bs) = (if nat_beq a b.index then 1 else 0) + count a bs

pub count-append : (a : ℕ) (xs ys : List Entry) → count a (xs ++ ys) ≡ count a xs + count a ys
count-append a [] ys = omega arith
count-append a (x ∷ xs) ys = omega (arith, count-append a xs ys)

pub count-entries_from :
    (a start n : ℕ)
    → count a (entries_from start n) ≡ (if leb start a && ltb a (start + n) then 1 else 0)
unfolding entries_from
count-entries_from a start zero = ground arith
count-entries_from a start (suc n) = ground (arith, count-entries_from a (suc start) n)

-- A successful run of the loop moves the end of the free list, last block first, to the caller.
pub acquire_loop_lem :
    (n : ℕ) (free into_list : List Entry)
    → n ≤ length free
    → (kept taken : List Entry) × (free ≡ kept ++ taken)
      × (length taken ≡ n)
      × (acquire_loop n (free, into_list) ≡ (ok tt, (kept, into_list ++ reverse taken)))
unfolding acquire_loop
acquire_loop_lem zero free into_list h = (free, [], sym (append-nil free), refl, rw append-nil)
acquire_loop_lem (suc n) free into_list h = elim (Option-cases (pop free)) [
  | inl e ↦ absurd (omega (arith, ap length (pop-none free e)))
  | inr ((b, rest), e) ↦
      let split = pop-some free b rest e in
      let one = ap length split ∙ length-append rest (b ∷ []) in
      let (kept, taken, parts, enough, run) =
        acquire_loop_lem n rest (into_list ++ b ∷ []) (omega (arith, one)) in
      (
        kept,
        taken ++ b ∷ [],
        split ∙ ap (λ l. l ++ b ∷ []) parts ∙ append_assoc kept taken (b ∷ []),
        omega (arith, length-append taken (b ∷ [])),
        rw (acquire_loop, e)
            (run ∙ ap (λ l. (ok tt, (kept, l))) (simp (reverse-append, append_assoc))),
      )
]

acquire_loop-count :
    (a n : ℕ) (free into_list : List Entry)
    → let (r, s) = acquire_loop n (free, into_list) in
      count a s.0 + count a s.1 ≡ count a free + count a into_list
unfolding acquire_loop
acquire_loop-count a zero free into_list = refl
acquire_loop-count a (suc n) free into_list = elim (Option-cases (pop free)) [
  | inl e ↦ rw (acquire_loop, e)
  | inr ((b, rest), e) ↦
      let split = ap (count a) (pop-some free b rest e) ∙ count-append a rest (b ∷ []) in
      rw (acquire_loop, e)
        (acquire_loop-count a n rest (into_list ++ b ∷ [])
          ∙ omega (arith, split, count-append a into_list (b ∷ [])))
]

-- The cache keeps what it does not take from the free list.
module _ (n : ℕ) (c : Cache) (into_list : List Entry) where
  -- With enough free blocks, acquiring takes exactly `n` of them from the end of the free list.
  pub acquire_attn_blocks_ok :
      n ≤ length c.attn_block_free
      → (kept taken : List Entry) × (c.attn_block_free ≡ kept ++ taken)
        × (length taken ≡ n)
        × (acquire_attn_blocks n (c, into_list)
            ≡ (ok tt, (record c { attn_block_free = kept }, into_list ++ reverse taken)))
  unfolding acquire_attn_blocks
  acquire_attn_blocks_ok h =
      let (kept, taken, parts, enough, run) = acquire_loop_lem n c.attn_block_free into_list h in
      (kept, taken, parts, enough, rw (acquire_attn_blocks, le→leb _ _ h, run))

  -- Otherwise it raises, and nothing has moved.
  pub acquire_attn_blocks_short :
      length c.attn_block_free < n
      → acquire_attn_blocks n (c, into_list) ≡ (err assertion_error, (c, into_list))
  unfolding acquire_attn_blocks
  acquire_attn_blocks_short h = ground arith

  -- On every outcome no block is lost or made up, and the rest of the cache stays.
  pub acquire_attn_blocks-count :
      (a : ℕ)
      → let (r, s) = acquire_attn_blocks n (c, into_list) in
        count a s.0.attn_block_free + count a s.1 ≡ count a c.attn_block_free + count a into_list
  unfolding acquire_attn_blocks
  acquire_attn_blocks-count a = elim (Bool-cases (leb n (length c.attn_block_free))) [
    | inl enough ↦
        rw (acquire_attn_blocks, enough) (acquire_loop-count a n c.attn_block_free into_list)
    | inr short ↦ rw (acquire_attn_blocks, short) refl
  ]

pub release_attn_blocks_lem :
    (blocks : List Entry) (c : Cache)
    → release_attn_blocks blocks c ≡ record c { attn_block_free = c.attn_block_free ++ blocks }
unfolding release_attn_blocks
release_attn_blocks_lem [] c = rw append-nil
release_attn_blocks_lem (b ∷ blocks) c =
    release_attn_blocks_lem blocks (record c { attn_block_free = c.attn_block_free ++ b ∷ [] })
    ∙ ap (λ l. record c { attn_block_free = l }) (append_assoc c.attn_block_free (b ∷ []) blocks)
