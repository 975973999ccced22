-- ===== src/Serving/Generate/Sequences.antt =====
-- What the loops of `set_sequences` compute: the blocks that the sequences need, the choice of the
-- batch size, and the part of the blocks that each sequence is given.
use shark_turbine.Common.{
  ℕ, ◌+◌, ◌≤◌, ◌<◌, ◌≡◌, refl, sym, inl, inr, true, false, List, [], ◌∷◌, ◌++◌, append_assoc,
  Option, none, some, length, contains, nat_key, ◌==◌, eq_self, le→leb, length-append, length-take,
  length-drop, arith, All, nat_beq, leb, Bool-cases, Option-cases, ◌-◌, take, drop, take-drop_add,
  All-append,
}
use shark_turbine.Common.Exc.{Result, ok, err}
use shark_turbine.Serving.BlockCache.{Entry}
use shark_turbine.Serving.Generate.{
  Request, Sequence, Reserve, reserve_one, reserve, allowed_batch_size, distribute, collect,
}

-- The number of blocks that all sequences need.
abbrev pub needed : List Sequence → ℕ
needed [] = 0
needed (s ∷ ss) = s.attn_blocks_needed + needed ss

needed-append : (xs ys : List Sequence) → needed (xs ++ ys) ≡ needed xs + needed ys
needed-append [] ys = omega arith
needed-append (x ∷ xs) ys = omega (arith, needed-append xs ys)

pub collect-append : (xs ys : List Sequence) → collect (xs ++ ys) ≡ collect xs ++ collect ys
unfolding collect
collect-append [] ys = refl
collect-append (x ∷ xs) ys =
    rw (collect-append xs ys) (sym (append_assoc x.attn_blocks (collect xs) (collect ys)))

-- No sequence holds a block.
abbrev pub IsEmpty : List Sequence → Type 0
IsEmpty = All (λ s. s.attn_blocks ≡ [])

pub collect-IsEmpty : (ss : List Sequence) → IsEmpty ss → collect ss ≡ []
unfolding collect
collect-IsEmpty [] h = refl
collect-IsEmpty (s ∷ ss) h = rw (h.0, collect-IsEmpty ss h.1)

-- The first loop counts its sequences, and the blocks that they need; none of them holds a block yet.
pub record IsReserve (r : Reserve) : Type 0 where
  pub counted : r.bs ≡ length r.sequences
  pub required : r.attn_blocks_required ≡ needed r.sequences
  pub empty : IsEmpty r.sequences

reserve_one-IsReserve :
    (stride : ℕ) (req : Request) (tokens : List ℕ) (r : Reserve)
    → IsReserve r
    → IsReserve (reserve_one stride req tokens r)
unfolding reserve_one
reserve_one-IsReserve stride req tokens r h = record {
  counted = omega (arith, length-append {0} r.sequences, h.counted);
  required = omega (arith, needed-append r.sequences, h.required);
  empty = All-append _ r.sequences _ h.empty (refl, tt);
}

-- After the first loop, whether it raised or not.
abbrev pub Reserved : Result (Unit {0}) × Reserve → Type 0
Reserved (ok _, r) = IsReserve r
Reserved (err _, r) = IsEmpty r.sequences

pub reserve-Reserved :
    (stride : ℕ) (requests : List Request) (r : Reserve)
    → IsReserve r
    → Reserved (reserve stride requests r)
unfolding reserve
reserve-Reserved stride [] r h = h
reserve-Reserved stride (req ∷ requests) r h = elim (Option-cases req.prompt_token_ids) [
  | inl missing ↦ rw (reserve, missing) (All-append _ r.sequences _ h.empty (refl, tt))
  | inr (tokens, e) ↦ elim (Bool-cases (nat_beq stride 0)) [
    | inl zero_stride ↦ rw (reserve, e, zero_stride) (All-append _ r.sequences _ h.empty (refl, tt))
    | inr ok_stride ↦
        rw (reserve, e, ok_stride)
          (reserve-Reserved stride requests (reserve_one stride req tokens r)
            (reserve_one-IsReserve stride req tokens r h))
  ]
]

pub collect-distribute :
    (blocks : List Entry) (i : ℕ) (ss : List Sequence)
    → IsEmpty ss
    → collect (distribute blocks i ss) ≡ take (needed ss) (drop i blocks)
unfolding collect distribute
collect-distribute blocks i [] h = refl
collect-distribute blocks i (s ∷ ss) h =
    let n = s.attn_blocks_needed in
    let e : i + n - i ≡ n = omega arith in
    rw (h.0, collect-distribute blocks (i + n) ss h.1, e) (take-drop_add i n (needed ss) blocks)

-- Each sequence is given as many blocks as it needs.
pub distribute-length :
    (blocks : List Entry) (i : ℕ) (ss : List Sequence)
    → IsEmpty ss
    → i + needed ss ≤ length blocks
    → All (λ s. length s.attn_blocks ≡ s.attn_blocks_needed) (distribute blocks i ss)
unfolding distribute
distribute-length blocks i [] h fits = tt
distribute-length blocks i (s ∷ ss) h fits =
    let n = s.attn_blocks_needed in
    (
      rw h.0 (omega (arith, length-take {0} (i + n - i) (drop i blocks), length-drop {0} i blocks)),
      distribute-length blocks (i + n) ss h.1 (omega arith),
    )

-- A larger batch size never stands before a smaller one.
abbrev pub IsAscending : List ℕ → Type 0
IsAscending [] = Unit
IsAscending (x ∷ xs) = All (λ y. x ≤ y) xs × IsAscending xs

-- The choice among sizes: a least one of those that hold the batch, or none as no size holds it.
abbrev pub Chosen : List ℕ → ℕ → Option ℕ → Type 0
Chosen sizes bs none = All (λ s. s < bs) sizes
Chosen sizes bs (some a) = (contains a sizes ≡ true) × (bs ≤ a) × All (λ s. bs ≤ s → a ≤ s) sizes

Chosen-later :
    (s : ℕ) (sizes : List ℕ) (bs : ℕ) (choice : Option ℕ)
    → leb bs s ≡ false
    → Chosen sizes bs choice
    → Chosen (s ∷ sizes) bs choice
Chosen-later s sizes bs none short h = (ground arith, h)
Chosen-later s sizes bs (some a) short (there, holds, least) = (
  elim (Bool-cases (a == s)) [ inl e ↦ rw e refl | inr e ↦ rw e there ],
  holds,
  ((λ fits. absurd (ground arith)), least),
)

least_now : (s bs : ℕ) (sizes : List ℕ) → All (λ y. s ≤ y) sizes → All (λ y. bs ≤ y → s ≤ y) sizes
least_now s bs [] h = tt
least_now s bs (y ∷ sizes) (le, more) = (λ _. le, least_now s bs sizes more)

-- With the sizes in ascending order, the loop picks one of them that holds the batch, and no smaller
-- one does; it finds none only if every size is too small.
pub allowed_batch_size_least :
    (sizes : List ℕ) (bs : ℕ) → IsAscending sizes → Chosen sizes bs (allowed_batch_size sizes bs)
unfolding allowed_batch_size
allowed_batch_size_least [] bs up = tt
allowed_batch_size_least (s ∷ sizes) bs up = elim (Bool-cases (leb bs s)) [
  | inl fits ↦
      rw (allowed_batch_size, fits)
        (rw (eq_self s) refl, ground arith, ((λ _. omega arith), least_now s bs sizes up.0))
  | inr short ↦
      rw (allowed_batch_size, short)
        (Chosen-later s sizes bs _ short (allowed_batch_size_least sizes bs up.1))
]

-- The first size that holds the batch is the one that the loop picks.
pub allowed_batch_size_first :
    (before after : List ℕ) (a bs : ℕ)
    → All (λ s. s < bs) before
    → bs ≤ a
    → allowed_batch_size (before ++ a ∷ after) bs ≡ some a
unfolding allowed_batch_size
allowed_batch_size_first [] after a bs small holds = rw (le→leb bs a holds) refl
allowed_batch_size_first (s ∷ before) after a bs small holds =
    let short : leb bs s ≡ false = ground (arith, small.0) in
    rw (allowed_batch_size, short) (allowed_batch_size_first before after a bs small.1 holds)
