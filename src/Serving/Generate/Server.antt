-- ===== src/Serving/Generate/Server.antt =====
-- Any number of batches over one cache, in any order of calls: `start`, `set_sequences` and `recycle`
-- of serving/turbine_serving/llm/impl/service_v1.py.
use shark_turbine.Common.{
  ℕ, zero, suc, ◌+◌, ◌≡◌, refl, ◌∙◌, inl, inr, List, [], ◌∷◌, ◌++◌, none, some, get_elem?, set,
  arith, Option-cases, ltb, if◌then◌else◌,
}
use shark_turbine.Serving.BlockCache.{Cache, entries_from}
use shark_turbine.Serving.BlockCache.Accounting.{count, count-entries_from}
use shark_turbine.Serving.Session.Pool.{Store, acquire_transfer_buffer}
use shark_turbine.Serving.Generate.{Request, Service, Batch, start, set_sequences, recycle, collect}
use shark_turbine.Serving.Generate.Ownership.{total, total-set_sequences, total-recycle}

pub record Server (F : Type 0) : Type 0 where
  pub cache : Cache
  pub store : Store
  pub batches : List (Batch F)

pub data Action : Type 0 where
  starts : Action
  sets : ℕ → List Request → Action
  recycles : ℕ → Action
  -- A batch acquires a transfer buffer of a pool, which is all that `prefill` changes of this state.
  holds : ℕ → ℕ → Action

count-start : (F : Type 0) (a : ℕ) → count a (collect (start {F = F}).sequences) ≡ 0
unfolding start collect
count-start F a = refl

module _ {F : Type 0} where
  abbrev put : Server F → ℕ → Batch F × (Cache × Store) → Server F
  put s i (b, (cache, store)) = record { cache = cache; store = store; batches = set s.batches i b }

  -- What an action does to the batch that it names; one that names no batch does not occur.
  act_on : Service F → Action → Batch F × (Cache × Store) → Batch F × (Cache × Store)
  act_on service starts p = p
  act_on service (sets i requests) (b, (cache, store)) =
      let (b', cache') = (set_sequences service requests (b, cache)).1 in (b', (cache', store))
  act_on service (recycles i) p = (recycle p).1
  act_on service (holds i pool) (b, (cache, store)) =
      let (store', resources) = (acquire_transfer_buffer pool (store, b.resources)).1 in
      (record b { resources = resources }, (cache, store'))

  at_batch : Service F → Action → ℕ → Server F → Server F
  unfolding act_on
  at_batch service action i s = elim (get_elem? s.batches i) [
    | none ↦ s
    | some b ↦ put s i (act_on service action (b, (s.cache, s.store)))
  ]

  unfoldable pub act : Service F → Action → Server F → Server F
  unfolding at_batch
  act service starts s = record s { batches = s.batches ++ start ∷ [] }
  act service (sets i requests) s = at_batch service (sets i requests) i s
  act service (recycles i) s = at_batch service (recycles i) i s
  act service (holds i pool) s = at_batch service (holds i pool) i s

  unfoldable pub run : Service F → List Action → Server F → Server F
  unfolding act
  run service [] s = s
  run service (a ∷ actions) s = run service actions (act service a s)

  -- How often a block is held by some sequence of some batch.
  abbrev pub held : ℕ → List (Batch F) → ℕ
  held a [] = 0
  held a (b ∷ bs) = count a (collect b.sequences) + held a bs

  held-append : (a : ℕ) (xs ys : List (Batch F)) → held a (xs ++ ys) ≡ held a xs + held a ys
  held-append a [] ys = omega arith
  held-append a (x ∷ xs) ys = omega (arith, held-append a xs ys)

  held-set :
      (a i : ℕ) (b b' : Batch F) (bs : List (Batch F))
      → get_elem? bs i ≡ some b
      → held a (set bs i b') + count a (collect b.sequences)
        ≡ held a bs + count a (collect b'.sequences)
  held-set a i b b' [] e = cc
  held-set a zero b b' (x ∷ bs) e =
      let same : x.sequences ≡ b.sequences = cc in rw same (omega arith)
  held-set a (suc i) b b' (x ∷ bs) e = omega (arith, held-set a i b b' bs e)

  -- How often a block is free or held.
  abbrev pub owned : ℕ → Server F → ℕ
  owned a s = count a s.cache.attn_block_free + held a s.batches

  total-act_on :
      (a : ℕ) (service : Service F) (action : Action) (b : Batch F) (cache : Cache) (store : Store)
      → let (b', (cache', store')) = act_on service action (b, (cache, store)) in
        total a (b', cache') ≡ total a (b, cache)
  unfolding act_on
  total-act_on a service starts b cache store = refl
  total-act_on a service (sets i requests) b cache store =
      total-set_sequences a service requests b cache
  total-act_on a service (recycles i) b cache store = total-recycle a b cache store
  total-act_on a service (holds i pool) b cache store = refl

  owned-at_batch :
      (a : ℕ) (service : Service F) (action : Action) (i : ℕ) (s : Server F)
      → owned a (at_batch service action i s) ≡ owned a s
  unfolding at_batch
  owned-at_batch a service action i s = elim (Option-cases (get_elem? s.batches i)) [
    | inl e ↦ rw (at_batch, e)
    | inr (b, e) ↦
        let p = act_on service action (b, (s.cache, s.store)) in
        rw (at_batch, e)
          (omega (
            arith,
            held-set a i b p.0 s.batches e,
            total-act_on a service action b s.cache s.store,
          ))
  ]

  owned-act :
      (a : ℕ) (service : Service F) (action : Action) (s : Server F)
      → owned a (act service action s) ≡ owned a s
  unfolding act
  owned-act a service starts s =
      omega (arith, held-append a s.batches (start ∷ []), count-start F a)
  owned-act a service (sets i requests) s = owned-at_batch a service (sets i requests) i s
  owned-act a service (recycles i) s = owned-at_batch a service (recycles i) i s
  owned-act a service (holds i pool) s = owned-at_batch a service (holds i pool) i s

  owned-run :
      (a : ℕ) (service : Service F) (actions : List Action) (s : Server F)
      → owned a (run service actions s) ≡ owned a s
  unfolding run
  owned-run a service [] s = refl
  owned-run a service (x ∷ actions) s =
      owned-run a service actions (act service x s) ∙ owned-act a service x s

  -- A cache of `n` blocks that nobody holds yet.
  pub record IsFresh (n : ℕ) (s : Server F) : Type 0 where
    pub free : s.cache.attn_block_free ≡ entries_from 0 n
    pub batches : s.batches ≡ []

  -- Whatever calls were made on whatever batches, failed ones among them, each of the `n` blocks of
  -- the cache is in exactly one place, the free list or one sequence of one batch, and there is no
  -- other block.
  pub run_ownership :
      (n : ℕ) (service : Service F) (actions : List Action) (s : Server F)
      → IsFresh n s
      → (a : ℕ) → owned a (run service actions s) ≡ (if ltb a n then 1 else 0)
  run_ownership n service actions s h a =
      owned-run a service actions s
      ∙ rw (h.free, h.batches) (ground (arith, count-entries_from a 0 n))
