-- ===== src/Serving/Generate/Prefill/Buffers.antt =====
-- The transfer buffers that `prefill` acquires from the service's pools.
use shark_turbine.Common.{ℕ, ◌≤◌, ◌≡◌, refl, ap, ◌∙◌, List, [], ◌∷◌, ◌++◌, append_assoc}
use shark_turbine.Common.Exc.{ok}
use shark_turbine.Serving.Config.{Hal}
use shark_turbine.Serving.Session.Pool.{Store, acquire_transfer_buffer}
use shark_turbine.Serving.Session.Pool.Invariant.{IsValid}
use shark_turbine.Serving.Session.Pool.Supply.{IsSized, IsPool, Supplied, acquire-Supplied}
use shark_turbine.Serving.Generate.Prefill.{
  Backend, TransferPools, h2d_array_bytes, acquire_array, acquire_arrays,
}

module _ {hal : Hal} {F : Type 0} (D : Backend hal F) where
  -- A view that is no longer than its buffer is made.
  pub record Views : Type 0 where
    pub view_law :
        (size : ℕ) (shape : List ℕ) (t : hal.ElementType)
        → h2d_array_bytes hal shape t ≤ size
        → D.view size shape t ≡ ok tt

  acquire_transfer_buffer-Supplied :
      (pool bytes : ℕ) (st : Store) (res : List ℕ) (s : Supplied pool bytes st)
      → acquire_transfer_buffer pool (st, res) ≡ (ok s.tb, (s.now, res ++ s.tb ∷ []))
  unfolding acquire_transfer_buffer
  acquire_transfer_buffer-Supplied pool bytes st res s =
      rw (acquire_transfer_buffer, s.returns, s.returns) refl

  acquire_array-Supplied :
      Views
      → (pool : ℕ) (shape : List ℕ) (t : hal.ElementType) (st : Store) (res : List ℕ)
      → (s : Supplied pool (h2d_array_bytes hal shape t) st)
      → acquire_array D pool shape t (st, res) ≡ (ok tt, (s.now, res ++ s.tb ∷ []))
  unfolding acquire_array
  acquire_array-Supplied views pool shape t st res s =
      let e = acquire_transfer_buffer-Supplied pool (h2d_array_bytes hal shape t) st res s in
      rw (acquire_array, e, e, views.view_law (s.now.size s.tb) shape t s.large) refl

  -- The pools have buffers for the three views.
  pub record HasPools (pools : TransferPools) (bs width blocks : ℕ) (st : Store) : Type 0 where
    pub valid : IsValid st
    pub sized : IsSized st
    pub tokens : IsPool st pools.prefill_tokens (h2d_array_bytes hal (bs ∷ width ∷ []) hal.int_32)
    pub seq_lens : IsPool st pools.prefill_seq_lens (h2d_array_bytes hal (bs ∷ []) hal.int_32)
    pub indices : IsPool st pools.block_indices (h2d_array_bytes hal (bs ∷ blocks ∷ []) hal.int_16)

  -- Three buffers, handed out one after the other.
  pub record Acquired (pools : TransferPools) (bs width blocks : ℕ) (st : Store) : Type 0 where
    pub tokens : Supplied pools.prefill_tokens (h2d_array_bytes hal (bs ∷ width ∷ []) hal.int_32) st
    pub seq_lens :
        Supplied pools.prefill_seq_lens (h2d_array_bytes hal (bs ∷ []) hal.int_32) tokens.now
    pub indices :
        Supplied pools.block_indices
          (h2d_array_bytes hal (bs ∷ blocks ∷ []) hal.int_16)
          seq_lens.now

  module _ (pools : TransferPools) (bs width blocks : ℕ) (st : Store) where
    pub acquired : HasPools pools bs width blocks st → Acquired pools bs width blocks st
    acquired h =
        let a = acquire-Supplied _ _ st h.valid h.sized h.tokens in
        let b = acquire-Supplied _ _ a.now a.valid a.sized (a.keeps _ _ h.seq_lens) in
        record {
          tokens = a;
          seq_lens = b;
          indices =
              acquire-Supplied _ _ b.now b.valid b.sized (b.keeps _ _ (a.keeps _ _ h.indices));
        }

    pub acquire_arrays_lem :
        Views
        → (res : List ℕ) (a : Acquired pools bs width blocks st)
        → acquire_arrays D pools bs width blocks (st, res)
          ≡ (ok tt, (a.indices.now, res ++ a.tokens.tb ∷ a.seq_lens.tb ∷ a.indices.tb ∷ []))
    unfolding acquire_arrays
    acquire_arrays_lem views res a =
        let first = acquire_array-Supplied views _ _ hal.int_32 st res a.tokens in
        let second =
          acquire_array-Supplied views _ _ hal.int_32 a.tokens.now (res ++ a.tokens.tb ∷ [])
            a.seq_lens in
        let third =
          acquire_array-Supplied views _ _ hal.int_16 a.seq_lens.now
            ((res ++ a.tokens.tb ∷ []) ++ a.seq_lens.tb ∷ []) a.indices in
        rw (acquire_arrays, first, second, third)
          (ap (λ l. (ok tt, (a.indices.now, l)))
            (append_assoc (res ++ a.tokens.tb ∷ []) (a.seq_lens.tb ∷ []) (a.indices.tb ∷ [])
              ∙ append_assoc res (a.tokens.tb ∷ []) (a.seq_lens.tb ∷ a.indices.tb ∷ [])))
