-- ===== src/Serving/Session/Pool.antt =====
-- TransferBuffer, TransferBufferPool and AsyncResources of
-- serving/turbine_serving/framework/session.py. Buffers and pools are shared objects: a store holds
-- them by number, and a new buffer takes the next number. The device allocations are the runtime's.
pub mod Invariant
pub mod Supply
use shark_turbine.Common.{
  ℕ, zero, suc, ◌*◌, ◌+◌, Bool, true, false, List, [], ◌∷◌, ◌++◌, Option, none, some, pop, nat_beq,
  if◌then◌else◌, ltb,
}
use shark_turbine.Common.Exc.{
  Result, Exec, ok, err, assertion_error, attribute_error, runtime_error, check, ◌>>=◌, ◌>>◌,
}
use shark_turbine.Serving.Config.{Hal}

-- `free_list` is `none` where the constructor never set the attribute.
pub record Pool : Type 0 where
  pub buffer_size_bytes : ℕ
  pub growable : Bool
  pub free_list : Option (List ℕ)

pub record Store : Type 0 where
  pub pools : ℕ → Pool
  -- `_pool` of each buffer
  pub owner : ℕ → Option ℕ
  pub size : ℕ → ℕ
  pub next : ℕ

abbrev pub update {ℓ} : {A : Type ℓ} → (ℕ → A) → ℕ → A → ℕ → A
update f k v j = if nat_beq j k then v else f j

abbrev pub set_free : ℕ → List ℕ → Store → Store
set_free p free st = record st {
  pools = update st.pools p (record (st.pools p) { free_list = some free });
}

-- math.prod
unfoldable pub prod : List ℕ → ℕ
prod [] = 1
prod (d ∷ ds) = d * prod ds

-- TransferBuffer.allocate_shaped: the size that is allocated
unfoldable pub shaped_size : (hal : Hal) → List ℕ → hal.ElementType → Result ℕ
unfolding prod
shaped_size hal shape t = do
  check (hal.is_byte_aligned t) assertion_error
  ok (prod shape * hal.dense_byte_count t)

-- TransferBuffer(session, buffer_size_bytes)
unfoldable pub allocate : ℕ → Store → ℕ × Store
allocate bytes st = (
  st.next,
  record st {
    owner = update st.owner st.next none;
    size = update st.size st.next bytes;
    next = st.next + 1;
  },
)

-- [allocator() for _ in range(n)]
unfoldable pub allocate_many : ℕ → ℕ → Store → List ℕ × Store
unfolding allocate
allocate_many bytes zero st = ([], st)
allocate_many bytes (suc n) st =
    let (tb, st') = allocate bytes st in
    let (tbs, st'') = allocate_many bytes n st' in (tb ∷ tbs, st'')

-- TransferBufferPool.__init__, at the number `p`
unfoldable pub new_pool : ℕ → ℕ → ℕ → Bool → Store → Store
unfolding allocate_many
new_pool p bytes initial_capacity growable st =
    let (tbs, st') = allocate_many bytes initial_capacity st in
    let free_list = if ltb 0 initial_capacity then some tbs else none in
    record st' {
      pools =
          update st'.pools p
            (record { buffer_size_bytes = bytes; growable = growable; free_list = free_list });
    }

abbrev take_owner : ℕ → ℕ → Exec Store ℕ
take_owner p tb st = elim (st.owner tb) [
  | some _ ↦ (err assertion_error, st)
  | none ↦ (ok tb, record st { owner = update st.owner tb (some p) })
]

-- The part of `acquire` behind the free list's test: grow the pool.
grow : ℕ → Exec Store ℕ
unfolding allocate
grow p st =
    let (tb, st') = allocate (st.pools p).buffer_size_bytes st in
    let grown = take_owner p tb st' in
    if (st.pools p).growable then grown else (err runtime_error, st)

-- TransferBufferPool.acquire
unfoldable pub acquire : ℕ → Exec Store ℕ
unfolding grow
acquire p st = elim (st.pools p).free_list [
  | none ↦ (err attribute_error, st)
  | some free ↦ elim (pop free) [
    | none ↦ grow p st
    | some (tb, rest) ↦ take_owner p tb (set_free p rest st)
  ]
]

-- TransferBufferPool.recycle
unfoldable pub pool_recycle : ℕ → ℕ → Exec Store (Unit {0})
pool_recycle p tb st = elim (st.pools p).free_list [
  | none ↦ (err attribute_error, st)
  | some free ↦ (ok tt, set_free p (free ++ tb ∷ []) st)
]

-- TransferBuffer.recycle
unfoldable pub recycle : ℕ → Exec Store (Unit {0})
unfolding pool_recycle
recycle tb st = elim (st.owner tb) [
  | none ↦ (err assertion_error, st)
  | some p ↦ pool_recycle p tb (record st { owner = update st.owner tb none })
]

-- AsyncResources.acquire_transfer_buffer; the state has the resources' list beside the store.
unfoldable pub acquire_transfer_buffer : ℕ → Exec (Store × List ℕ) ℕ
unfolding acquire
acquire_transfer_buffer p (st, resources) =
    let (r, st') = acquire p st in
    elim r [ ok tb ↦ (ok tb, (st', resources ++ tb ∷ [])) | err e ↦ (err e, (st', resources)) ]

-- for r in self._resources: r.recycle()
unfoldable pub recycle_loop : List ℕ → Exec Store (Unit {0})
recycle_loop [] st = (ok tt, st)
recycle_loop (tb ∷ tbs) st =
    let (r, st') = recycle tb st in elim r [ ok _ ↦ recycle_loop tbs st' | err e ↦ (err e, st') ]

-- AsyncResources.recycle: the list is cleared only if no buffer raised.
unfoldable pub recycle_all : Exec (Store × List ℕ) (Unit {0})
recycle_all (st, resources) =
    let (r, st') = recycle_loop resources st in
    elim r [ ok _ ↦ (ok tt, (st', [])) | err e ↦ (err e, (st', resources)) ]
