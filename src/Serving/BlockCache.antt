-- ===== src/Serving/BlockCache.antt =====
-- serving/turbine_serving/llm/attn_block_cache.py: the free list of attention blocks. An entry
-- object is known by its index, which is unique. Allocating the device slab is the IREE runtime's;
-- its size is kept, and so is the shape of the view.
pub mod Accounting
use shark_turbine.Common.{
  ℕ, zero, suc, ◌*◌, ◌+◌, Bool, false, List, [], ◌∷◌, ◌++◌, length, pop, leb, if◌then◌else◌, none,
  some,
}
use shark_turbine.Common.Exc.{Result, Exec, ok, err, assertion_error, index_error, ◌>>=◌}
use shark_turbine.Serving.Config.{Hal, CacheParams, attn_block_size_elements, attn_dtype_size}

-- AttnBlockCacheEntry
pub record Entry : Type 0 where
  pub index : ℕ
  pub in_use : Bool

pub record Cache : Type 0 where
  -- bytes of the slab, and the dimensions of its logical view
  pub attn_block_buffer : ℕ
  pub attn_block_buffer_view : List ℕ
  pub attn_block_entries : List Entry
  pub attn_block_free : List Entry

abbrev pub new_entry : ℕ → Entry
new_entry i = record { index = i; in_use = false }

-- [AttnBlockCacheEntry(i) for i in range(start, start + n)]
unfoldable pub entries_from : ℕ → ℕ → List Entry
entries_from start zero = []
entries_from start (suc n) = new_entry start ∷ entries_from (suc start) n

-- _initialize_block_cache
unfoldable pub initialize_block_cache : (hal : Hal) → CacheParams hal.ElementType → Result Cache
initialize_block_cache hal params = do
  let attn_block_count = params.device_block_count
  let attn_block_size = attn_block_size_elements params
  dtype_size ← attn_dtype_size hal params.model
  let attn_block_size_bytes = attn_block_size * dtype_size
  let entries = entries_from 0 attn_block_count
  ok (record {
    attn_block_buffer = attn_block_count * attn_block_size_bytes;
    attn_block_buffer_view = attn_block_count ∷ attn_block_size ∷ [];
    attn_block_entries = entries;
    attn_block_free = entries;
  })

-- for i in range(count): into_list.append(free_list.pop())
unfoldable pub acquire_loop : ℕ → Exec (List Entry × List Entry) (Unit {0})
acquire_loop zero s = (ok tt, s)
acquire_loop (suc count) (free, into_list) = elim (pop free) [
  | none ↦ (err index_error, (free, into_list))
  | some (b, free') ↦ acquire_loop count (free', into_list ++ b ∷ [])
]

-- The state is the cache and the caller's list.
unfoldable pub acquire_attn_blocks : ℕ → Exec (Cache × List Entry) (Unit {0})
unfolding acquire_loop
acquire_attn_blocks count (c, into_list) =
    let (r, s) = acquire_loop count (c.attn_block_free, into_list) in
    if leb count (length c.attn_block_free)
    then (r, (record c { attn_block_free = s.0 }, s.1))
    else (err assertion_error, (c, into_list))

-- for block in blocks: free_list.append(block)
unfoldable pub release_attn_blocks : List Entry → Cache → Cache
release_attn_blocks [] c = c
release_attn_blocks (b ∷ blocks) c =
    release_attn_blocks blocks (record c { attn_block_free = c.attn_block_free ++ b ∷ [] })
