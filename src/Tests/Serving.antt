-- ===== src/Tests/Serving.antt =====
-- Runs of the serving runtime's definitions, and its theorems at concrete inputs.
use mathlib.Core.List.{reverse}
use shark_turbine.Common.{
  ℕ, ◌*◌, ◌/◌, ◌≤◌, ◌≡◌, ◌↔◌, refl, true, List, [], ◌∷◌, ◌++◌, map, none, some, Name, codes, length,
  pop, arith, nat_beq, if◌then◌else◌, leb, le→leb,
}
use shark_turbine.Common.Exc.{Result, ok, check, value_error}
use shark_turbine.Serving.Config.{Hal, ModelParams, ServiceParams, max_batch_size}
use shark_turbine.Serving.BlockCache.{Cache, Entry, entries_from, new_entry, acquire_attn_blocks}
use shark_turbine.Serving.BlockCache.Accounting.{acquire_attn_blocks_ok}
use shark_turbine.Serving.Session.WorkQueue.{
  WorkQueue, new_queue, Call, executes, fences, waits, IsTimeline,
}
use shark_turbine.Serving.Session.WorkQueue
use shark_turbine.Serving.Session.Pool
use shark_turbine.Serving.Session.Pool.{Store, acquire, recycle}
use shark_turbine.Serving.Session.Pool.Invariant.{
  IsValid, Acquires, Recycles, acquire-Acquires, recycle-Recycles,
}
use shark_turbine.Serving.Generate.{
  Request, Service, Batch, Sequence, start, entry_points, new_service, allowed_batch_size,
  set_sequences, reserve, choose, place, save, assign, distribute, reserve_one, collect,
}
use shark_turbine.Serving.Generate
use shark_turbine.Serving.Generate.Sequences.{Chosen, allowed_batch_size_least}
use shark_turbine.Serving.Generate.Ownership.{recycle-returns}
use shark_turbine.Serving.Generate.Server
use shark_turbine.Serving.Generate.Server.{
  Server, Action, starts, sets, recycles, holds, owned, IsFresh, run_ownership,
}
use shark_turbine.Serving.Generate.Success.{Succeeds, request_of, set_sequences-Succeeds}
use shark_turbine.Serving.Generate.EntryPoints.{Serves, new_service-Serves}
use shark_turbine.Serving.Generate.Prefill.{
  PoolSizes, Backend, TransferPools, fill_row, h2d_array_bytes, initialize_transfer_pools,
  prefill_bytes,
}
use shark_turbine.Serving.Generate.Prefill.Buffers.{Views, HasPools}
use shark_turbine.Serving.Generate.Prefill.Bounds.{
  tokens_fit, seq_lens_fit, block_indices_fit, initialize_transfer_pools_lem,
}
use shark_turbine.Serving.Generate.Prefill.Rows.{arrays_of, Converts, Prefills, prefill_lem}

-- An element type is its size here.
abbrev hal : Hal
hal = record {
  ElementType = ℕ;
  is_byte_aligned = λ _. true;
  dense_byte_count = λ n. n;
  int_16 = 2;
  int_32 = 4;
  int_16_aligned = refl;
  int_32_aligned = refl;
  int_16_bytes = refl;
  int_32_bytes = refl;
}

abbrev model : ModelParams ℕ
model = record {
  attn_dtype = 2;
  max_seq_len = 64;
  transformer_block_count = 2;
  attn_head_count = 4;
  attn_head_dim = 8;
  prefill_batch_sizes = 1 ∷ 4 ∷ [];
  decode_batch_sizes = 1 ∷ 4 ∷ [];
  module_name = codes "llama";
  module_abi_version = 1;
}

abbrev params : ServiceParams ℕ
params = record {
  cache = record { model = model; device_block_count = 8; block_pos_stride = 16 };
  model = model;
}

-- A module that has every symbol; a function is its symbol's length.
abbrev function : Name → Result ℕ
function n = ok (length n)

abbrev service : Service ℕ
service = record {
  block_pos_stride = 16;
  batch_sizes = 1 ∷ 4 ∷ [];
  prefill_functions = (1, 11) ∷ (4, 14) ∷ [];
  decode_functions = (1, 21) ∷ (4, 24) ∷ [];
}

abbrev eight : Cache
eight = record {
  attn_block_buffer = 0;
  attn_block_buffer_view = [];
  attn_block_entries = [];
  attn_block_free = entries_from 0 8;
}

abbrev prompts : List (List ℕ)
prompts = (1 ∷ 2 ∷ 3 ∷ []) ∷ (4 ∷ []) ∷ []

-- One pool that can grow, and no buffers.
abbrev no_buffers : Store
no_buffers = record {
  pools = λ p. record { buffer_size_bytes = 8; growable = true; free_list = some [] };
  owner = λ tb. none;
  size = λ tb. 0;
  next = 0;
}

abbrev server : Server ℕ
server = record { cache = eight; store = no_buffers; batches = [] }

-- The third batch asks for more blocks than are left, and fails.
abbrev script : List Action
script =
    starts
    ∷ sets 0 (map request_of prompts)
    ∷ starts
    ∷ sets 1 (record { prompt_token_ids = none } ∷ [])
    ∷ holds 0 0
    ∷ recycles 0
    ∷ recycles 0
    ∷ []

run_ownership_example : owned 7 (Server.run service script server) ≡ 1
run_ownership_example =
    run_ownership 8 service script server (record { free = refl; batches = refl }) 7

set_sequences-Succeeds_example : Succeeds service prompts start eight 4 14 24
unfolding start allowed_batch_size entries_from
set_sequences-Succeeds_example =
    set_sequences-Succeeds service prompts start eight (1 ∷ []) [] 4 14 24 refl (omega arith)
      (omega arith) refl (omega arith) (omega arith) refl refl (omega arith)

recycle-returns_example :
    let (b', (cache', store')) = (Generate.recycle (start {F = ℕ}, (eight, no_buffers))).1 in
    (cache' ≡ record eight {
      attn_block_free = eight.attn_block_free ++ collect (start {F = ℕ}).sequences;
    })
    × (collect b'.sequences ≡ [])
unfolding start Pool.recycle_all Pool.recycle_loop
recycle-returns_example = recycle-returns start eight no_buffers refl

acquire_attn_blocks_ok_example :
    (kept taken : List Entry) × (eight.attn_block_free ≡ kept ++ taken)
    × (length taken ≡ 3)
    × (acquire_attn_blocks 3 (eight, [])
        ≡ (ok tt, (record eight { attn_block_free = kept }, reverse taken)))
unfolding entries_from
acquire_attn_blocks_ok_example = acquire_attn_blocks_ok 3 eight [] (omega arith)

-- The blocks come from the end of the free list.
acquire-three :
    (acquire_attn_blocks 3 (eight, [])).1.1 ≡ new_entry 7 ∷ new_entry 6 ∷ new_entry 5 ∷ []
unfolding acquire_attn_blocks entries_from pop
acquire-three = refl

allowed_batch_size_least_example : Chosen (1 ∷ 4 ∷ 8 ∷ []) 3 (some 4)
unfolding allowed_batch_size
allowed_batch_size_least_example = allowed_batch_size_least (1 ∷ 4 ∷ 8 ∷ []) 3 (omega arith)

new_service-Serves_example :
    Serves function 16 (1 ∷ 4 ∷ []) (1 ∷ 4 ∷ []) (new_service function 16 (1 ∷ 4 ∷ []) (1 ∷ 4 ∷ []))
new_service-Serves_example = new_service-Serves function 16 (1 ∷ 4 ∷ []) (1 ∷ 4 ∷ [])

run-IsTimeline_example :
    let (ss, q') = WorkQueue.run (new_queue 0) (executes ∷ waits ∷ fences ∷ []) in
    IsTimeline 0 ss q'.step
unfolding new_queue
run-IsTimeline_example = WorkQueue.run-IsTimeline (new_queue 0) (executes ∷ waits ∷ fences ∷ [])

-- One pool with one free buffer.
abbrev store : Store
store = record {
  pools = λ p. record {
    buffer_size_bytes = 8;
    growable = true;
    free_list = if nat_beq p 0 then some (0 ∷ []) else none;
  };
  owner = λ tb. none;
  size = λ tb. 8;
  next = 1;
}

store-IsValid : IsValid store
store-IsValid = record {
  one_place = λ p tb. ground arith;
  one_pool = λ p q tb ne. ground arith;
  fresh = λ p tb h. ground arith;
}

acquire-Acquires_example : Acquires 0 store (acquire 0 store)
acquire-Acquires_example = acquire-Acquires 0 store store-IsValid

-- A buffer that nobody holds is refused.
recycle-Recycles_example : Recycles 0 store (recycle 0 store)
recycle-Recycles_example = recycle-Recycles 0 store store-IsValid

max_batch_size-model : max_batch_size model ≡ ok 4
unfolding max_batch_size
max_batch_size-model = refl

abbrev sizes : PoolSizes
sizes = record {
  block_indices = 4 * (64 / 16) * 2;
  prefill_tokens = 4 * 64 * 4;
  prefill_seq_lens = 8;
}

made : initialize_transfer_pools hal params ≡ ok sizes
made = initialize_transfer_pools_lem hal params 4 max_batch_size-model (omega arith)

-- Two prompts fit, four do not.
seq_lens_fit_example : ((prefill_bytes hal 2 64 5).prefill_seq_lens ≤ 8) ↔ (4 ≤ 4)
seq_lens_fit_example = seq_lens_fit hal params 4 max_batch_size-model sizes made 2 64 5

tokens_fit_example : (prefill_bytes hal 4 64 5).prefill_tokens ≤ 1024
tokens_fit_example =
    tokens_fit hal params 4 max_batch_size-model sizes made 4 64 5 (omega arith) (omega arith)

-- A prompt of 64 tokens has five blocks, and the pool's buffers have rows of four.
block_indices_fit_example : ((prefill_bytes hal 4 64 5).block_indices ≤ 32) ↔ (5 ≤ 4)
block_indices_fit_example =
    block_indices_fit hal params 4 max_batch_size-model sizes made 4 64 5 (omega arith) refl

abbrev small_batch : Batch ℕ
small_batch = record {
  sequences =
      record {
        attn_blocks = new_entry 7 ∷ [];
        attn_blocks_needed = 1;
        prefill_token_ids = 5 ∷ 6 ∷ [];
        request = request_of (5 ∷ 6 ∷ []);
        seq_length = 2;
      }
      ∷ [];
  prefill_function = some 14;
  decode_function = some 24;
  bs = some 2;
  max_attn_blocks_length = some 1;
  max_seq_length = some 3;
  resources = [];
}

-- A runtime whose functions give themselves back, and which refuses a view that does not fit.
abbrev backend : Backend hal ℕ
backend = record {
  view = λ size shape t. check (leb (h2d_array_bytes hal shape t) size) value_error;
  convert = λ t n. ok n;
  BufferView = ℕ;
  invoke = λ f arrays. ok f;
}

backend-Views : Views backend
backend-Views = record {
  view_law = λ size shape t le. rw (le→leb (h2d_array_bytes hal shape t) size le) refl;
}

backend-Converts : Converts backend
backend-Converts = record { int_32_law = λ n h. refl; int_16_law = λ n h. refl }

-- Three pools of buffers of 24 bytes; the first one has a free buffer.
abbrev three_pools : Store
three_pools = record {
  pools = λ p. record {
    buffer_size_bytes = 24;
    growable = true;
    free_list = if nat_beq p 0 then some (0 ∷ []) else some [];
  };
  owner = λ tb. none;
  size = λ tb. 24;
  next = 1;
}

abbrev pool_numbers : TransferPools
pool_numbers = record { block_indices = 0; prefill_tokens = 1; prefill_seq_lens = 2 }

three_pools-HasPools : HasPools backend pool_numbers 2 3 1 three_pools
unfolding h2d_array_bytes Pool.prod
three_pools-HasPools = record {
  valid = record {
    one_place = λ p tb. ground arith;
    one_pool = λ p q tb ne. ground arith;
    fresh = λ p tb h. ground arith;
  };
  sized = record { sized = λ p tb h. refl };
  tokens = record { growable = refl; large = omega arith; free = []; has_list = refl };
  seq_lens = record { growable = refl; large = omega arith; free = []; has_list = refl };
  indices = record { growable = refl; large = omega arith; free = 0 ∷ []; has_list = refl };
}

prefill_lem_example :
    Prefills backend pool_numbers small_batch three_pools (record { index = 0; step = 5 }) 2 3 1 14
prefill_lem_example =
    prefill_lem backend backend-Views backend-Converts pool_numbers small_batch three_pools
      (record { index = 0; step = 5 }) 14 14 refl refl refl refl (omega arith) (omega arith)
      (omega arith) three_pools-HasPools refl

prefill-tokens :
    (arrays_of 2 3 1 small_batch.sequences).tokens ≡ (5 ∷ 6 ∷ 0 ∷ []) ∷ (0 ∷ 0 ∷ 0 ∷ []) ∷ []
unfolding fill_row
prefill-tokens = refl
