-- ===== src/Debug/Samples.antt =====
-- A small debug queue (cleanq/backends/debug/debug_queue.c) over a loopback queue, for the tests.
use cleanq_linux.Base.{
  ℕ, ◌+◌, ◌≤◌, ◌≡◌, refl, ap, false, none, some, List, [], ◌∷◌, arith, replicate, ◌==◌,
  if◌then◌else◌, set,
}
use cleanq_linux.Types.{Buf, Capref}
use cleanq_linux.Slab.{SlabAllocator, default_refill, slab_alloc, slab_free}
use cleanq_linux.Cleanq.{Cleanq}
use cleanq_linux.Loopback.{Loopback, zero_buf}
use cleanq_linux.RegionPool.Samples.{with_page}
use cleanq_linux.Chunks.{Heap}
use cleanq_linux.Chunks.Linked.{chunk, Chunks, cons, nil}
use cleanq_linux.Chunks.Owns.{Sorted, end}
use cleanq_linux.Debug.{MemoryList, Debugq, tracked}
use cleanq_linux.Debug.Regions.{area}
use cleanq_linux.Debug.Stored.{Tracks}
use cleanq_linux.Debug.Back.{Serves}

abbrev pub bytes : ℕ → ℕ → Buf
bytes o l = record { offset = o; length = l; valid_data = 0; valid_length = l; flags = 0; rid = 6 }

-- a loopback queue that holds the buffers
abbrev pub looped : List Buf → ℕ → ℕ → Cleanq Loopback
looped queue head num_ele = record {
  pool = with_page;
  state = 0;
  register_callback = none;
  deregister_callback = none;
  own = record { queue = queue; head = head; tail = 0; num_ele = num_ele };
}

abbrev pub empty : Cleanq Loopback
empty = looped (replicate 64 zero_buf) 0 0

-- one buffer has been sent, and taken back
abbrev pub with_one : Buf → Cleanq Loopback
with_one b = looped (set (replicate 64 zero_buf) 0 b) 1 1

abbrev pub emptied : Buf → Cleanq Loopback
emptied b = record empty {
  own = record { queue = set (replicate 64 zero_buf) 0 b; head = 1; tail = 1; num_ele = 0 };
}

-- blocks of 32 bytes, the first of three in use
abbrev pub elements : ℕ → List ℕ → SlabAllocator
elements free blocks = record {
  slabs = record { addr = 100000; total = 3; free = free; blocks = blocks } ∷ [];
  blocksize = 32;
  refill_func = default_refill;
}

abbrev pub lists : ℕ → List ℕ → SlabAllocator
lists free blocks = record {
  slabs = record { addr = 200000; total = 2; free = free; blocks = blocks } ∷ [];
  blocksize = 40;
  refill_func = default_refill;
}

abbrev pub memory : Capref
memory = record { vaddr = 4096; paddr = 4096; len = 400 }

abbrev pub page : MemoryList
page = record { addr = 200024; rid = 6; length = 400; not_consistent = false; buffers = 100024 }

abbrev pub one_element : ℕ → ℕ → Heap
one_element o l p =
    if p == 100024 then some (record { offset = o; length = l; next = 0; prev = 0 }) else none

-- one region, of which the bytes from `o` to `o + l` are owned
abbrev pub queue_of : Cleanq Loopback → ℕ → ℕ → Debugq Loopback
queue_of w o l = record {
  q = w;
  regions = page ∷ [];
  heap = one_element o l;
  alloc = elements 2 (100056 ∷ 100088 ∷ []);
  alloc_list = lists 1 (200064 ∷ []);
}

abbrev pub one_chunk : ℕ → ℕ → Chunks
one_chunk o l = chunk 100024 o l ∷ []

pub queue_of-Tracks :
    (w : Cleanq Loopback) (o l : ℕ)
    → o + l ≤ 400
    → Tracks (queue_of w o l) (area page (one_chunk o l) ∷ [])
unfolding Sorted end
queue_of-Tracks w o l h = record {
  regions = refl;
  all = (
    record {
      start = refl;
      linked = cons (record { ne_null = omega arith; holds = refl }) refl nil;
      within = record { sorted = (omega arith, tt); bounded = h };
      narrow = omega arith;
    },
    tt,
    tt,
  );
}

-- a debug queue with no region
abbrev pub fresh : Debugq Loopback
fresh = record {
  q = empty;
  regions = [];
  heap = λ p. none;
  alloc = elements 3 (100024 ∷ 100056 ∷ 100088 ∷ []);
  alloc_list = lists 2 (200024 ∷ 200064 ∷ []);
}

-- the allocator of the elements serves a region of one chunk
pub queue_of-Serves :
    (w : Cleanq Loopback) (o l : ℕ) (r : MemoryList)
    → Serves none (tracked (queue_of w o l) r) (one_chunk o l)
unfolding slab_alloc slab_free
queue_of-Serves w o l r = record {
  block = 100056;
  left = elements 1 (100088 ∷ []);
  gives = record { run = refl; unused = refl; ne_null = omega arith };
  frees = λ p i.
      let here : p ≡ 100024 = ground arith in
      (
        elements 3 (100024 ∷ 100056 ∷ 100088 ∷ []),
        ap (λ x. slab_free (elements 2 (100056 ∷ 100088 ∷ [])) (some x)) here,
      );
}
