-- ===== src/Debug.antt =====
-- cleanq/backends/debug/debug_queue.c: a queue that wraps another one and keeps, for each region,
-- the chunks that its owner holds. `f` are the functions of the wrapped queue; `fuel` bounds the
-- walks along a list of chunks; `memory` and `memory_list` are what `malloc` would return to the two
-- slab allocators. The history (DQ_ENABLE_HIST) and the prints are left out, the walks of
-- `dump_list` are not.
pub mod Receive
pub mod Control
pub mod Regions
pub mod Stored
pub mod Walk
pub mod Enqueue
pub mod Clear
pub mod Back
pub mod Dequeue
pub mod Through
pub mod Register
pub mod Deregister
mod Tests
mod Runs
pub mod Samples
use cleanq_linux.Base.{
  ℕ, zero, suc, ◌+◌, ◌≡◌, Bool, true, false, ◌&&◌, not, Option, none, some, List, [], ◌∷◌, ◌++◌,
  Run, done, crash, hang, ◌>>=◌, ◌>>◌, assert, or_crash, ltb, leb, ◌==◌, if◌then◌else◌,
}
use cleanq_linux.Types.{
  u64, Errval, ok, buffer_already_in_use, buffer_not_in_use, invalid_buffer_args, invalid_region_id,
  region_destroy, err_is_fail, Capref, Buf,
}
use cleanq_linux.Slab.{SlabAllocator, slab_init, slab_alloc, slab_free, default_refill}
use cleanq_linux.Chunks.{
  MemoryEle, Heap, Tracked, write, load, new_ele, buffer_in_bounds, remove_split_buffer,
}
use cleanq_linux.Chunks.Join.{insert_merge_buffer}
use cleanq_linux.RegionPool.{RegionPool, Memory}
use cleanq_linux.Cleanq.{
  Cleanq, Dequeued, Backend, cleanq_init, cleanq_add_region, cleanq_remove_region,
}

-- `struct memory_list` at its address; its `next` is the rest of the list
pub record MemoryList : Type 0 where
  pub addr : ℕ
  pub rid : ℕ
  pub length : ℕ
  pub not_consistent : Bool
  pub buffers : ℕ

-- `struct cleanq_debugq` behind its generic part, and the memory of its elements
pub record Debugq (S : Type 0) : Type 0 where
  pub q : Cleanq S
  pub regions : List MemoryList
  pub heap : Heap
  pub alloc : SlabAllocator
  pub alloc_list : SlabAllocator

-- The place of a region in the list: the regions before it, the region, those behind it.
abbrev pub Place : Type 0
Place = List MemoryList × MemoryList × List MemoryList

abbrev pub behind_region : MemoryList → Option Place → Option Place
behind_region r none = none
behind_region r (some (before, region, after)) = some (r ∷ before, region, after)

-- `none` stands for CLEANQ_ERR_INVALID_REGION_ID
unfoldable pub find_region : List MemoryList → ℕ → Option Place
find_region [] rid = none
find_region (r ∷ rs) rid =
    let later = find_region rs rid in
    if r.rid == rid then some ([], r, rs) else behind_region r later

-- a line of `dump_list`: the offset and the length of an element, and of the element before it
pub record Line : Type 0 where
  pub offset : ℕ
  pub length : ℕ
  pub before : Option (ℕ × ℕ)

abbrev pub line : MemoryEle → Option MemoryEle → Line
line e none = record { offset = e.offset; length = e.length; before = none }
line e (some q) = record {
  offset = e.offset;
  length = e.length;
  before = some (q.offset, q.length);
}

-- what is printed
unfoldable pub dump_list : ℕ → Heap → ℕ → Run (List Line)
dump_list zero h p = if p == 0 then done [] else hang
dump_list (suc k) h p = if p == 0 then done [] else (do
  e ← load h p
  before ← if e.prev == 0 then done none else (do q ← load h e.prev; done (some q))
  rest ← dump_list k h e.next
  done (line e before ∷ rest))

-- the first element that contains the buffer
unfoldable pub find_chunk : ℕ → Heap → ℕ → ℕ → ℕ → Run (Option ℕ)
find_chunk zero h p offset length = if p == 0 then done none else hang
find_chunk (suc k) h p offset length = if p == 0 then done none else (do
  e ← load h p
  if buffer_in_bounds offset length e.offset e.length
      then done (some p)
      else find_chunk k h e.next offset length)

-- the first element that begins behind `offset`, or the last one
unfoldable pub find_place : ℕ → Heap → ℕ → ℕ → Run ℕ
find_place zero h p offset = hang
find_place (suc k) h p offset = do
  e ← load h p
  if e.next == 0
      then done p
      else if leb e.offset offset
      then find_place k h e.next offset
      else done p

module _ {S : Type 0} where
  abbrev pub tracked : Debugq S → MemoryList → Tracked
  tracked d r = record { buffers = r.buffers; heap = d.heap; alloc = d.alloc }

  -- `d` with what a function of the elements made of region `r`
  abbrev pub stored : Debugq S → Place → Tracked → Debugq S
  stored d (before, r, after) s = record d {
    regions = before ++ (record r { buffers = s.buffers } ∷ after);
    heap = s.heap;
    alloc = s.alloc;
  }

  -- the buffer goes to the wrapped queue, and out of the element `p`
  unfoldable pub hand_over :
      Option ℕ → Backend S → Debugq S → Place → ℕ → Buf → Run (Errval × Debugq S)
  hand_over memory f d place p b = do
    (err, q) ← f.enq d.q b
    let d' : Debugq S = record d { q = q }
    if err_is_fail err then done (err, d') else (do
      s ← remove_split_buffer memory (tracked d' (place.1)) p b.offset b.length
      done (ok, stored d' place s))

  -- at the element that contains the buffer, if there is one
  unfoldable pub enqueue_found :
      ℕ → Option ℕ → Backend S → Debugq S → Place → Buf → Option ℕ → Run (Errval × Debugq S)
  enqueue_found fuel memory f d place b none =
      dump_list fuel d.heap (place.1.buffers) >>= λ _. done (invalid_buffer_args, d)
  enqueue_found fuel memory f d place b (some p) = hand_over memory f d place p b

  unfoldable pub enqueue_at :
      ℕ → Option ℕ → Backend S → Debugq S → Place → Buf → Run (Errval × Debugq S)
  enqueue_at fuel memory f d place b =
      if place.1.buffers == 0 then done (buffer_already_in_use, d) else (do
        e ← load d.heap (place.1.buffers)
        let only =
            if buffer_in_bounds b.offset b.length e.offset e.length
            then some (place.1.buffers)
            else none
        found ←
            if e.next == 0
            then done only
            else find_chunk fuel d.heap (place.1.buffers) b.offset b.length
        enqueue_found fuel memory f d place b found)

  unfoldable pub debug_enqueue : ℕ → Option ℕ → Backend S → Debugq S → Buf → Run (Errval × Debugq S)
  debug_enqueue fuel memory f d b = assert (ltb 0 b.length) >> elim (find_region d.regions b.rid) [
    | none ↦ done (invalid_region_id, d)
    | some place ↦ enqueue_at fuel memory f d place b
  ]
