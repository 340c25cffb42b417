-- ===== src/Debug/Receive.antt =====
-- `debug_dequeue` of cleanq/backends/debug/debug_queue.c.
use cleanq_linux.Base.{
  ℕ, ◌+◌, Bool, true, ◌&&◌, Option, none, some, List, [], ◌∷◌, Run, done, ◌>>=◌, or_crash, ltb,
  ◌==◌, if◌then◌else◌,
}
use cleanq_linux.Types.{u64, Errval, ok, buffer_not_in_use, err_is_fail, Buf}
use cleanq_linux.Slab.{slab_alloc}
use cleanq_linux.Chunks.{Heap, write, load, new_ele, buffer_in_bounds}
use cleanq_linux.Chunks.Join.{insert_merge_buffer}
use cleanq_linux.Cleanq.{Backend}
use cleanq_linux.Debug.{MemoryList, Debugq, Place, find_region, find_place, tracked, stored}

-- `memset(que->regions->buffers, 0, sizeof(ele->next))`, where `ele->next` is meant: the offset of
-- the first element of the first region
unfoldable pub clear_first : List MemoryList → Heap → Run Heap
clear_first [] h = done h
clear_first (r ∷ rs) h = do
  e ← load h r.buffers
  done (write h r.buffers (some (record e { offset = 0 })))

-- the region, known only from its buffers, is at least as long as the buffer asks for
abbrev pub lengthened : MemoryList → Buf → MemoryList
lengthened r b =
    if r.not_consistent && ltb r.length (u64 (b.offset + b.length))
    then record r { length = u64 (b.offset + b.length) }
    else r

module _ {S : Type 0} where
  -- a new region of one chunk at the end of the list
  unfoldable pub append_region : Option ℕ → Option ℕ → Debugq S → ℕ → ℕ → Bool → Run (Debugq S)
  append_region memory memory_list d rid length not_consistent = do
    (block, alloc_list) ← slab_alloc memory_list d.alloc_list
    addr ← or_crash block
    let r : MemoryList = record {
      addr = addr;
      rid = rid;
      length = length;
      not_consistent = not_consistent;
      buffers = 0;
    }
    (p, s) ←
        new_ele memory (tracked d r) (record { offset = 0; length = length; next = 0; prev = 0 })
    let d' : Debugq S = record d { alloc_list = alloc_list }
    done (stored d' (d.regions, r, []) (record s { buffers = p }))

  -- the region of the buffer is not known here
  unfoldable pub dequeue_unknown : Option ℕ → Option ℕ → Debugq S → Buf → Run (Debugq S)
  unfolding clear_first
  dequeue_unknown memory memory_list d b = do
    h ← clear_first d.regions d.heap
    append_region memory memory_list (record d { heap = h }) b.rid (u64 (b.offset + b.length)) true

  -- the buffer joins the chunks at the element `p`, unless that contains it
  unfoldable pub give_back : Option ℕ → Debugq S → Place → ℕ → Buf → Run (Errval × Debugq S)
  give_back memory d place p b = do
    e ← load d.heap p
    if buffer_in_bounds b.offset b.length e.offset e.length
        then done (buffer_not_in_use, stored d place (tracked d (place.1)))
        else (do
          s ← insert_merge_buffer memory (tracked d (place.1)) p b.offset b.length
          done (ok, stored d place s))

  -- no chunk of the region was left
  unfoldable pub first_back : Option ℕ → Debugq S → Place → Buf → Run (Errval × Debugq S)
  first_back memory d place b = do
    (p, s) ←
        new_ele memory (tracked d (place.1))
          (record { offset = b.offset; length = b.length; next = 0; prev = 0 })
    done (ok, stored d place (record s { buffers = p }))

  unfoldable pub dequeue_at : ℕ → Option ℕ → Debugq S → Place → Buf → Run (Errval × Debugq S)
  dequeue_at fuel memory d place b =
      if place.1.buffers == 0
      then first_back memory d place b
      else (do p ← find_place fuel d.heap (place.1.buffers) b.offset; give_back memory d place p b)

  -- after a successful dequeue from the wrapped queue
  unfoldable pub dequeue_in :
      ℕ → Option ℕ → Option ℕ → Debugq S → Buf → Option Place → Run (Errval × Debugq S)
  dequeue_in fuel memory memory_list d b none =
      dequeue_unknown memory memory_list d b >>= λ d'. done (ok, d')
  dequeue_in fuel memory memory_list d b (some (before, r, after)) =
      dequeue_at fuel memory d (before, lengthened r b, after) b

  unfoldable pub debug_dequeue :
      ℕ → Option ℕ → Option ℕ → Backend S → Debugq S → Buf → Run (Errval × Buf × Debugq S)
  debug_dequeue fuel memory memory_list f d out = do
    (err, b, q) ← f.deq d.q out
    let d' : Debugq S = record d { q = q }
    if err_is_fail err then done (err, b, d') else (do
      (err', d'') ← dequeue_in fuel memory memory_list d' b (find_region d.regions b.rid)
      done (err', b, d''))
