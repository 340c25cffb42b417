-- ===== src/Chunks.antt =====
-- cleanq/backends/debug/debug_queue.c, the chunks of a region that its owner holds: the doubly
-- linked list of `struct memory_ele` and the functions that change it. A pointer is an address, 0
-- a null pointer. An access through a null pointer or to an element that was freed is a crash.
pub mod Join
pub mod Linked
pub mod Relink
pub mod Edit
pub mod Carve
pub mod Split
pub mod Insert
pub mod Swallow
pub mod Append
pub mod Owns
pub mod Gain
pub mod Grown
pub mod Before
pub mod Merge
pub mod Misjudge
pub mod Cut
mod Tests
use cleanq_linux.Base.{
  ℕ, zero, suc, ◌+◌, ◌-◌, ◌^◌, Bool, true, false, ◌&&◌, Option, none, some, List, [], ◌∷◌, Run,
  done, crash, hang, ◌>>=◌, or_crash, leb, ◌==◌, if◌then◌else◌,
}
use cleanq_linux.Types.{u64}
use cleanq_linux.Slab.{SlabAllocator, slab_alloc, slab_free}

-- `struct memory_ele`
pub record MemoryEle : Type 0 where
  pub offset : ℕ
  pub length : ℕ
  pub next : ℕ
  pub prev : ℕ

-- the elements in use, at their addresses
abbrev pub Heap : Type 0
Heap = ℕ → Option MemoryEle

-- What the functions below read and write: `region->buffers`, the memory and `que->alloc`.
pub record Tracked : Type 0 where
  pub buffers : ℕ
  pub heap : Heap
  pub alloc : SlabAllocator

abbrev pub sub64 : ℕ → ℕ → ℕ
sub64 a b = u64 (a + (2 ^ 64 - u64 b))

unfoldable pub write : Heap → ℕ → Option MemoryEle → Heap
write h p e a = if a == p then e else h a

-- `*p`
unfoldable pub load : Heap → ℕ → Run MemoryEle
load h p = if p == 0 then crash else or_crash (h p)

-- `p->next = q` and `p->prev = q`
unfoldable pub set_next : Heap → ℕ → ℕ → Run Heap
set_next h p q = do e ← load h p; done (write h p (some (record e { next = q })))

unfoldable pub set_prev : Heap → ℕ → ℕ → Run Heap
set_prev h p q = do e ← load h p; done (write h p (some (record e { prev = q })))

-- `if (prev != NULL) prev->next = p; else region->buffers = p;`
unfoldable pub link_next : Tracked → ℕ → ℕ → Run Tracked
link_next s prev p =
    if prev == 0
    then done (record s { buffers = p })
    else (do h ← set_next s.heap prev p; done (record s { heap = h }))

-- `if (next != NULL) next->prev = p;`
unfoldable pub link_prev : Tracked → ℕ → ℕ → Run Tracked
link_prev s next p =
    if next == 0 then done s else (do h ← set_prev s.heap next p; done (record s { heap = h }))

-- `slab_free(&que->alloc, p)`
unfoldable pub free_ele : Tracked → ℕ → Run Tracked
free_ele s p = do
  alloc ← slab_free s.alloc (some p)
  done (record s { heap = write s.heap p none; alloc = alloc })

-- `slab_alloc(&que->alloc)`, the assertion on its result and the stores into the new element
unfoldable pub new_ele : Option ℕ → Tracked → MemoryEle → Run (ℕ × Tracked)
new_ele memory s e = do
  (block, alloc) ← slab_alloc memory s.alloc
  p ← or_crash block
  done (p, record s { heap = write s.heap p (some e); alloc = alloc })

-- is b1 in bounds of b2?
unfoldable pub buffer_in_bounds : ℕ → ℕ → ℕ → ℕ → Bool
buffer_in_bounds offset_b1 len_b1 offset_b2 len_b2 =
    leb offset_b2 offset_b1
    && leb len_b1 len_b2
    && leb (u64 (offset_b1 + len_b1)) (u64 (offset_b2 + len_b2))

-- the element is taken out of the list, and freed
unfoldable pub unlink : Tracked → ℕ → Run Tracked
unlink s buffer = do
  b ← load s.heap buffer
  s1 ← link_next s b.prev b.next
  s2 ← link_prev s1 b.next b.prev
  free_ele s2 buffer

-- the cut at the beginning of the element
unfoldable pub cut_beginning : Tracked → ℕ → ℕ → Run Tracked
cut_beginning s buffer length = do
  b ← load s.heap buffer
  let rest = sub64 b.length length
  let s1 : Tracked = record s {
    heap =
        write s.heap buffer (some (record b { offset = u64 (b.offset + length); length = rest }));
  }
  if rest == 0 then unlink s1 buffer else done s1

-- `buffer->prev = buffer->next` stands where `buffer->prev->next = buffer->next` is meant
unfoldable pub unlink_end : Tracked → ℕ → Run Tracked
unlink_end s buffer = do
  b ← load s.heap buffer
  let prev = if b.prev == 0 then 0 else b.next
  let s1 : Tracked = record s { heap = write s.heap buffer (some (record b { prev = prev })) }
  s2 ← link_prev s1 b.next prev
  free_ele s2 buffer

-- the cut at the end of the element
unfoldable pub cut_end : Tracked → ℕ → ℕ → Run Tracked
cut_end s buffer length = do
  b ← load s.heap buffer
  let rest = sub64 b.length length
  let s1 : Tracked = record s { heap = write s.heap buffer (some (record b { length = rest })) }
  if rest == 0 then unlink_end s1 buffer else done s1

-- the cut in the middle: the part behind the buffer becomes an element of its own
unfoldable pub cut_middle : Option ℕ → Tracked → ℕ → ℕ → ℕ → Run Tracked
cut_middle memory s buffer offset length = do
  b ← load s.heap buffer
  let before = sub64 offset b.offset
  (after, s1) ← new_ele memory s (record {
    offset = u64 (b.offset + before + length);
    length = sub64 (sub64 b.length before) length;
    next = b.next;
    prev = buffer;
  })
  s2 ← link_prev s1 b.next after
  done (record s2 {
    heap = write s2.heap buffer (some (record b { length = before; next = after }));
  })

unfoldable pub remove_split_buffer : Option ℕ → Tracked → ℕ → ℕ → ℕ → Run Tracked
remove_split_buffer memory s buffer offset length = do
  b ← load s.heap buffer
  if b.offset == offset
      then cut_beginning s buffer length
      else if u64 (b.offset + b.length) == u64 (offset + length)
      then cut_end s buffer length
      else cut_middle memory s buffer offset length
