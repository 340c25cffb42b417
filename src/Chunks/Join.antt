-- ===== src/Chunks/Join.antt =====
-- `insert_merge_buffer` of cleanq/backends/debug/debug_queue.c: a buffer that comes back joins the
-- list of chunks.
use cleanq_linux.Base.{
  ℕ, ◌+◌, Bool, false, ◌&&◌, Option, some, Run, done, ◌>>=◌, leb, ◌==◌, if◌then◌else◌,
}
use cleanq_linux.Types.{u64}
use cleanq_linux.Chunks.{
  Heap, Tracked, write, load, set_next, set_prev, link_next, link_prev, free_ele, new_ele,
}

-- `p != NULL && p->offset == offset`
unfoldable pub starts_at : Heap → ℕ → ℕ → Run Bool
starts_at h p offset = if p == 0 then done false else (do e ← load h p; done (e.offset == offset))

-- `p != NULL && p->offset + p->length == offset`
unfoldable pub ends_at : Heap → ℕ → ℕ → Run Bool
ends_at h p offset =
    if p == 0 then done false else (do e ← load h p; done (u64 (e.offset + e.length) == offset))

-- `buffer->next->next` is the element `after`
unfoldable pub skip_next : Heap → ℕ → ℕ → Run Heap
skip_next h buffer after =
    if after == 0
    then done h
    else (do h1 ← set_next h buffer after; e ← load h1 after; set_prev h1 e.next buffer)

-- the element after `buffer` is merged into it
unfoldable pub swallow_next : Tracked → ℕ → Run Tracked
unfolding skip_next
swallow_next s buffer = do
  b ← load s.heap buffer
  n ← load s.heap b.next
  h ←
      skip_next (write s.heap buffer (some (record b { length = u64 (b.length + n.length) })))
        buffer n.next
  free_ele (record s { heap = h }) b.next

-- the new buffer is added at the end of `buffer`
unfoldable pub merge_after : Tracked → ℕ → ℕ → Run Tracked
unfolding swallow_next
merge_after s buffer length = do
  b ← load s.heap buffer
  let longer = u64 (b.length + length)
  let s1 : Tracked = record s { heap = write s.heap buffer (some (record b { length = longer })) }
  adjacent ← starts_at s1.heap b.next (u64 (b.offset + longer))
  if adjacent then swallow_next s1 buffer else done s1

-- the new buffer is added at the beginning of the element `next`
unfoldable pub extend_next : Tracked → ℕ → ℕ → ℕ → Run Tracked
extend_next s next offset length = do
  n ← load s.heap next
  done (record s {
    heap =
        write s.heap next (some (record n { offset = offset; length = u64 (n.length + length) }));
  })

-- a new element behind `buffer`
unfoldable pub insert_behind : Option ℕ → Tracked → ℕ → ℕ → ℕ → Run Tracked
insert_behind memory s buffer offset length = do
  b ← load s.heap buffer
  (ele, s1) ←
      new_ele memory s (record { offset = offset; length = length; next = b.next; prev = buffer })
  s2 ← link_prev s1 b.next ele
  h ← set_next s2.heap buffer ele
  done (record s2 { heap = h })

-- the new buffer does not follow `buffer` by the test on the lower boundary
unfoldable pub insert_apart : Option ℕ → Tracked → ℕ → ℕ → ℕ → Run Tracked
insert_apart memory s buffer offset length = do
  b ← load s.heap buffer
  adjacent ← starts_at s.heap b.next (u64 (offset + length))
  if adjacent
      then extend_next s b.next offset length
      else if b.next == 0 && (u64 (b.offset + b.length) == offset)
      then done (record s {
        heap = write s.heap buffer (some (record b { length = u64 (b.length + length) }));
      })
      else insert_behind memory s buffer offset length

-- The test on the lower boundary adds the length of the new buffer, not that of `buffer`.
unfoldable pub insert_after : Option ℕ → Tracked → ℕ → ℕ → ℕ → Run Tracked
insert_after memory s buffer offset length = do
  b ← load s.heap buffer
  if u64 (b.offset + length) == offset
      then merge_after s buffer length
      else insert_apart memory s buffer offset length

-- `buffer`, already extended, is merged into the element `prev`
unfoldable pub swallow_self : Tracked → ℕ → Run Tracked
swallow_self s buffer = do
  b ← load s.heap buffer
  p ← load s.heap b.prev
  let s1 : Tracked = record s {
    heap =
        write s.heap b.prev (some (record p { length = u64 (p.length + b.length); next = b.next }));
  }
  s2 ← link_prev s1 b.next b.prev
  free_ele s2 buffer

-- the new buffer is added at the beginning of `buffer`
unfoldable pub merge_before : Tracked → ℕ → ℕ → ℕ → Run Tracked
unfolding swallow_self
merge_before s buffer offset length = do
  b ← load s.heap buffer
  let s1 : Tracked = record s {
    heap =
        write s.heap buffer (some (record b { offset = offset; length = u64 (b.length + length) }));
  }
  adjacent ← ends_at s1.heap b.prev offset
  if adjacent then swallow_self s1 buffer else done s1

-- the new buffer is added at the end of the element `prev`; one of no bytes counts as 2048
unfoldable pub extend_prev : Tracked → ℕ → ℕ → Run Tracked
extend_prev s prev length = do
  p ← load s.heap prev
  let more = if length == 0 then 2048 else length
  done (record s { heap = write s.heap prev (some (record p { length = u64 (p.length + more) })) })

-- a new element before `buffer`
unfoldable pub insert_in_front : Option ℕ → Tracked → ℕ → ℕ → ℕ → Run Tracked
insert_in_front memory s buffer offset length = do
  b ← load s.heap buffer
  (ele, s1) ←
      new_ele memory s (record { offset = offset; length = length; next = buffer; prev = b.prev })
  s2 ← link_next s1 b.prev ele
  h ← set_prev s2.heap buffer ele
  done (record s2 { heap = h })

unfoldable pub insert_before : Option ℕ → Tracked → ℕ → ℕ → ℕ → Run Tracked
insert_before memory s buffer offset length = do
  b ← load s.heap buffer
  if b.offset == u64 (offset + length) then merge_before s buffer offset length else (do
    adjacent ← ends_at s.heap b.prev offset
    if adjacent then extend_prev s b.prev length else insert_in_front memory s buffer offset length)

unfoldable pub insert_merge_buffer : Option ℕ → Tracked → ℕ → ℕ → ℕ → Run Tracked
insert_merge_buffer memory s buffer offset length = do
  b ← load s.heap buffer
  if leb (u64 (b.offset + b.length)) offset
      then insert_after memory s buffer offset length
      else insert_before memory s buffer offset length
