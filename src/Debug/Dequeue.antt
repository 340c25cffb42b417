-- ===== src/Debug/Dequeue.antt =====
-- `debug_dequeue` of cleanq/backends/debug/debug_queue.c: a buffer that comes back is owned again.
use cleanq_linux.Base.{
  ℕ, ◌+◌, ◌<◌, ◌≤◌, ◌^◌, ◌≡◌, refl, ◌⊎◌, inl, inr, true, ◌&&◌, Option, List, ◌∷◌, ◌++◌, done,
  Returns, arith, ltb, length, Bool-cases,
}
use cleanq_linux.Types.{u64, Errval, ok, err_is_fail, Buf}
use cleanq_linux.Cleanq.{Cleanq, Backend}
use cleanq_linux.Chunks.{Heap}
use cleanq_linux.Chunks.Linked.{Chunks}
use cleanq_linux.Debug.{MemoryList, Debugq, tracked}
use cleanq_linux.Debug.Receive.{lengthened, dequeue_in, debug_dequeue}
use cleanq_linux.Debug.Regions.{Area, area, AllTracked, NoneHas, here-IsTracked, change_tracked}
use cleanq_linux.Debug.Stored.{Tracks, find_tracked}
use cleanq_linux.Debug.Clear.{Clear, Judged}
use cleanq_linux.Debug.Back.{Received, Serves, dequeue_at-Received}

-- a region known only from its buffers is long enough for the buffer
lengthened_tracked :
    (h : Heap) (before : List Area) (r : MemoryList) (cs : Chunks) (after : List Area) (b : Buf)
    → b.offset + b.length < 2 ^ 64
    → AllTracked h (before ++ area r cs ∷ after)
    → AllTracked h (before ++ area (lengthened r b) cs ∷ after)
lengthened_tracked h before r cs after b narrow all =
    let t = here-IsTracked before (area r cs) after all in
    change_tracked
      (record { spares = λ a e held out. held; only = λ a i out. absurd (ground arith) }) before r
      (lengthened r b) after all
      (elim (Bool-cases (r.not_consistent && ltb r.length (u64 (b.offset + b.length)))) [
        | inr long ↦ rw long t
        | inl short ↦ rw short (record {
          start = t.start;
          linked = t.linked;
          within = record { sorted = t.within.sorted; bounded = ground (arith, t.within.bounded) };
          narrow = omega arith;
        })
      ])

long_enough :
    (r : MemoryList) (b : Buf)
    → b.offset + b.length < 2 ^ 64
    → (r.not_consistent ≡ true) ⊎ (b.offset + b.length ≤ r.length)
    → b.offset + b.length ≤ (lengthened r b).length
long_enough r b narrow fits =
    let sum : u64 (b.offset + b.length) ≡ b.offset + b.length = omega arith in
    elim (Bool-cases (r.not_consistent && ltb r.length (u64 (b.offset + b.length)))) [
      | inl short ↦ rw short (omega arith)
      | inr long ↦ rw long (ground arith)
    ]

module _ {S : Type 0} (fuel : ℕ) (memory memory_list : Option ℕ) (f : Backend S) (d : Debugq S)
    (out : Buf) where
  -- An error of the wrapped queue is returned with what it left in the caller's variables; the
  -- chunks are as they were.
  pub debug_dequeue-error :
      (err : Errval) (b : Buf) (q : Cleanq S)
      → f.deq d.q out ≡ done (err, b, q)
      → err_is_fail err ≡ true
      → debug_dequeue fuel memory memory_list f d out ≡ done (err, b, record d { q = q })
  unfolding debug_dequeue
  debug_dequeue-error err b q run fails = rw (run, fails)

  -- In a debug queue that tracks its regions, with fuel for the chunks of the region, when the
  -- wrapped queue delivers a buffer that is not empty, names a known region, lies in it or the
  -- region is known only from its buffers, ends below 2 ^ 64 and overlaps no chunk:
  -- `debug_dequeue` ends with no error and delivers the buffer. The chunks of the region, made
  -- longer for the buffer if it is known only from buffers, then cover what they covered and the
  -- bytes of the buffer, and all regions are tracked, the others with the chunks they had. It is
  -- assumed that the test for a buffer behind the last chunk, which adds the length of the buffer
  -- to the beginning of the chunk, is right about it, that the allocator has an unused block, and
  -- that it takes back the blocks of the chunks.
  pub debug_dequeue-Received :
      (before : List Area) (r : MemoryList) (cs : Chunks) (after : List Area) (b : Buf)
      (q : Cleanq S)
      → f.deq d.q out ≡ done (ok, b, q)
      → Tracks d (before ++ area r cs ∷ after)
      → NoneHas b.rid before
      → r.rid ≡ b.rid
      → length cs ≤ fuel
      → 0 < b.length
      → b.offset + b.length < 2 ^ 64
      → (r.not_consistent ≡ true) ⊎ (b.offset + b.length ≤ r.length)
      → Clear b.offset b.length cs
      → Judged b.offset b.length cs
      → Serves memory (tracked d (lengthened r b)) cs
      → Returns
          (debug_dequeue fuel memory memory_list f d out)
          λ e. (e.0 ≡ ok) × (e.1 ≡ b) × Received before (lengthened r b) cs after q b e.2
  unfolding debug_dequeue dequeue_in
  debug_dequeue-Received before r cs after b q run tracks none_has id enough pos narrow fits clear
        judged serves =
      let all = lengthened_tracked d.heap before r cs after b narrow (tracks.all) in
      let place = find_tracked d before r after b.rid cs tracks none_has id in
      let (e, back, (fine, received)) =
        dequeue_at-Received fuel memory (record d { q = q }) before (lengthened r b) after b pos
          (long_enough r b narrow fits) cs all enough clear judged serves in
      rw (run, place, back) (_, refl, (fine, refl, received))
