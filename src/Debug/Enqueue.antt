-- ===== src/Debug/Enqueue.antt =====
-- `debug_enqueue` of cleanq/backends/debug/debug_queue.c: only a buffer that is owned goes through.
use cleanq_linux.Base.{
  ℕ, ◌+◌, ◌<◌, ◌≤◌, ◌^◌, ◌≡◌, refl, ◌∙◌, true, false, not, ◌&&◌, Option, none, some, List, [], ◌∷◌,
  ◌++◌, done, Returns, arith, ltb, length,
}
use cleanq_linux.Types.{Errval, ok, buffer_already_in_use, invalid_buffer_args, err_is_fail, Buf}
use cleanq_linux.Slab.{SlabAllocator, slab_free}
use cleanq_linux.Cleanq.{Cleanq, Backend}
use cleanq_linux.Chunks.Linked.{Chunk, chunk, Chunks, Linked, cons, not_null, load-done}
use cleanq_linux.Chunks.Carve.{Inside, carve}
use cleanq_linux.Chunks.Split.{Gives}
use cleanq_linux.Chunks.Owns.{covers, owns}
use cleanq_linux.Chunks.Cut.{remove_split_buffer-Shrunk}
use cleanq_linux.Debug.{
  MemoryList, Debugq, Place, tracked, hand_over, enqueue_found, enqueue_at, debug_enqueue,
}
use cleanq_linux.Debug.Regions.{Area, area, IsTracked, place_of, NoneHas, here-IsTracked}
use cleanq_linux.Debug.Walk.{holder, find_chunk-holder, dump_list-done, holder-none, holder-some}
use cleanq_linux.Debug.Stored.{Tracks, Updated, find_tracked, stored-Updated}

-- what `enqueue_at` asks of the first chunk alone is what the walk finds
enqueue_at-holder :
    {S : Type 0} (fuel : ℕ) (memory : Option ℕ) (f : Backend S) (d : Debugq S) (place : Place)
    (b : Buf) (c : Chunk) (cs : Chunks)
    → place.1.buffers ≡ c.addr
    → Linked d.heap 0 0 (c ∷ cs)
    → length (c ∷ cs) ≤ fuel
    → enqueue_at fuel memory f d place b
      ≡ enqueue_found fuel memory f d place b (holder (c ∷ cs) b.offset b.length)
unfolding enqueue_at holder
enqueue_at-holder fuel memory f d place b c [] start (cons e out s) enough =
    rw (start, not_null e, load-done e)
enqueue_at-holder fuel memory f d place b c (d' ∷ ds) start (cons e out (cons e' out' s)) enough =
    rw (
      start,
      not_null e,
      load-done e,
      not_null e',
      find_chunk-holder fuel (c ∷ d' ∷ ds) b.offset b.length (cons e out (cons e' out' s)) enough,
    )

abbrev pub refusal : Chunks → Errval
refusal [] = buffer_already_in_use
refusal (c ∷ cs) = invalid_buffer_args

module _ {S : Type 0} (fuel : ℕ) (memory : Option ℕ) (f : Backend S) (d : Debugq S)
    (before : List Area) (r : MemoryList) (after : List Area) (b : Buf) where
  refuse_at :
      (cs : Chunks)
      → IsTracked d.heap (area r cs)
      → length cs ≤ fuel
      → holder cs b.offset b.length ≡ none
      → enqueue_at fuel memory f d (place_of before (area r cs) after) b ≡ done (refusal cs, d)
  unfolding enqueue_at enqueue_found
  refuse_at [] t enough none_holds = rw (t.start)
  refuse_at (c ∷ cs) t enough none_holds =
      let (lines, run, count) = dump_list-done fuel (c ∷ cs) (t.linked) enough in
      enqueue_at-holder fuel memory f d (place_of before (area r (c ∷ cs)) after) b c cs (t.start)
        (t.linked) enough
      ∙ rw (none_holds, t.start, run)

  send_at :
      (cs : Chunks) (p : ℕ)
      → IsTracked d.heap (area r cs)
      → length cs ≤ fuel
      → holder cs b.offset b.length ≡ some p
      → enqueue_at fuel memory f d (place_of before (area r cs) after) b
        ≡ hand_over memory f d (place_of before (area r cs) after) p b
  unfolding enqueue_found holder
  send_at [] p t enough holds = absurd (ground arith)
  send_at (c ∷ cs) p t enough holds =
      enqueue_at-holder fuel memory f d (place_of before (area r (c ∷ cs)) after) b c cs (t.start)
        (t.linked) enough
      ∙ rw holds

  -- In a debug queue that tracks its regions, with fuel for the chunks of the region,
  -- `debug_enqueue` refuses a buffer of which one byte is not owned, if it is not empty and ends
  -- below 2 ^ 64: with CLEANQ_ERR_BUFFER_ALREADY_IN_USE where nothing of its region is owned, and
  -- CLEANQ_ERR_INVALID_BUFFER_ARGS otherwise. Nothing changes, whatever the functions of the
  -- wrapped queue are: it is not called.
  pub debug_enqueue-refuses :
      (cs : Chunks) (x : ℕ)
      → Tracks d (before ++ area r cs ∷ after)
      → NoneHas b.rid before
      → r.rid ≡ b.rid
      → length cs ≤ fuel
      → 0 < b.length
      → b.offset + b.length < 2 ^ 64
      → covers b.offset b.length x ≡ true
      → owns cs x ≡ false
      → debug_enqueue fuel memory f d b ≡ done (refusal cs, d)
  unfolding debug_enqueue
  debug_enqueue-refuses cs x tracks none_has id enough pos narrow here free =
      let t = here-IsTracked before (area r cs) after (tracks.all) in
      let some_byte : ltb 0 b.length ≡ true = ground arith in
      rw (some_byte, find_tracked d before r after b.rid cs tracks none_has id)
        (refuse_at cs t enough (
          holder-none b.offset b.length pos narrow 0 cs x (t.within.sorted)
            (omega (arith, t.within.bounded, t.narrow)) here free))

-- The enqueue went through: `q` is the wrapped queue after it, and the region's chunks, that were
-- `cs`, are `chunks` and cover the same bytes but for those of the buffer.
pub record Sent {S : Type 0} (before : List Area) (r : MemoryList) (cs : Chunks) (after : List Area)
    (q : Cleanq S) (b : Buf) (chunks : Chunks) (d' : Debugq S) : Type 0 where
  pub updated : Updated before r after q chunks d'
  pub left : (x : ℕ) → owns chunks x ≡ (owns cs x && not (covers b.offset b.length x))

module _ {S : Type 0} (fuel : ℕ) (memory : Option ℕ) (f : Backend S) (d : Debugq S)
    (before : List Area) (r : MemoryList) (after : List Area) (b : Buf) (xs ys : Chunks) (p o l : ℕ)
    (tracks : Tracks d (before ++ area r (xs ++ chunk p o l ∷ ys) ∷ after))
    (none_has : NoneHas b.rid before) (id : r.rid ≡ b.rid)
    (enough : length (xs ++ chunk p o l ∷ ys) ≤ fuel) (i : Inside o l b.offset b.length) where
  abbrev cs : Chunks
  cs = xs ++ chunk p o l ∷ ys

  -- what is left of them; the part behind the buffer is at `blk` if there is one before it, too
  abbrev sent : ℕ → Chunks
  sent blk = xs ++ (carve p o l b.offset b.length blk ++ ys)

  reaches :
      debug_enqueue fuel memory f d b ≡ hand_over memory f d (place_of before (area r cs) after) p b
  unfolding debug_enqueue enqueue_found
  reaches =
      let t = here-IsTracked before (area r cs) after (tracks.all) in
      let narrow : b.offset + b.length < 2 ^ 64 = omega (arith, i.to, i.range) in
      let some_byte : ltb 0 b.length ≡ true = ground (arith, i.some_byte) in
      rw (some_byte, find_tracked d before r after b.rid cs tracks none_has id)
        (send_at fuel memory f d before r after b cs p t enough
          (holder-some b.offset b.length (i.some_byte) narrow 0 xs p o l ys (t.within.sorted) i))

  -- An error of the wrapped queue is returned, and leaves the chunks as they are.
  pub debug_enqueue-error :
      (err : Errval) (q : Cleanq S)
      → f.enq d.q b ≡ done (err, q)
      → err_is_fail err ≡ true
      → debug_enqueue fuel memory f d b ≡ done (err, record d { q = q })
  unfolding hand_over
  debug_enqueue-error err q run fails = reaches ∙ rw (run, fails)

  -- In a debug queue that tracks its regions, with fuel for the chunks of the region,
  -- `debug_enqueue` of a buffer that is not empty and lies in one chunk of the region of its id,
  -- and that the wrapped queue takes, ends with no error. The chunks of the region then cover the
  -- same bytes but for those of the buffer, its length and id are as they were, and all regions
  -- are tracked, the others with the chunks they had. The allocator has an unused block where the
  -- chunk has to be split, and takes the chunk's block back where nothing is left of it.
  pub debug_enqueue-Sent :
      (blk : ℕ) (alloc alloc' : SlabAllocator) (q : Cleanq S)
      → f.enq d.q b ≡ done (ok, q)
      → (o < b.offset → b.offset + b.length < o + l → Gives memory (tracked d r) blk alloc)
      → (b.offset ≡ o → b.length ≡ l → slab_free d.alloc (some p) ≡ done alloc')
      → Returns
          (debug_enqueue fuel memory f d b)
          λ e. (e.0 ≡ ok) × Sent before r cs after q b (sent blk) e.1
  unfolding hand_over
  debug_enqueue-Sent blk alloc alloc' q run gives freed =
      let t = here-IsTracked before (area r cs) after (tracks.all) in
      let (s, cut, shrunk) =
        remove_split_buffer-Shrunk r.length memory blk alloc alloc' (tracked d r) p o l b.offset
          b.length xs ys (record { start = t.start; linked = t.linked }) (t.within) i gives freed in
      rw (reaches, run, cut)
        (
          _,
          refl,
          (
            refl,
            record {
              updated =
                  stored-Updated (record d { q = q }) before r cs after s (sent blk) (tracks.all)
                    (shrunk.holds) (shrunk.within)
                    (record { spares = shrunk.spares; only = shrunk.only });
              left = shrunk.left;
            },
          ),
        )
