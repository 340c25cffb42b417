-- ===== src/Debug/Back.antt =====
-- A buffer that `debug_dequeue` of debug_queue.c has received joins the chunks of its region.
use cleanq_linux.Base.{
  ℕ, ◌+◌, ◌<◌, ◌≤◌, ◌≡◌, refl, sym, ap, ◌∙◌, true, false, ◌||◌, Option, some, List, [], ◌∷◌, ◌++◌,
  done, Returns, arith, length, ◌==◌,
}
use mathlib.Core.Path.{subst}
use cleanq_linux.Types.{ok, Buf}
use cleanq_linux.Slab.{SlabAllocator, slab_free}
use cleanq_linux.Cleanq.{Cleanq}
use cleanq_linux.Chunks.{Tracked, write, new_ele, buffer_in_bounds}
use cleanq_linux.Chunks.Linked.{
  Chunk, chunk, Chunks, has, has-append, cons, nil, not_null, load-done,
}
use cleanq_linux.Chunks.Carve.{buffer_in_bounds_iff}
use cleanq_linux.Chunks.Relink.{Holds, take_out}
use cleanq_linux.Chunks.Split.{Gives}
use cleanq_linux.Chunks.Owns.{covers, owns, Sorted, end}
use cleanq_linux.Chunks.Gain.{Within, Within-chunk}
use cleanq_linux.Chunks.Grown.{Grown}
use cleanq_linux.Chunks.Merge.{Fits, insert_merge_buffer-Grown}
use cleanq_linux.Debug.{MemoryList, Debugq, find_place, tracked}
use cleanq_linux.Debug.Receive.{give_back, first_back, dequeue_at}
use cleanq_linux.Debug.Regions.{Area, area, AllTracked, place_of, here-IsTracked}
use cleanq_linux.Debug.Stored.{Updated, stored-Updated}
use cleanq_linux.Debug.Walk.{find_place-Stops}
use cleanq_linux.Debug.Clear.{Clear, Judged, Stops-Fits}

-- The buffer is back: `q` is the wrapped queue, and the region's chunks, that were `cs`, cover the
-- same bytes and those of the buffer.
pub record Received {S : Type 0} (before : List Area) (r : MemoryList) (cs : Chunks)
    (after : List Area) (q : Cleanq S) (b : Buf) (d' : Debugq S) : Type 0 where
  pub chunks : Chunks
  pub updated : Updated before r after q chunks d'
  pub gained : (x : ℕ) → owns chunks x ≡ (owns cs x || covers b.offset b.length x)

-- what the code may ask of the allocator of the elements
pub record Serves (memory : Option ℕ) (s : Tracked) (cs : Chunks) : Type 0 where
  pub block : ℕ
  pub left : SlabAllocator
  pub gives : Gives memory s block left
  pub frees :
      (p : ℕ) → has p cs ≡ true → (a : SlabAllocator) × (slab_free s.alloc (some p) ≡ done a)

module _ {S : Type 0} (fuel : ℕ) (memory : Option ℕ) (d : Debugq S) (before : List Area)
    (r : MemoryList) (after : List Area) (b : Buf) (pos : 0 < b.length)
    (fits : b.offset + b.length ≤ r.length) where
  first_back-Received :
      AllTracked d.heap (before ++ area r [] ∷ after)
      → Serves memory (tracked d r) []
      → Returns
          (first_back memory d (place_of before (area r []) after) b)
          λ e. (e.0 ≡ ok) × Received before r [] after d.q b e.1
  unfolding first_back new_ele write owns Sorted end
  first_back-Received all serves =
      let t = here-IsTracked before (area r []) after all in
      let blk = serves.block in
      let g : Gives memory (tracked d r) blk (serves.left) = serves.gives in
      let new : Chunks = chunk blk b.offset b.length ∷ [] in
      rw (g.run) (
        _,
        refl,
        (
          refl,
          record {
            chunks = new;
            updated =
                stored-Updated d before r [] after
                  (record {
                    buffers = blk;
                    heap = write d.heap blk (
                        some (record { offset = b.offset; length = b.length; next = 0; prev = 0 }));
                    alloc = serves.left;
                  })
                  new all
                  (record {
                    start = refl;
                    linked = cons (record { ne_null = g.ne_null; holds = ground arith }) refl nil;
                  })
                  (record { sorted = (omega arith, tt); bounded = fits })
                  (record {
                    spares = λ a e h out. ground (arith, g.unused);
                    only = λ a i out. ground (arith, g.unused);
                  });
            gained = ground arith;
          },
        ),
      )

  give_back-Received :
      (cs xs : Chunks) (c : Chunk) (ys : Chunks)
      → cs ≡ xs ++ c ∷ ys
      → AllTracked d.heap (before ++ area r cs ∷ after)
      → Fits c.offset c.length b.offset b.length xs ys
      → Serves memory (tracked d r) cs
      → Returns
          (give_back memory d (place_of before (area r cs) after) c.addr b)
          λ e. (e.0 ≡ ok) × Received before r cs after d.q b e.1
  unfolding give_back
  give_back-Received cs xs c ys same all place serves =
      let t = here-IsTracked before (area r cs) after all in
      let held : Holds (tracked d r) cs = record { start = t.start; linked = t.linked } in
      let holds : Holds (tracked d r) (xs ++ c ∷ ys) = rw same at held in
      let within : Within r.length (xs ++ c ∷ ys) = rw same at (t.within) in
      let a = take_out xs holds in
      let (low, high) = Within-chunk r.length xs ys c.addr c.offset c.length within in
      let iff =
        buffer_in_bounds_iff c.offset c.length b.offset b.length (omega (arith, t.narrow))
          (omega (arith, t.narrow)) in
      let outside : buffer_in_bounds b.offset b.length c.offset c.length ≡ false =
        ground (arith, iff.0) in
      let (alloc', freed) = serves.frees c.addr (ground (arith, has-append c.addr xs (c ∷ ys))) in
      let (s, run, grown) =
        insert_merge_buffer-Grown r.length (t.narrow) memory serves.block serves.left alloc'
          (tracked d r) c.addr c.offset c.length b.offset b.length xs ys pos fits holds within
          (serves.gives) freed place in
      let g = subst (λ z. Grown r.length (tracked d r) z b.offset b.length s) (sym same) grown in
      rw (load-done (a.here), outside, run)
        (
          _,
          refl,
          (
            refl,
            record {
              chunks = g.chunks;
              updated =
                  stored-Updated d before r cs after s (g.chunks) all (g.holds) (g.gains.within)
                    (record { spares = g.spares; only = g.only });
              gained = g.gains.gained;
            },
          ),
        )

  pub dequeue_at-Received :
      (cs : Chunks)
      → AllTracked d.heap (before ++ area r cs ∷ after)
      → length cs ≤ fuel
      → Clear b.offset b.length cs
      → Judged b.offset b.length cs
      → Serves memory (tracked d r) cs
      → Returns
          (dequeue_at fuel memory d (place_of before (area r cs) after) b)
          λ e. (e.0 ≡ ok) × Received before r cs after d.q b e.1
  unfolding dequeue_at
  dequeue_at-Received [] all enough clear judged serves =
      let t = here-IsTracked before (area r []) after all in
      let null : (r.buffers == 0) ≡ true = ground (arith, t.start) in
      rw null (first_back-Received all serves)
  dequeue_at-Received (c ∷ cs) all enough clear judged serves =
      let t = here-IsTracked before (area r (c ∷ cs)) after all in
      let stop = find_place-Stops fuel c cs b.offset (t.linked) enough in
      let place : Fits stop.here.offset stop.here.length b.offset b.length stop.before stop.after =
        Stops-Fits b.offset b.length stop.before stop.here stop.after pos (rw (stop.same) at clear)
          (rw (stop.same) at judged) (stop.earlier) (stop.later) in
      elim (t.linked) [
        | cons e out s ↦
            let some_chunk : (r.buffers == 0) ≡ false = ground (arith, t.start, not_null e) in
            let run : find_place fuel d.heap r.buffers b.offset ≡ done stop.here.addr =
              ap (λ p. find_place fuel d.heap p b.offset) (t.start) ∙ stop.run in
            rw (some_chunk, run)
              (give_back-Received (c ∷ cs) stop.before stop.here stop.after (stop.same) all place
                serves)
      ]
