-- ===== src/Debug/Through.antt =====
-- A buffer on its way through a debug queue (cleanq/backends/debug/debug_queue.c) and back.
use cleanq_linux.Base.{
  ℕ, ◌+◌, ◌<◌, ◌≤◌, ◌≡◌, refl, ap, ◌∙◌, inl, inr, true, not, ◌&&◌, ◌||◌, Option, some, List, ◌∷◌,
  ◌++◌, done, ◌>>=◌, Returns, arith, length, Bool-cases,
}
use cleanq_linux.Types.{ok, Buf}
use cleanq_linux.Slab.{SlabAllocator, slab_free}
use cleanq_linux.Cleanq.{Cleanq, Backend}
use cleanq_linux.Chunks.Linked.{chunk, Chunks}
use cleanq_linux.Chunks.Carve.{Inside, carve}
use cleanq_linux.Chunks.Split.{Gives}
use cleanq_linux.Chunks.Owns.{covers, owns, owns-append}
use cleanq_linux.Chunks.Gain.{Within-chunk}
use cleanq_linux.Debug.{MemoryList, Debugq, tracked, debug_enqueue}
use cleanq_linux.Debug.Receive.{debug_dequeue, lengthened}
use cleanq_linux.Debug.Regions.{Area, area, NoneHas, here-IsTracked}
use cleanq_linux.Debug.Stored.{Tracks}
use cleanq_linux.Debug.Enqueue.{debug_enqueue-Sent}
use cleanq_linux.Debug.Clear.{Judged, Clear-cut}
use cleanq_linux.Debug.Back.{Serves}
use cleanq_linux.Debug.Dequeue.{debug_dequeue-Received}

owns-chunk :
    (xs ys : Chunks) (p o l offset length x : ℕ)
    → Inside o l offset length
    → covers offset length x ≡ true
    → owns (xs ++ chunk p o l ∷ ys) x ≡ true
unfolding owns
owns-chunk xs ys p o l offset length x i here =
    rw (owns-append xs (chunk p o l ∷ ys) x) (ground (arith, i.from, i.to))

-- The region has the chunks `chunks` now, which cover what `cs` cover.
pub record Restored {S : Type 0} (before : List Area) (cs : Chunks) (after : List Area)
    (d' : Debugq S) : Type 0 where
  pub region : MemoryList
  pub chunks : Chunks
  pub tracks : Tracks d' (before ++ area region chunks ∷ after)
  pub same : (x : ℕ) → owns chunks x ≡ owns cs x

-- In a debug queue that tracks its regions, with fuel for the chunks of the region, a buffer that
-- is sent from a chunk and that the wrapped queue then gives back: both calls end with no error,
-- the dequeue delivers the buffer, and the region's chunks cover the bytes that they covered
-- before, with all regions tracked. Assumed of the buffer, the fuel and the allocator is what the
-- two calls need: the buffer is not empty and lies in one chunk, the test for a buffer behind the
-- last chunk is right about it, and blocks are given and taken back.
pub debug_enqueue-dequeue :
    {S : Type 0} (fuel : ℕ) (memory memory' memory_list : Option ℕ) (f : Backend S) (d : Debugq S)
    (before : List Area) (r : MemoryList) (after : List Area) (b out : Buf) (xs ys : Chunks)
    (p o l : ℕ) (blk : ℕ) (alloc alloc' : SlabAllocator) (q q' : Cleanq S)
    → Tracks d (before ++ area r (xs ++ chunk p o l ∷ ys) ∷ after)
    → NoneHas b.rid before
    → r.rid ≡ b.rid
    → length (xs ++ chunk p o l ∷ ys) ≤ fuel
    → length (xs ++ (carve p o l b.offset b.length blk ++ ys)) ≤ fuel
    → Inside o l b.offset b.length
    → f.enq d.q b ≡ done (ok, q)
    → f.deq q out ≡ done (ok, b, q')
    → (o < b.offset → b.offset + b.length < o + l → Gives memory (tracked d r) blk alloc)
    → (b.offset ≡ o → b.length ≡ l → slab_free d.alloc (some p) ≡ done alloc')
    → Judged b.offset b.length (xs ++ (carve p o l b.offset b.length blk ++ ys))
    → ((d' : Debugq S) (r' : MemoryList)
        → debug_enqueue fuel memory f d b ≡ done (ok, d')
        → Serves memory' (tracked d' r') (xs ++ (carve p o l b.offset b.length blk ++ ys)))
    → Returns
        (debug_enqueue fuel memory f d b >>= λ e.
          debug_dequeue fuel memory' memory_list f (e.1) out)
        λ e.
          (e.0 ≡ ok) × (e.1 ≡ b) × (e.2.q ≡ q') × Restored before (xs ++ chunk p o l ∷ ys) after e.2
debug_enqueue-dequeue fuel memory memory' memory_list f d before r after b out xs ys p o l blk alloc
      alloc' q q' tracks none_has id enough enough' i run run' gives freed judged serves =
    let (e, went, (fine, sent)) =
      debug_enqueue-Sent fuel memory f d before r after b xs ys p o l tracks none_has id enough i
        blk alloc alloc' q run gives freed in
    let u = sent.updated in
    let t = here-IsTracked before (area r (xs ++ chunk p o l ∷ ys)) after (tracks.all) in
    let (low, high) = Within-chunk r.length xs ys p o l (t.within) in
    let went' : debug_enqueue fuel memory f d b ≡ done (ok, e.1) =
      went ∙ ap (λ x. done (x, e.1)) fine in
    let run'' : f.deq e.1.q out ≡ done (ok, b, q') = ap (λ w. f.deq w out) (u.wrapped) ∙ run' in
    let (e', back, (fine', same, received)) =
      debug_dequeue-Received fuel memory' memory_list f (e.1) out before (u.region)
        (xs ++ (carve p o l b.offset b.length blk ++ ys)) after b q' run'' (u.tracks) none_has
        (u.same_id ∙ id) enough' (i.some_byte) (omega (arith, i.to, i.range))
        (inr (omega (arith, i.to, high, u.same_length)))
        (Clear-cut xs ys p o l b.offset b.length blk i (t.within.sorted)) judged
        (serves (e.1) (lengthened (u.region) b) went') in
    rw (went', ◌>>=◌, back)
      (
        e',
        refl,
        (
          fine',
          same,
          received.updated.wrapped,
          record {
            region = received.updated.region;
            chunks = received.chunks;
            tracks = received.updated.tracks;
            same = λ x.
                received.gained x
                ∙ ap (λ w. w || covers b.offset b.length x) (sent.left x)
                ∙ restored x;
          },
        ),
      )
  where
    restored :
        (x : ℕ)
        → ((owns (xs ++ chunk p o l ∷ ys) x && not (covers b.offset b.length x))
            || covers b.offset b.length x)
          ≡ owns (xs ++ chunk p o l ∷ ys) x
    restored x = elim (Bool-cases (covers b.offset b.length x)) [
      | inl here ↦ rw (here, owns-chunk xs ys p o l b.offset b.length x i here)
      | inr away ↦ rw away (ground arith)
    ]
