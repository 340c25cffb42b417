-- ===== src/Debug/Deregister.antt =====
-- `debug_deregister` of cleanq/backends/debug/debug_queue.c.
use cleanq_linux.Base.{
  ℕ, ◌≤◌, ◌≡◌, refl, sym, ap, ◌∙◌, Bool, true, false, ◌&&◌, none, some, List, [], ◌∷◌, ◌++◌, done,
  crash, Returns, arith, length, ◌==◌,
}
use cleanq_linux.Types.{Errval, ok, region_destroy, err_is_fail}
use cleanq_linux.Slab.{SlabAllocator, slab_free}
use cleanq_linux.Cleanq.{Cleanq, Backend}
use cleanq_linux.Chunks.{MemoryEle, Heap, write, load, free_ele}
use cleanq_linux.Chunks.Linked.{
  Chunk, Chunks, first, has, Linked, cons, not_null, load-done, Disjoint,
}
use cleanq_linux.Debug.{MemoryList, Debugq, dump_list}
use cleanq_linux.Debug.Control.{
  whole, dumped, remove_region, deregister_at, deregister_found, debug_deregister,
}
use cleanq_linux.Debug.Regions.{
  Area, area, IsTracked, Apart, AllTracked, regions_of, regions_of-append, place_of, NoneHas,
  here-IsTracked,
}
use cleanq_linux.Debug.Stored.{Tracks, find_tracked}
use cleanq_linux.Debug.Walk.{dump_list-done}
use cleanq_linux.Debug.Register.{write-IsTracked}

module _ (h : Heap) (p : ℕ) (cs : Chunks) (mine : has p cs ≡ true) where
  free_others : (ts : List Area) → Apart cs ts → AllTracked h ts → AllTracked (write h p none) ts
  free_others [] apart all = tt
  free_others (a ∷ ts) (here, others) (t, apart, all) =
      (write-IsTracked h p none a (here p mine) t, apart, free_others ts others all)

  drop_Apart :
      (ds : Chunks) (before : List Area) (r : MemoryList) (after : List Area)
      → Apart ds (before ++ area r cs ∷ after)
      → Disjoint ds cs × Apart ds (before ++ after)
  drop_Apart ds [] r after (here, others) = (here, others)
  drop_Apart ds (a ∷ before) r after (here, others) =
      let (meet, rest) = drop_Apart ds before r after others in (meet, (here, rest))

  -- the region of the chunks `cs` goes, and its element at `p` is freed
  drop_tracked :
      (before : List Area) (r : MemoryList) (after : List Area)
      → AllTracked h (before ++ area r cs ∷ after)
      → AllTracked (write h p none) (before ++ after)
  drop_tracked [] r after (t, apart, all) = free_others after apart all
  drop_tracked (a ∷ before) r after (t, apart, all) =
      let (meet, rest) = drop_Apart a.chunks before r after apart in
      (write-IsTracked h p none a (ground (arith, meet p)) t, rest, drop_tracked before r after all)

-- whether the chunks are the whole region, in one
unfoldable pub is_whole : ℕ → Chunks → Bool
is_whole len [] = false
is_whole len (c ∷ []) = (c.offset == 0) && (c.length == len)
is_whole len (c ∷ d ∷ ds) = false

-- the fuel is enough for the chunks of each region
abbrev pub Enough : ℕ → List Area → Type 0
Enough fuel [] = Unit {0}
Enough fuel (a ∷ ts) = (length a.chunks ≤ fuel) × Enough fuel ts

-- `dump_list` of what `debug_deregister` prints ends
dumped-done :
    (fuel : ℕ) (h : Heap) (before : List Area) (a : Area) (after : List Area)
    → AllTracked h (before ++ a ∷ after)
    → Enough fuel (before ++ a ∷ after)
    → (b : Area) → IsTracked h b
    → length b.chunks ≤ fuel
    → Returns (dump_list fuel h ((dumped (regions_of before) b.region).buffers)) λ lines. Unit {0}
dumped-done fuel h [] a after all enough b t few =
    let (lines, run, count) = dump_list-done fuel b.chunks (t.linked) few in
    (lines, ap (λ p. dump_list fuel h p) (t.start) ∙ run, tt)
dumped-done fuel h (c ∷ before) a after (t, apart, all) (few, enough) b t' few' =
    dumped-done fuel h before a after all enough c t few

here_few :
    (fuel : ℕ) (before : List Area) (a : Area) (after : List Area)
    → Enough fuel (before ++ a ∷ after)
    → length a.chunks ≤ fuel
here_few fuel [] a after (few, enough) = few
here_few fuel (b ∷ before) a after (few, enough) = here_few fuel before a after enough

whole-is_whole :
    (h : Heap) (r : MemoryList) (c : Chunk) (cs : Chunks) (prev : ℕ)
    → Linked h 0 prev (c ∷ cs)
    → whole r (record { offset = c.offset; length = c.length; next = first cs 0; prev = prev })
      ≡ is_whole r.length (c ∷ cs)
unfolding is_whole
whole-is_whole h r c [] prev s = ground arith
whole-is_whole h r c (d ∷ ds) prev (cons e out (cons e' out' s)) = ground (arith, not_null e')

reads_first :
    (h : Heap) (r : MemoryList) (c : Chunk) (cs : Chunks)
    → IsTracked h (area r (c ∷ cs))
    → (e : MemoryEle) × (load h r.buffers ≡ done e) × (whole r e ≡ is_whole r.length (c ∷ cs))
reads_first h r c cs t = elim (t.linked) [
  | cons e out s ↦
      (_, ap (load h) (t.start) ∙ load-done e, whole-is_whole h r c cs 0 (cons e out s))
]

module _ {S : Type 0} (fuel : ℕ) (f : Backend S) (d : Debugq S) (before : List Area)
    (r : MemoryList) (after : List Area) (none_has : NoneHas r.rid before) where
  found :
      (cs : Chunks)
      → Tracks d (before ++ area r cs ∷ after)
      → debug_deregister fuel f d r.rid
        ≡ deregister_at fuel f d (place_of before (area r cs) after) r.rid
  unfolding debug_deregister
  found cs tracks =
      ap (deregister_found fuel f d r.rid)
        (find_tracked d before r after r.rid cs tracks none_has refl)

  -- In a debug queue that tracks its regions, with fuel for the chunks of each, a region of which
  -- something is owned, but not all of it in one chunk, is not deregistered: the first region of
  -- that id stays, the result is CLEANQ_ERR_REGION_DESTROY, and nothing changes, whatever the
  -- functions of the wrapped queue are: it is not called.
  pub debug_deregister-refuses :
      (c : Chunk) (cs : Chunks)
      → Tracks d (before ++ area r (c ∷ cs) ∷ after)
      → Enough fuel (before ++ area r (c ∷ cs) ∷ after)
      → is_whole r.length (c ∷ cs) ≡ false
      → debug_deregister fuel f d r.rid ≡ done (region_destroy, d)
  unfolding deregister_at
  debug_deregister-refuses c cs tracks enough part =
      let a = area r (c ∷ cs) in
      let t = here-IsTracked before a after (tracks.all) in
      let (e, run, same) = reads_first d.heap r c cs t in
      let (lines, printed, u) =
        dumped-done fuel d.heap before a after (tracks.all) enough a t
          (here_few fuel before a after enough) in
      found (c ∷ cs) tracks ∙ rw (run, same, part, printed)

  -- Where nothing of the region is owned, `debug_deregister` goes through a null pointer.
  pub debug_deregister-crashes :
      Tracks d (before ++ area r [] ∷ after) → debug_deregister fuel f d r.rid ≡ crash
  unfolding deregister_at load
  debug_deregister-crashes tracks =
      let t = here-IsTracked before (area r []) after (tracks.all) in
      let null : (r.buffers == 0) ≡ true = ground (arith, t.start) in found [] tracks ∙ rw null

  -- A region that is owned as a whole, in one chunk, is handed to the wrapped queue. If that fails,
  -- its error is returned and the region stays.
  pub debug_deregister-error :
      (c : Chunk) (cs : Chunks) (err : Errval) (q : Cleanq S)
      → Tracks d (before ++ area r (c ∷ cs) ∷ after)
      → is_whole r.length (c ∷ cs) ≡ true
      → f.dereg d.q r.rid ≡ done (err, q)
      → err_is_fail err ≡ true
      → debug_deregister fuel f d r.rid ≡ done (err, record d { q = q })
  unfolding deregister_at
  debug_deregister-error c cs err q tracks all_of_it refused fails =
      let t = here-IsTracked before (area r (c ∷ cs)) after (tracks.all) in
      let (e, run, same) = reads_first d.heap r c cs t in
      found (c ∷ cs) tracks ∙ rw (run, same, all_of_it, refused, fails)

  -- In a debug queue that tracks its regions, a region that is owned as a whole, in one chunk,
  -- that the wrapped queue deregisters, and whose blocks the allocators take back, is gone after
  -- `debug_deregister`, which ends with no error; the other regions are tracked with the chunks
  -- they had.
  pub debug_deregister-removes :
      (c : Chunk) (cs : Chunks) (q : Cleanq S) (alloc alloc_list : SlabAllocator)
      → Tracks d (before ++ area r (c ∷ cs) ∷ after)
      → is_whole r.length (c ∷ cs) ≡ true
      → f.dereg d.q r.rid ≡ done (ok, q)
      → slab_free d.alloc (some c.addr) ≡ done alloc
      → slab_free d.alloc_list (some r.addr) ≡ done alloc_list
      → Returns
          (debug_deregister fuel f d r.rid)
          λ e. (e.0 ≡ ok) × (e.1.q ≡ q) × Tracks e.1 (before ++ after)
  unfolding deregister_at remove_region free_ele
  debug_deregister-removes c cs q alloc alloc_list tracks all_of_it agrees freed freed_list =
      let t = here-IsTracked before (area r (c ∷ cs)) after (tracks.all) in
      let (e, run, same) = reads_first d.heap r c cs t in
      let freed' : slab_free d.alloc (some r.buffers) ≡ done alloc =
        ap (λ p. slab_free d.alloc (some p)) (t.start) ∙ freed in
      let mine : has r.buffers (c ∷ cs) ≡ true = ground (arith, t.start) in
      rw (found (c ∷ cs) tracks, run, same, all_of_it, agrees, freed', freed_list)
        (
          _,
          refl,
          (
            refl,
            refl,
            record {
              regions = sym (regions_of-append before after);
              all = drop_tracked d.heap r.buffers (c ∷ cs) mine before r after (tracks.all);
            },
          ),
        )
