-- ===== src/Debug/Register.antt =====
-- `debug_register` of cleanq/backends/debug/debug_queue.c.
use cleanq_linux.Base.{
  ℕ, ◌<◌, ◌^◌, ◌≡◌, refl, sym, ap, ◌∙◌, ◌≢◌, true, false, Option, none, some, List, [], ◌∷◌, ◌++◌,
  done, Returns, arith,
}
use cleanq_linux.Types.{ok, Capref}
use cleanq_linux.Slab.{SlabAllocator, slab_alloc}
use cleanq_linux.Cleanq.{Cleanq, Backend}
use cleanq_linux.Chunks.{MemoryEle, Heap, write, new_ele}
use cleanq_linux.Chunks.Linked.{chunk, Chunks, has, cons, nil, frame-write, not-has_of_none}
use cleanq_linux.Chunks.Owns.{Sorted, end}
use cleanq_linux.Debug.{MemoryList, Debugq}
use cleanq_linux.Debug.Receive.{append_region}
use cleanq_linux.Debug.Control.{debug_register}
use cleanq_linux.Debug.Regions.{Area, area, IsTracked, Apart, AllTracked, regions_of-append}
use cleanq_linux.Debug.Stored.{Tracks}

-- a write to an element of no region
pub write-IsTracked :
    (h : Heap) (p : ℕ) (e : Option MemoryEle) (a : Area)
    → has p a.chunks ≡ false
    → IsTracked h a
    → IsTracked (write h p e) a
write-IsTracked h p e a out t = record {
  start = t.start;
  linked = frame-write p e (t.linked) out;
  within = t.within;
  narrow = t.narrow;
}

module _ (h : Heap) (blk : ℕ) (e : MemoryEle) (unused : h blk ≡ none) (new : Area)
    (made : IsTracked (write h blk (some e)) new)
    (only : (a : ℕ) → has a new.chunks ≡ true → a ≡ blk) where
  extend_Apart :
      (cs : Chunks) (ts : List Area) → has blk cs ≡ false → Apart cs ts → Apart cs (ts ++ new ∷ [])
  extend_Apart cs [] out apart = ((λ a i. ground (arith, only a)), tt)
  extend_Apart cs (t ∷ ts) out (here, apart) = (here, extend_Apart cs ts out apart)

  append_tracked :
      (ts : List Area) → AllTracked h ts → AllTracked (write h blk (some e)) (ts ++ new ∷ [])
  append_tracked [] all = (made, tt, tt)
  append_tracked (a ∷ ts) (t, apart, all) =
      let out : has blk a.chunks ≡ false = not-has_of_none blk (t.linked) unused in
      (
        write-IsTracked h blk (some e) a out t,
        extend_Apart a.chunks ts out apart,
        append_tracked ts all,
      )

-- The region `rid` of `length` bytes has joined the regions `ts`, all of it owned in one chunk.
pub record Registered {S : Type 0} (ts : List Area) (rid length : ℕ) (q : Cleanq S) (d' : Debugq S)
    : Type 0 where
  pub region : MemoryList
  pub block : ℕ
  pub tracks : Tracks d' (ts ++ area region (chunk block 0 length ∷ []) ∷ [])
  pub wrapped : d'.q ≡ q
  pub has_id : region.rid ≡ rid
  pub has_length : region.length ≡ length
  pub consistent : region.not_consistent ≡ false

module _ {S : Type 0} (memory memory_list : Option ℕ) (f : Backend S) (d : Debugq S)
    (ts : List Area) (tracks : Tracks d ts) (cap₀ : Capref) (rid : ℕ) where
  new_region : ℕ → MemoryList
  new_region addr = record {
    addr = addr;
    rid = rid;
    length = cap₀.len;
    not_consistent = false;
    buffers = 0;
  }

  -- In a debug queue that tracks its regions, when the wrapped queue registers the region and both
  -- allocators have a block, that of the chunk unused, `debug_register` of a region with a 64-bit
  -- length ends with no error, and the region joins the end of the list with all of its bytes
  -- owned in one chunk; all regions are tracked.
  pub debug_register-Registered :
      (q : Cleanq S) (addr : ℕ) (alloc_list : SlabAllocator) (blk : ℕ) (alloc : SlabAllocator)
      → f.reg d.q cap₀ rid ≡ done (ok, q)
      → slab_alloc memory_list d.alloc_list ≡ done (some addr, alloc_list)
      → slab_alloc memory d.alloc ≡ done (some blk, alloc)
      → d.heap blk ≡ none
      → blk ≢ 0
      → cap₀.len < 2 ^ 64
      → Returns
          (debug_register memory memory_list f d cap₀ rid)
          λ e. (e.0 ≡ ok) × Registered ts rid cap₀.len q e.1
  unfolding debug_register append_region new_ele new_region write Sorted end
  debug_register-Registered q addr alloc_list blk alloc run gives_list gives unused ne_null narrow =
      let new : MemoryList = record (new_region addr) { buffers = blk } in
      let e : MemoryEle = record { offset = 0; length = cap₀.len; next = 0; prev = 0 } in
      let made : IsTracked (write d.heap blk (some e)) (area new (chunk blk 0 cap₀.len ∷ [])) =
        record {
          start = refl;
          linked = cons (record { ne_null = ne_null; holds = ground arith }) refl nil;
          within = record { sorted = (omega arith, tt); bounded = omega arith };
          narrow = narrow;
        } in
      rw (run, gives_list, gives)
        (
          _,
          refl,
          (
            refl,
            record {
              region = new;
              block = blk;
              tracks = record {
                regions =
                    ap (λ rs. rs ++ new ∷ []) (tracks.regions)
                    ∙ sym (regions_of-append ts (area new (chunk blk 0 cap₀.len ∷ []) ∷ []));
                all =
                    append_tracked d.heap blk e unused (area new (chunk blk 0 cap₀.len ∷ [])) made
                      (ground arith) ts (tracks.all);
              };
              wrapped = refl;
              has_id = refl;
              has_length = refl;
              consistent = refl;
            },
          ),
        )
