-- ===== src/Debug/Stored.antt =====
-- The state of a debug queue (cleanq/backends/debug/debug_queue.c) that tracks its regions, and the
-- update of one of them.
use cleanq_linux.Base.{ℕ, ◌≡◌, refl, sym, ap, ◌∙◌, some, List, ◌∷◌, ◌++◌}
use cleanq_linux.Cleanq.{Cleanq}
use cleanq_linux.Chunks.{Tracked}
use cleanq_linux.Chunks.Linked.{Chunks}
use cleanq_linux.Chunks.Relink.{Holds}
use cleanq_linux.Chunks.Gain.{Within}
use cleanq_linux.Debug.{MemoryList, Debugq, find_region, stored}
use cleanq_linux.Debug.Regions.{
  Area, area, AllTracked, Changes, regions_of, regions_of-append, place_of, NoneHas, find_region-at,
  here-IsTracked, change_tracked,
}

-- The debug queue keeps the regions `ts` and their chunks.
pub record Tracks {S : Type 0} (d : Debugq S) (ts : List Area) : Type 0 where
  pub regions : d.regions ≡ regions_of ts
  pub all : AllTracked d.heap ts

pub find_tracked :
    {S : Type 0} (d : Debugq S) (before : List Area) (r : MemoryList) (after : List Area) (rid : ℕ)
    (cs : Chunks)
    → Tracks d (before ++ area r cs ∷ after)
    → NoneHas rid before
    → r.rid ≡ rid
    → find_region d.regions rid ≡ some (place_of before (area r cs) after)
find_tracked d before r after rid cs tracks none_has id =
    ap (λ rs. find_region rs rid) (tracks.regions)
    ∙ find_region-at rid before (area r cs) after none_has id

-- The chunks of the region of the buffer are now `cs'`; the other regions are as they were, and all
-- are tracked.
pub record Updated {S : Type 0} (before : List Area) (r : MemoryList) (after : List Area)
    (q : Cleanq S) (cs' : Chunks) (d' : Debugq S) : Type 0 where
  pub region : MemoryList
  pub tracks : Tracks d' (before ++ area region cs' ∷ after)
  pub wrapped : d'.q ≡ q
  pub same_id : region.rid ≡ r.rid
  pub same_length : region.length ≡ r.length

-- `stored` after a change of the region's chunks
pub stored-Updated :
    {S : Type 0} (d : Debugq S) (before : List Area) (r : MemoryList) (cs : Chunks)
    (after : List Area) (s : Tracked) (cs' : Chunks)
    → AllTracked d.heap (before ++ area r cs ∷ after)
    → Holds s cs'
    → Within r.length cs'
    → Changes d.heap cs s.heap cs'
    → Updated before r after d.q cs' (stored d (place_of before (area r cs) after) s)
stored-Updated d before r cs after s cs' all holds within c = record {
  region = record r { buffers = s.buffers };
  tracks = record {
    regions = sym (regions_of-append before (area (record r { buffers = s.buffers }) cs' ∷ after));
    all =
        change_tracked c before r (record r { buffers = s.buffers }) after all
          (record {
            start = holds.start;
            linked = holds.linked;
            within = within;
            narrow = (here-IsTracked before (area r cs) after all).narrow;
          });
  };
  wrapped = refl;
  same_id = refl;
  same_length = refl;
}
