-- ===== src/Chunks/Tests.antt =====
-- Runs of the functions on the chunks (cleanq/backends/debug/debug_queue.c).
use cleanq_linux.Base.{
  ◌≡◌, refl, true, false, none, some, [], ◌∷◌, ◌==◌, if◌then◌else◌, Returns, arith,
}
use cleanq_linux.Slab.{default_refill}
use cleanq_linux.Chunks.{Tracked}
use cleanq_linux.Chunks.Join.{insert_merge_buffer}
use cleanq_linux.Chunks.Linked.{chunk, cons, nil}
use cleanq_linux.Chunks.Relink.{Holds}
use cleanq_linux.Chunks.Owns.{covers, owns, Sorted, end}
use cleanq_linux.Chunks.Misjudge.{insert_merge_buffer-misjudges}

abbrev one : Tracked
one = record {
  buffers = 100024;
  heap = λ p.
      if p == 100024 then some (record { offset = 0; length = 100; next = 0; prev = 0 }) else none;
  alloc = record { slabs = []; blocksize = 32; refill_func = default_refill };
}

-- 100 bytes at 0 are owned, 200 bytes at 200 come back
insert_merge_buffer-misjudges_example : Returns (insert_merge_buffer none one 100024 200 200) λ s'.
    Holds s' (chunk 100024 0 300 ∷ [])
    × (owns (chunk 100024 0 100 ∷ []) 100 ≡ false)
    × (covers 200 200 100 ≡ false)
    × (owns (chunk 100024 0 300 ∷ []) 100 ≡ true)
unfolding Sorted end
insert_merge_buffer-misjudges_example =
    insert_merge_buffer-misjudges one [] 100024 0 100 none 400 200 200
      (record {
        start = refl;
        linked = cons (record { ne_null = omega arith; holds = refl }) refl nil;
      })
      (record { sorted = (omega arith, tt); bounded = omega arith }) (omega arith) (omega arith)
      (omega arith) (omega arith)
