-- ===== src/Debug/Runs.antt =====
-- Calls of the debug queue (cleanq/backends/debug/debug_queue.c) over a loopback queue, in a row.
use cleanq_linux.Base.{ℕ, ◌≡◌, refl, List, [], ◌∷◌, none, Run, done, crash, ◌>>=◌}
use cleanq_linux.Types.{Errval, ok, buffer_already_in_use, invalid_buffer_args}
use cleanq_linux.Debug.Receive.{
  append_region, clear_first, debug_dequeue, dequeue_at, dequeue_in, dequeue_unknown, first_back,
  give_back,
}
use cleanq_linux.Chunks.{
  buffer_in_bounds, cut_beginning, cut_end, cut_middle, free_ele, link_next, link_prev, load,
  new_ele, remove_split_buffer, set_next, set_prev, unlink, write,
}
use cleanq_linux.Debug.Control.{
  cleanq_debugq_dump_region, debug_deregister, debug_register, deregister_at, remove_region,
}
use cleanq_linux.Debug.{
  Debugq, Line, debug_enqueue, dump_list, enqueue_at, enqueue_found, find_chunk, find_place,
  find_region, hand_over,
}
use cleanq_linux.Chunks.Join.{
  ends_at, extend_next, extend_prev, insert_after, insert_apart, insert_before, insert_behind,
  insert_in_front, insert_merge_buffer, merge_after, merge_before, starts_at, swallow_self,
}
use cleanq_linux.Slab.{enqueue_block, slab_alloc, slab_free}
use cleanq_linux.Loopback.{
  loopback_dequeue, loopback_deregister, loopback_enqueue, loopback_register, Loopback,
  loopback_backend, zero_buf,
}
use cleanq_linux.Debug.Samples.{bytes, memory, fresh, with_one}

-- calls in a row, with the results of the calls
data Call : Type 0 where
  register : Call
  enqueue : ℕ → ℕ → Call
  dequeue : Call
  deregister : Call

step : Call → Debugq Loopback → Run (Errval × Debugq Loopback)
step register d = debug_register none none loopback_backend d memory 6
step (enqueue o l) d = debug_enqueue 10 none loopback_backend d (bytes o l)
step dequeue d = do
  (err, b, d') ← debug_dequeue 10 none none loopback_backend d zero_buf
  done (err, d')
step deregister d = debug_deregister 10 loopback_backend d 6

run : List Call → Debugq Loopback → Run (List Errval × Debugq Loopback)
run [] d = done ([], d)
run (c ∷ cs) d = do (err, d') ← step c d; (errs, d'') ← run cs d'; done (err ∷ errs, d'')

-- the offsets and the lengths of the chunks of region 6 after the calls
abbrev pairs : List Line → List (ℕ × ℕ)
pairs [] = []
pairs (l ∷ ls) = (l.offset, l.length) ∷ pairs ls

report : Debugq Loopback → List Call → Run (List Errval × List (ℕ × ℕ))
unfolding run step debug_register debug_enqueue debug_dequeue debug_deregister append_region new_ele
    slab_alloc slab_free enqueue_block free_ele find_region find_chunk find_place enqueue_at
    enqueue_found hand_over dequeue_in dequeue_at give_back first_back load write buffer_in_bounds
    remove_split_buffer cut_beginning cut_end cut_middle unlink link_next link_prev set_next
    set_prev insert_merge_buffer insert_after insert_before merge_after merge_before insert_apart
    insert_behind insert_in_front extend_prev extend_next swallow_self starts_at ends_at
    loopback_enqueue loopback_dequeue loopback_register loopback_deregister deregister_at
    remove_region cleanq_debugq_dump_region dump_list dequeue_unknown clear_first
report start cs = do
  (errs, d) ← run cs start
  lines ← cleanq_debugq_dump_region 10 d 6
  done (errs, pairs lines)

-- a split, a cut at the end, and a buffer that is not owned
cuts :
    report fresh (register ∷ enqueue 100 100 ∷ enqueue 50 50 ∷ enqueue 99 2 ∷ [])
    ≡ done (ok ∷ ok ∷ ok ∷ invalid_buffer_args ∷ [], (0, 50) ∷ (200, 200) ∷ [])
unfolding report
cuts = refl

-- all of it goes out and comes back
there_and_back :
    report fresh (register ∷ enqueue 0 400 ∷ enqueue 0 10 ∷ dequeue ∷ [])
    ≡ done (ok ∷ ok ∷ buffer_already_in_use ∷ ok ∷ [], (0, 400) ∷ [])
unfolding report
there_and_back = refl

-- three chunks become one again
merges :
    report fresh (register ∷ enqueue 100 100 ∷ enqueue 300 50 ∷ dequeue ∷ dequeue ∷ [])
    ≡ done (ok ∷ ok ∷ ok ∷ ok ∷ ok ∷ [], (0, 400) ∷ [])
unfolding report
merges = refl

-- 100 bytes at 0 are owned when 200 bytes at 200 come back
misjudged :
    report fresh (register ∷ enqueue 200 200 ∷ enqueue 100 100 ∷ dequeue ∷ [])
    ≡ done (ok ∷ ok ∷ ok ∷ ok ∷ [], (0, 300) ∷ [])
unfolding report
misjudged = refl

-- nothing of the region is owned
deregister_crash : report fresh (register ∷ enqueue 0 400 ∷ deregister ∷ []) ≡ crash
unfolding report
deregister_crash = refl

-- Of two chunks the first contains the buffer that comes back: no error, and the buffer is owned
-- twice.
returned_twice :
    report (record fresh { q = with_one (bytes 10 10) }) (register ∷ enqueue 100 100 ∷ dequeue ∷ [])
    ≡ done (ok ∷ ok ∷ ok ∷ [], (0, 100) ∷ (10, 10) ∷ (200, 200) ∷ [])
unfolding report
returned_twice = refl
