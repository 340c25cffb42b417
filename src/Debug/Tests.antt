-- ===== src/Debug/Tests.antt =====
-- Runs of the debug queue (cleanq/backends/debug/debug_queue.c) on top of a loopback queue.
use cleanq_linux.Base.{
  ◌≡◌, refl, inl, inr, ap, none, some, [], ◌∷◌, Run, done, crash, hang, sym, ◌∙◌, ◌>>=◌, Returns,
  arith,
}
use cleanq_linux.Types.{Errval, ok, invalid_buffer_args, region_destroy}
use cleanq_linux.Slab.{slab_alloc, slab_free}
use cleanq_linux.Loopback.{
  Loopback, loopback_backend, loopback_enqueue, loopback_dequeue, loopback_register,
  loopback_deregister, zero_buf,
}
use cleanq_linux.Chunks.Carve.{carve}
use cleanq_linux.Chunks.Linked.{chunk}
use cleanq_linux.Chunks.Owns.{owns}
use mathlib.Core.Path.{subst}
use cleanq_linux.Chunks.{write, load, buffer_in_bounds, remove_split_buffer, cut_beginning}
use cleanq_linux.Debug.{
  MemoryList, tracked, Debugq, find_region, hand_over, enqueue_found, enqueue_at, debug_enqueue,
}
use cleanq_linux.Debug.Receive.{debug_dequeue}
use cleanq_linux.Debug.Control.{debug_register, debug_deregister}
use cleanq_linux.Debug.Enqueue.{Sent, debug_enqueue-Sent, debug_enqueue-refuses}
use cleanq_linux.Debug.Clear.{Clear, Judged}
use cleanq_linux.Debug.Back.{Received, Serves}
use cleanq_linux.Debug.Dequeue.{debug_dequeue-Received}
use cleanq_linux.Debug.Through.{Restored, debug_enqueue-dequeue}
use cleanq_linux.Debug.Register.{Registered, debug_register-Registered}
use cleanq_linux.Debug.Deregister.{is_whole, debug_deregister-refuses, debug_deregister-removes}
use cleanq_linux.Debug.Stored.{Tracks}
use cleanq_linux.Debug.Samples.{
  bytes, empty, with_one, emptied, elements, lists, memory, page, queue_of, one_chunk, one_element,
  queue_of-Tracks, queue_of-Serves, fresh,
}

debug_enqueue-Sent_example :
    Returns (debug_enqueue 10 none loopback_backend (queue_of empty 0 400) (bytes 100 100)) λ e.
      (e.0 ≡ ok)
      × Sent [] page
          (one_chunk 0 400)
          []
          (with_one (bytes 100 100))
          (bytes 100 100)
          (chunk 100024 0 100 ∷ chunk 100056 200 200 ∷ [])
          e.1
unfolding loopback_enqueue carve slab_alloc slab_free
debug_enqueue-Sent_example =
    debug_enqueue-Sent 10 none loopback_backend (queue_of empty 0 400) [] page [] (bytes 100 100) []
      [] 100024 0 400 (queue_of-Tracks empty 0 400 (omega arith)) tt refl (omega arith)
      (record {
        from = omega arith;
        to = omega arith;
        some_byte = omega arith;
        range = omega arith;
      })
      100056 (elements 1 (100088 ∷ [])) (elements 3 (100024 ∷ 100056 ∷ 100088 ∷ []))
      (with_one (bytes 100 100)) refl
      (λ later more. record { run = refl; unused = refl; ne_null = omega arith })
      (λ first all. refl)

debug_enqueue-refuses_example :
    debug_enqueue 10 none loopback_backend (queue_of empty 0 100) (bytes 99 2)
    ≡ done (invalid_buffer_args, queue_of empty 0 100)
unfolding owns
debug_enqueue-refuses_example =
    debug_enqueue-refuses 10 none loopback_backend (queue_of empty 0 100) [] page [] (bytes 99 2)
      (one_chunk 0 100) 100 (queue_of-Tracks empty 0 100 (omega arith)) tt refl (omega arith)
      (omega arith) (omega arith) refl refl

debug_dequeue-Received_example :
    Returns
      (debug_dequeue 10 none none loopback_backend
        (queue_of (with_one (bytes 100 100)) 0 100)
        zero_buf)
      λ e.
        (e.0 ≡ ok)
        × (e.1 ≡ bytes 100 100)
        × Received [] page (one_chunk 0 100) [] (emptied (bytes 100 100)) (bytes 100 100) e.2
unfolding loopback_dequeue Clear Judged
debug_dequeue-Received_example =
    debug_dequeue-Received 10 none none loopback_backend (queue_of (with_one (bytes 100 100)) 0 100)
      zero_buf [] page (one_chunk 0 100) [] (bytes 100 100) (emptied (bytes 100 100)) refl
      (queue_of-Tracks (with_one (bytes 100 100)) 0 100 (omega arith)) tt refl (omega arith)
      (omega arith) (omega arith) (inr (omega arith)) (inl (omega arith), tt) (λ e. refl)
      (queue_of-Serves (with_one (bytes 100 100)) 0 100 page)

abbrev sent_100 : Debugq Loopback
unfolding write
sent_100 = record (queue_of (with_one (bytes 0 100)) 0 400) {
  heap =
      write (one_element 0 400) 100024
        (some (record { offset = 100; length = 300; next = 0; prev = 0 }));
}

sends_100 :
    debug_enqueue 10 none loopback_backend (queue_of empty 0 400) (bytes 0 100)
    ≡ done (ok, sent_100)
unfolding debug_enqueue loopback_enqueue find_region enqueue_at enqueue_found hand_over load
    buffer_in_bounds remove_split_buffer cut_beginning write
sends_100 = refl

sent_100-Serves : (r : MemoryList) → Serves none (tracked sent_100 r) (one_chunk 100 300)
unfolding slab_alloc slab_free write
sent_100-Serves r = record {
  block = 100056;
  left = elements 1 (100088 ∷ []);
  gives = record { run = refl; unused = refl; ne_null = omega arith };
  frees = (queue_of-Serves empty 0 400 r).frees;
}

abbrev value : {A : Type 0} → A → Run A → A
value a (done b) = b
value a crash = a
value a hang = a

after_Serves :
    (d : Debugq Loopback) (r : MemoryList)
    → debug_enqueue 10 none loopback_backend (queue_of empty 0 400) (bytes 0 100) ≡ done (ok, d)
    → Serves none (tracked d r) (one_chunk 100 300)
after_Serves d r e =
    let same : sent_100 ≡ d =
      ap (λ v. (value {A = Errval × Debugq Loopback} (ok, sent_100) v).1) (sym sends_100 ∙ e) in
    subst (λ w. Serves none (tracked w r) (one_chunk 100 300)) same (sent_100-Serves r)

debug_enqueue-dequeue_example :
    Returns
      (debug_enqueue 10 none loopback_backend (queue_of empty 0 400) (bytes 0 100) >>= λ e.
        debug_dequeue 10 none none loopback_backend (e.1) zero_buf)
      λ e.
        (e.0 ≡ ok)
        × (e.1 ≡ bytes 0 100)
        × (e.2.q ≡ emptied (bytes 0 100))
        × Restored [] (one_chunk 0 400) [] e.2
unfolding loopback_enqueue loopback_dequeue carve Judged slab_alloc slab_free
debug_enqueue-dequeue_example =
    debug_enqueue-dequeue 10 none none none loopback_backend (queue_of empty 0 400) [] page []
      (bytes 0 100) zero_buf [] [] 100024 0 400 100056 (elements 1 (100088 ∷ []))
      (elements 3 (100024 ∷ 100056 ∷ 100088 ∷ [])) (with_one (bytes 0 100)) (emptied (bytes 0 100))
      (queue_of-Tracks empty 0 400 (omega arith)) tt refl (omega arith) (omega arith)
      (record {
        from = omega arith;
        to = omega arith;
        some_byte = omega arith;
        range = omega arith;
      })
      refl refl (λ later. absurd (omega arith)) (λ same all. refl) (λ e. absurd (omega arith))
      after_Serves

debug_register-Registered_example :
    Returns
      (debug_register none none loopback_backend fresh memory 6)
      λ e. (e.0 ≡ ok) × Registered [] 6 400 empty e.1
unfolding loopback_register slab_alloc
debug_register-Registered_example =
    debug_register-Registered none none loopback_backend fresh []
      (record { regions = refl; all = tt }) memory 6 empty 200024 (lists 1 (200064 ∷ [])) 100024
      (elements 2 (100056 ∷ 100088 ∷ [])) refl refl refl refl (omega arith) (omega arith)

debug_deregister-refuses_example :
    debug_deregister 10 loopback_backend (queue_of empty 0 100) 6
    ≡ done (region_destroy, queue_of empty 0 100)
unfolding is_whole
debug_deregister-refuses_example =
    debug_deregister-refuses 10 loopback_backend (queue_of empty 0 100) [] page [] tt
      (chunk 100024 0 100) [] (queue_of-Tracks empty 0 100 (omega arith)) (omega arith, tt) refl

debug_deregister-removes_example :
    Returns
      (debug_deregister 10 loopback_backend (queue_of empty 0 400) 6)
      λ e. (e.0 ≡ ok) × (e.1.q ≡ empty) × Tracks e.1 []
unfolding is_whole loopback_deregister slab_free
debug_deregister-removes_example =
    debug_deregister-removes 10 loopback_backend (queue_of empty 0 400) [] page [] tt
      (chunk 100024 0 400) [] empty (elements 3 (100024 ∷ 100056 ∷ 100088 ∷ []))
      (lists 2 (200024 ∷ 200064 ∷ [])) (queue_of-Tracks empty 0 400 (omega arith)) refl refl refl
      refl
