-- ===== src/Ffq/Register.antt =====
-- A registration on one side of cleanq/backends/ff/ff_queue.c, and the other side's next dequeue.
use cleanq_linux.Base.{
  ℕ, ◌^◌, ◌<◌, ◌≡◌, refl, sym, ◌∙◌, ap, none, some, [], ◌∷◌, map, done, ◌>>=◌, arith,
}
use cleanq_linux.Types.{ok, queue_empty, Buf, Capref}
use cleanq_linux.Fifo
use cleanq_linux.Slab.{SlabAllocator, slab_alloc}
use cleanq_linux.RegionPool.{RegionPool, Memory, region_pool_add_region_with_id}
use cleanq_linux.RegionPool.Invariant.{IsValid, slot_of}
use cleanq_linux.RegionPool.Add.{Added, region_pool_add_region_with_id-Added}
use cleanq_linux.Cleanq.{Callbacks, cleanq_add_region}
use cleanq_linux.Cleanq.Commands.{handle_register_command}
use cleanq_linux.Ffq.{
  Ffq, FfqQ, ff_register, ff_dequeue, register_message, handle_command, from_message,
}
use cleanq_linux.Ffq.Slot.{pending-emptied}
use cleanq_linux.Ffq.Refine.{outgoing, incoming, received, ff_enqueue_refines, ff_dequeue_command}
use cleanq_linux.Ffq.Ends.{Joined, seen_by, seen_by-Joined, Joined-transit, push_empty}

module _ (callbacks : Callbacks Ffq) (memory : ℕ → Memory) (tx rx : FfqQ) (cap : Capref) (rid : ℕ)
    (out : Buf) (j : Joined tx rx) (width : rid < 2 ^ 32) (nothing : outgoing tx ≡ []) where
  register_sent :
      (tx' : FfqQ) × (ff_register tx cap rid ≡ done (ok, tx'))
      × Joined tx' (seen_by rx tx')
      × (incoming (seen_by rx tx') ≡ register_message cap rid ∷ [])
  unfolding ff_register
  register_sent =
      let b = register_message cap rid in
      let ((err, tx'), run, (frame, fifo)) = ff_enqueue_refines tx b j.sender width in
      let sent = fifo ∙ ap (λ l. Fifo.push 1 l b) nothing ∙ push_empty b in
      let j' = seen_by-Joined tx tx' rx j frame in
      (
        tx',
        run ∙ ap (λ e. done (e, tx')) (ap (λ r. r.0) sent),
        j',
        sym (Joined-transit tx' (seen_by rx tx') j') ∙ ap (λ r. r.1) sent,
      )

  module _ (v : IsValid rx.pool) (b : ℕ) (alloc : SlabAllocator)
      (got : slab_alloc (memory 1).malloc rx.pool.region_alloc ≡ done (some b, alloc))
      (silent : rx.register_callback ≡ none) where
    register_handled :
        (q : FfqQ)
        → q.pool ≡ rx.pool
        → q.register_callback ≡ none
        → rx.pool.num_regions < rx.pool.size
        → slot_of rx.pool rid ≡ some none
        → (pool : RegionPool) × (handle_command callbacks memory 1 q (register_message cap rid)
            ≡ done (ok, record q { pool = pool }))
          × Added rx.pool pool cap rid b
    unfolding handle_command handle_register_command cleanq_add_region
    register_handled q same quiet room empty =
        let (pool, run, added) =
          region_pool_add_region_with_id-Added (memory 1) rx.pool cap v b alloc got rid room
            empty in
        let here = ap (λ p. region_pool_add_region_with_id (memory 1) p cap rid) same ∙ run in
        (pool, rw (here, ◌>>=◌, quiet), added)

    -- A region registered on one of two joined sides, over an empty channel and under a 32-bit id,
    -- is registered by the other side's next dequeue, if that side's pool is valid, not full, and
    -- has the id's slot empty, its allocator a block, and no callback is set: the registration
    -- ends with no error, the dequeue with the error of the empty queue, and the other side's pool
    -- has the region under the same id.
    pub ff_register-Added :
        rx.pool.num_regions < rx.pool.size
        → slot_of rx.pool rid ≡ some none
        → (tx' rx' : FfqQ) × (ff_register tx cap rid ≡ done (ok, tx'))
          × (ff_dequeue callbacks memory 2 (seen_by rx tx') out
              ≡ done (queue_empty, register_message cap rid, rx'))
          × Added rx.pool rx'.pool cap rid b
          × (incoming rx' ≡ [])
    ff_register-Added room empty =
        let (tx', run, j', there) = register_sent in
        let (pool, handled, added) =
          register_handled (received (seen_by rx tx')) refl silent room empty in
        (
          tx',
          record (received (seen_by rx tx')) { pool = pool },
          run,
          ff_dequeue_command callbacks memory 0 (seen_by rx tx')
              (record (received (seen_by rx tx')) { pool = pool }) out (register_message cap rid) ok
              j'.receiver there (λ e. ground arith) handled refl,
          added,
          ap (map from_message) (pending-emptied rx.own.rxq tx'.own.shared),
        )
