-- ===== src/Loopback/Tests.antt =====
-- Runs of cleanq/backends/loopback/loopback_queue.c, alone and behind cleanq/queue_interface.c.
use cleanq_linux.Base.{
  ℕ, ◌≡◌, ◌⊎◌, refl, [], none, some, done, arith, Returns, replicate, length-replicate, set, inl,
  ◌∷◌,
}
use cleanq_linux.Types.{Errval, ok, invalid_buffer_args, queue_empty, Buf}
use cleanq_linux.Fifo
use cleanq_linux.RegionPool.{RegionPool}
use cleanq_linux.RegionPool.Samples.{
  two_blocks, one_block, plenty, page, roomy, roomy-IsValid, with_page, with_page-IsValid,
  takes_first, puts_back, apart,
}
use cleanq_linux.RegionPool.Insert.{entry}
use cleanq_linux.RegionPool.Add.{Added}
use cleanq_linux.RegionPool.Remove.{Removed}
use cleanq_linux.Cleanq.{cleanq_enqueue, cleanq_dequeue, cleanq_register, cleanq_deregister}
use cleanq_linux.Cleanq.Guard.{
  Fits, Lies, Strays, LiesInSlot, cleanq_enqueue-guard, cleanq_dequeue-guard,
}
use cleanq_linux.Cleanq.Regions.{cleanq_register-Added, cleanq_deregister-Removed}
use cleanq_linux.Loopback.{
  Loopback, LoopbackQ, loopback_backend, loopback_enqueue, loopback_dequeue, loopback_register,
  loopback_deregister, loopback_queue_size, zero_buf,
}
use cleanq_linux.Loopback.Refine.{
  IsValid, contents, Keeps, loopback_enqueue_refines, loopback_dequeue_refines,
}
use cleanq_linux.Loopback.Through.{cleanq_enqueue-dequeue}

abbrev buf : Buf
buf = record { offset = 1024; length = 2048; valid_data = 0; valid_length = 64; flags = 0; rid = 6 }

abbrev over : RegionPool → Loopback → LoopbackQ
over pool own = record {
  pool = pool;
  state = 0;
  register_callback = none;
  deregister_callback = none;
  own = own;
}

abbrev fresh : Loopback
fresh = record { queue = replicate 64 zero_buf; head = 0; tail = 0; num_ele = 0 }

abbrev holding : Loopback
holding = record { queue = set (replicate 64 zero_buf) 0 buf; head = 1; tail = 0; num_ele = 1 }

fresh-IsValid : IsValid fresh
fresh-IsValid = record {
  storage = length-replicate 64 zero_buf;
  tail_in = omega arith;
  count_in = omega arith;
  head_at = refl;
}

holding-IsValid : IsValid holding
holding-IsValid = record {
  storage = refl;
  tail_in = omega arith;
  count_in = omega arith;
  head_at = refl;
}

holds_one : loopback_enqueue (over with_page fresh) buf ≡ done (ok, over with_page holding)
unfolding loopback_enqueue
holds_one = refl

stays_empty :
    loopback_dequeue (over with_page fresh) buf ≡ done (queue_empty, buf, over with_page fresh)
unfolding loopback_dequeue
stays_empty = refl

loopback_enqueue_refines_example : Returns (loopback_enqueue (over with_page holding) buf) λ r.
    Keeps (over with_page holding) r.1
    × ((r.0, contents r.1.own) ≡ Fifo.push loopback_queue_size (contents holding) buf)
loopback_enqueue_refines_example =
    loopback_enqueue_refines (over with_page holding) buf holding-IsValid

loopback_dequeue_refines_example : Returns (loopback_dequeue (over with_page holding) zero_buf) λ r.
    Keeps (over with_page holding) r.2
    × (let (err, b, rest) = Fifo.pop (contents holding) in
        (r.0 ≡ err) × (r.1 ≡ Fifo.delivered zero_buf b) × (contents r.2.own ≡ rest))
loopback_dequeue_refines_example =
    loopback_dequeue_refines (over with_page holding) zero_buf holding-IsValid

fits : Fits buf
fits = record { buffer = omega arith; payload = omega arith }

cleanq_enqueue-guard_example :
    (Lies with_page buf
      × (cleanq_enqueue loopback_backend (over with_page fresh) buf
          ≡ loopback_enqueue (over with_page fresh) buf))
    ⊎ (Strays with_page buf
        × (cleanq_enqueue loopback_backend (over with_page fresh) buf
            ≡ loopback_enqueue (over with_page fresh) buf))
    ⊎ (¬ Lies with_page buf
        × ¬ Strays with_page buf
        × (cleanq_enqueue loopback_backend (over with_page fresh) buf
            ≡ done (invalid_buffer_args, over with_page fresh)))
cleanq_enqueue-guard_example =
    cleanq_enqueue-guard loopback_backend (over with_page fresh) buf with_page-IsValid fits

takes_one :
    loopback_dequeue (over with_page holding) zero_buf
    ≡ done (ok, buf, over with_page (record holding { tail = 1; num_ele = 0 }))
unfolding loopback_dequeue
takes_one = refl

cleanq_dequeue-guard_example :
    let q' = over with_page (record holding { tail = 1; num_ele = 0 }) in
    (Lies with_page buf
      × (cleanq_dequeue loopback_backend (over with_page holding) zero_buf ≡ done (ok, buf, q')))
    ⊎ (Strays with_page buf
        × (cleanq_dequeue loopback_backend (over with_page holding) zero_buf ≡ done (ok, buf, q')))
    ⊎ (¬ Lies with_page buf
        × ¬ Strays with_page buf
        × (cleanq_dequeue loopback_backend (over with_page holding) zero_buf
            ≡ done (invalid_buffer_args, buf, q')))
cleanq_dequeue-guard_example =
    cleanq_dequeue-guard loopback_backend (over with_page holding)
      (over with_page (record holding { tail = 1; num_ele = 0 })) zero_buf buf takes_one
      with_page-IsValid fits

registers :
    (q : LoopbackQ) (rid : ℕ)
    → (r : Errval × LoopbackQ) × (loopback_register q (page 1) rid ≡ done r) × (r.1.pool ≡ q.pool)
unfolding loopback_register
registers q rid = ((ok, q), refl, refl)

deregisters :
    (q : LoopbackQ)
    → (r : Errval × LoopbackQ) × (loopback_deregister q 6 ≡ done r) × (r.1.pool ≡ q.pool)
unfolding loopback_deregister
deregisters q = ((ok, q), refl, refl)

cleanq_register-Added_example :
    (rid : ℕ) × (q' : LoopbackQ) × (err : Errval) × (cleanq_register loopback_backend plenty
        (over roomy fresh)
        (page 1)
      ≡ done (err, some rid, q'))
    × ((pool : RegionPool) × (loopback_register (over pool fresh) (page 1) rid ≡ done (err, q'))
        × (q'.pool ≡ pool)
        × Added roomy pool (page 1) rid 65560)
cleanq_register-Added_example =
    cleanq_register-Added loopback_backend (over roomy fresh) roomy-IsValid plenty (page 1) 65560
      one_block takes_first apart (inl (omega arith)) registers

cleanq_deregister-Removed_example :
    (q' : LoopbackQ) × (err : Errval) × (cleanq_deregister loopback_backend (over with_page fresh) 6
      ≡ done (err, some (page 1), q'))
    × ((pool : RegionPool) × (loopback_deregister (over pool fresh) 6 ≡ done (err, q'))
        × (q'.pool ≡ pool)
        × Removed with_page pool 6)
cleanq_deregister-Removed_example =
    cleanq_deregister-Removed loopback_backend (over with_page fresh) with_page-IsValid 6
      (entry 65560 (page 1) 6) two_blocks refl puts_back deregisters

in_page : LiesInSlot with_page buf
in_page = record {
  ref = entry 65560 (page 1) 6;
  stored = refl;
  buffer = omega arith;
  payload = omega arith;
}

cleanq_enqueue-dequeue_example :
    (q' q'' : LoopbackQ) × (cleanq_enqueue loopback_backend (over with_page holding) buf
      ≡ done (ok, q'))
    × (cleanq_dequeue loopback_backend q' zero_buf ≡ done (ok, buf, q''))
    × (contents q''.own ≡ buf ∷ [])
    × IsValid q''.own
    × (q''.pool ≡ with_page)
cleanq_enqueue-dequeue_example =
    cleanq_enqueue-dequeue (over with_page holding) buf zero_buf holding-IsValid with_page-IsValid
      (omega arith) fits in_page fits in_page
