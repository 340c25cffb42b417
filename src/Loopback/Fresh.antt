-- ===== src/Loopback/Fresh.antt =====
-- `loopback_queue_create` (cleanq/backends/loopback/loopback_queue.c).
use cleanq_linux.Base.{
  ℕ, ◌^◌, ◌<◌, ◌≡◌, refl, [], some, none, true, length-replicate, replicate, arith,
}
use cleanq_linux.Types.{ok}
use cleanq_linux.RegionPool.Invariant as Pool
use cleanq_linux.Loopback.{LoopbackQ, loopback_queue_create, zero_buf}
use cleanq_linux.Loopback.Refine.{IsValid, contents}

-- With memory `loopback_queue_create` returns a queue that is valid, holds no buffer, and has a
-- valid region pool with no region, whatever `rand` returns in its range.
pub loopback_queue_create-IsValid :
    (random : ℕ)
    → random < 2 ^ 31
    → (q : LoopbackQ) × (loopback_queue_create true true true random ≡ (ok, some q))
      × IsValid q.own
      × (contents q.own ≡ [])
      × Pool.IsValid q.pool
      × ((rid : ℕ) → Pool.slot_of q.pool rid ≡ some none)
unfolding loopback_queue_create
loopback_queue_create-IsValid random h =
    let (pool, run, v, nothing) = Pool.region_pool_init-IsValid random h in
    (
      record {
        pool = pool;
        state = 0;
        register_callback = none;
        deregister_callback = none;
        own = record { queue = replicate 64 zero_buf; head = 0; tail = 0; num_ele = 0 };
      },
      rw run,
      record {
        storage = length-replicate 64 zero_buf;
        tail_in = omega arith;
        count_in = omega arith;
        head_at = refl;
      },
      refl,
      v,
      nothing,
    )
