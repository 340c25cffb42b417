-- ===== src/Loopback.antt =====
-- cleanq/backends/loopback/loopback_queue.c, the queue that gives its own buffers back.
pub mod Refine
pub mod Fresh
pub mod Through
mod Tests
use cleanq_linux.Base.{
  ℕ, ◌+◌, ◌-◌, ◌%◌, Bool, true, false, Option, none, some, List, get_elem?, set, length, replicate,
  Run, done, crash, ◌>>=◌, or_crash, ltb, ◌==◌, if◌then◌else◌,
}
use cleanq_linux.Types.{u64, Errval, ok, queue_empty, queue_full, malloc_fail, Capref, Buf}
use cleanq_linux.RegionPool.{RegionPool}
use cleanq_linux.Cleanq.{Cleanq, Dequeued, Backend, cleanq_init}

abbrev pub loopback_queue_size : ℕ
loopback_queue_size = 64

-- `struct cleanq_loopbackq` behind its generic part
pub record Loopback : Type 0 where
  pub queue : List Buf
  pub head : ℕ
  pub tail : ℕ
  pub num_ele : ℕ

abbrev pub LoopbackQ : Type 0
LoopbackQ = Cleanq Loopback

-- the six stores into `queue[head]`, and the two counters
pub push : Loopback → Buf → Loopback
push lq b = record {
  queue = set lq.queue lq.head b;
  head = u64 (lq.head + 1) % loopback_queue_size;
  tail = lq.tail;
  num_ele = u64 (lq.num_ele + 1);
}

unfoldable pub loopback_enqueue : LoopbackQ → Buf → Run (Errval × LoopbackQ)
unfolding push
loopback_enqueue q b =
    if q.own.num_ele == loopback_queue_size
    then done (queue_full, q)
    else if ltb q.own.head (length q.own.queue)
    then done (ok, record q { own = push q.own b })
    else crash

-- the counters after a dequeue, which runs only at `num_ele` other than 0
pub pop : Loopback → Loopback
pop lq = record lq { tail = u64 (lq.tail + 1) % loopback_queue_size; num_ele = lq.num_ele - 1 }

unfoldable pub loopback_dequeue : LoopbackQ → Buf → Run (Dequeued Loopback)
unfolding pop
loopback_dequeue q out = if q.own.num_ele == 0 then done (queue_empty, out, q) else (do
  b ← or_crash (get_elem? q.own.queue q.own.tail)
  done (ok, b, record q { own = pop q.own }))

unfoldable pub loopback_notify : LoopbackQ → Run (Errval × LoopbackQ)
loopback_notify q = done (ok, q)

unfoldable pub loopback_register : LoopbackQ → Capref → ℕ → Run (Errval × LoopbackQ)
loopback_register q cap rid = done (ok, q)

unfoldable pub loopback_deregister : LoopbackQ → ℕ → Run (Errval × LoopbackQ)
loopback_deregister q rid = done (ok, q)

unfoldable pub loopback_control : LoopbackQ → ℕ → ℕ → ℕ → Run (Errval × ℕ × LoopbackQ)
loopback_control q request value result = done (ok, result, q)

-- `free(q)`
unfoldable pub loopback_destroy : LoopbackQ → Run Errval
loopback_destroy q = done ok

-- the function pointers that `loopback_queue_create` sets
abbrev pub loopback_backend : Backend Loopback
loopback_backend = record {
  reg = loopback_register;
  dereg = loopback_deregister;
  ctrl = loopback_control;
  notify = loopback_notify;
  enq = loopback_enqueue;
  deq = loopback_dequeue;
  destroy = some loopback_destroy;
}

-- memory that `calloc` has cleared
abbrev pub zero_buf : Buf
zero_buf = record { offset = 0; length = 0; valid_data = 0; valid_length = 0; flags = 0; rid = 0 }

created : Errval × Option RegionPool → Errval × Option LoopbackQ
created (err, none) = (err, none)
created (err, some pool) = (
  ok,
  some (record {
    pool = pool;
    state = 0;
    register_callback = none;
    deregister_callback = none;
    own = record {
      queue = replicate loopback_queue_size zero_buf;
      head = 0;
      tail = 0;
      num_ele = 0;
    };
  }),
)

-- `queue_ok` is the outcome of the `calloc` of the queue; the rest is for `cleanq_init`.
unfoldable pub loopback_queue_create : Bool → Bool → Bool → ℕ → Errval × Option LoopbackQ
unfolding created cleanq_init
loopback_queue_create false pool_ok slots_ok random = (malloc_fail, none)
loopback_queue_create true pool_ok slots_ok random = created (cleanq_init pool_ok slots_ok random)
