-- ===== src/Ffq/Create.antt =====
-- `cleanq_ffq_create` of cleanq/backends/ff/ff_queue.c.
use cleanq_linux.Base.{
  ◌+◌, Bool, true, false, not, ◌&&◌, ℕ, Option, none, some, [], ◌∷◌, Run, done, ◌>>=◌,
  if◌then◌else◌,
}
use cleanq_linux.Types.{Errval, ok, malloc_fail, init_queue}
use cleanq_linux.RegionPool.{RegionPool}
use cleanq_linux.Cleanq.{cleanq_init}
use cleanq_linux.Shared.{
  Mem, clear_bytes, System, Creation, with_descriptor, queue_memory, queue_name, shm_object,
  mapping,
}
use cleanq_linux.Ffq.Channel.{Chan, ffq_impl_init_tx, ffq_impl_init_rx}
use cleanq_linux.Ffq.{Ffq, FfqQ, ffq_default_size, ffq_chan_size, ffq_mem_size}

abbrev pub Created : Type 0
Created = Creation Ffq

cleanup1 : Created
cleanup1 = record {
  err = init_queue;
  queue = none;
  released = queue_memory ∷ [];
  descriptor = false;
}

cleanup2 : Created
cleanup2 = record {
  err = init_queue;
  queue = none;
  released = queue_name ∷ queue_memory ∷ [];
  descriptor = false;
}

cleanup3 : Created
cleanup3 = record {
  err = init_queue;
  queue = none;
  released = shm_object ∷ queue_name ∷ queue_memory ∷ [];
  descriptor = false;
}

cleanup4 : Created
cleanup4 = record {
  err = init_queue;
  queue = none;
  released = mapping ∷ shm_object ∷ queue_name ∷ queue_memory ∷ [];
  descriptor = false;
}

new_queue : ℕ → ℕ → Chan → Chan → Mem → RegionPool → FfqQ
new_queue name buf rxq txq m pool = record {
  pool = pool;
  state = 0;
  register_callback = none;
  deregister_callback = none;
  own = record {
    txq = txq;
    rxq = rxq;
    name = some name;
    rxtx_mem = some buf;
    memsize = ffq_mem_size;
    shared = m;
  };
}

with_pool : ℕ → ℕ → Chan → Chan → Mem → Errval × Option RegionPool → Created
unfolding new_queue cleanup4
with_pool name buf rxq txq m (err, none) = cleanup4
with_pool name buf rxq txq m (err, some pool) = record {
  err = ok;
  queue = some (new_queue name buf rxq txq m pool);
  released = [];
  descriptor = false;
}

-- from the mapping on; the creator receives on the first ring, the other side on the second
initialise : System → ℕ → Bool → Bool → ℕ → Run Created
unfolding with_pool cleanq_init
initialise os name creator clear buf = do
  let m₀ : Mem = if clear then clear_bytes os.found buf ffq_mem_size else os.found
  (rxq, m₁) ←
      ffq_impl_init_rx (if creator then buf else buf + ffq_chan_size) ffq_default_size creator m₀
  (txq, m₂) ←
      ffq_impl_init_tx (if creator then buf + ffq_chan_size else buf) ffq_default_size creator m₁
  done (with_pool name buf rxq txq m₂ (cleanq_init os.pool_ok os.slots_ok os.random))

map_memory : System → ℕ → Bool → Bool → Option ℕ → Run Created
unfolding initialise cleanup3
map_memory os name creator clear none = done cleanup3
map_memory os name creator clear (some buf) = initialise os name creator clear buf

truncated : System → ℕ → Bool → Bool → Run Created
unfolding map_memory cleanup3
truncated os name creator clear =
    if creator && not os.truncate_ok
    then done cleanup3
    else map_memory os name creator clear os.mapped

-- the two calls of `shm_open`: exclusive first, which makes this side the creator
opened : System → ℕ → Bool → Run Created
unfolding truncated cleanup2
opened os name clear =
    if os.exclusive_ok
    then (truncated os name true clear >>= λ c. done (with_descriptor c))
    else if os.open_ok
    then (truncated os name false false >>= λ c. done (with_descriptor c))
    else done cleanup2

named : System → Option ℕ → Bool → Run Created
unfolding opened cleanup1
named os none clear = done cleanup1
named os (some name) clear = opened os name clear

unfoldable pub cleanq_ffq_create : System → Bool → Run Created
unfolding named
cleanq_ffq_create os clear =
    if os.calloc_ok
    then named os os.strdup clear
    else done (record { err = malloc_fail; queue = none; released = []; descriptor = false })
