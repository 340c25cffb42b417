-- ===== src/Ipcq/Create.antt =====
-- `cleanq_ipcq_create` of cleanq/backends/ipc/ipc_queue.c.
use cleanq_linux.Base.{
  ◌+◌, ◌-◌, Bool, true, false, not, ◌&&◌, ℕ, Option, none, some, List, [], ◌∷◌, if◌then◌else◌,
}
use cleanq_linux.Types.{Errval, ok, malloc_fail, init_queue}
use cleanq_linux.RegionPool.{RegionPool}
use cleanq_linux.Cleanq.{cleanq_init}
use cleanq_linux.Shared.{
  Mem, store, clear_bytes, System, Creation, with_descriptor, queue_memory, queue_name, shm_object,
  mapping, Resource,
}
use cleanq_linux.Ipcq.{
  Ipcq, IpcqQ, ipcq_default_size, ipcq_message_size, ipcq_chan_size, ipcq_mem_size,
}

abbrev pub Created : Type 0
Created = Creation Ipcq

-- the labels `cleanup1` to `cleanup4`: what each releases, and the common result
abbrev failed : List Resource → Created
failed released = record { err = init_queue; queue = none; released = released; descriptor = false }

cleanup1 : List Resource
cleanup1 = queue_memory ∷ []

cleanup2 : List Resource
unfolding cleanup1
cleanup2 = queue_name ∷ cleanup1

cleanup3 : List Resource
unfolding cleanup2
cleanup3 = shm_object ∷ cleanup2

cleanup4 : List Resource
unfolding cleanup3
cleanup4 = mapping ∷ cleanup3

-- the addresses of one side's acknowledgements and descriptors in the memory at `buf`
pub record Layout : Type 0 where
  pub tx_seq_ack : ℕ
  pub rx_seq_ack : ℕ
  pub tx_descs : ℕ
  pub rx_descs : ℕ

unfoldable pub layout : Bool → ℕ → Layout
layout true buf = record {
  tx_seq_ack = buf;
  rx_seq_ack = buf + ipcq_chan_size;
  tx_descs = buf + ipcq_message_size;
  rx_descs = buf + ipcq_chan_size + ipcq_chan_size;
}
layout false buf = record {
  tx_seq_ack = buf + ipcq_chan_size;
  rx_seq_ack = buf;
  tx_descs = buf + ipcq_chan_size + ipcq_message_size;
  rx_descs = buf + ipcq_message_size;
}

-- the state of a new queue over memory that holds `m`; both acknowledgements are set to 0
unfoldable pub new_own : ℕ → ℕ → Layout → Mem → Ipcq
new_own name buf l m = record {
  name = some name;
  slots = ipcq_default_size - 1;
  rx_descs = l.rx_descs;
  rx_seq = 1;
  rx_seq_ack = l.rx_seq_ack;
  tx_descs = l.tx_descs;
  tx_seq = 1;
  tx_seq_ack = l.tx_seq_ack;
  rxtx_mem = some buf;
  memsize = ipcq_mem_size;
  shared = store (store m l.tx_seq_ack 0) l.rx_seq_ack 0;
}

with_pool : Ipcq → Errval × Option RegionPool → Created
unfolding cleanup4
with_pool own (err, none) = failed cleanup4
with_pool own (err, some pool) = record {
  err = ok;
  queue = some queue;
  released = [];
  descriptor = false;
}
  where
    queue : IpcqQ
    queue = record {
      pool = pool;
      state = 0;
      register_callback = none;
      deregister_callback = none;
      own = own;
    }

-- from the mapping on
map_memory : System → ℕ → Bool → Bool → Option ℕ → Created
unfolding cleanup3 layout new_own with_pool cleanq_init
map_memory os name creator clear none = failed cleanup3
map_memory os name creator clear (some buf) =
    let m : Mem = if clear then clear_bytes os.found buf ipcq_mem_size else os.found in
    with_pool (new_own name buf (layout creator buf) m)
      (cleanq_init os.pool_ok os.slots_ok os.random)

truncated : System → ℕ → Bool → Bool → Created
unfolding map_memory cleanup3
truncated os name creator clear =
    if creator && not os.truncate_ok
    then failed cleanup3
    else map_memory os name creator clear os.mapped

-- the two calls of `shm_open`: exclusive first, which makes this side the creator
opened : System → ℕ → Bool → Created
unfolding truncated cleanup2
opened os name clear =
    if os.exclusive_ok
    then with_descriptor (truncated os name true clear)
    else if os.open_ok
    then with_descriptor (truncated os name false false)
    else failed cleanup2

named : System → Option ℕ → Bool → Created
unfolding opened cleanup1
named os none clear = failed cleanup1
named os (some name) clear = opened os name clear

unfoldable pub cleanq_ipcq_create : System → Bool → Created
unfolding named
cleanq_ipcq_create os clear =
    if os.calloc_ok
    then named os os.strdup clear
    else record { err = malloc_fail; queue = none; released = []; descriptor = false }
