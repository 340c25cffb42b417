-- ===== src/Ipcq/Pair.antt =====
-- The two sides that `cleanq_ipcq_create` (cleanq/backends/ipc/ipc_queue.c) makes over one shared
-- memory object. Both map it at one address.
use cleanq_linux.Base.{ℕ, ◌+◌, ◌≡◌, refl, inl, ap, true, false, Bool, none, some, [], arith}
use cleanq_linux.Types.{ok}
use cleanq_linux.RegionPool.{RegionPool}
use cleanq_linux.Cleanq.{cleanq_init}
use cleanq_linux.Shared.{Mem, store, clear_bytes, System}
use cleanq_linux.Ipcq.{Ipcq, IpcqQ, read_desc, ipcq_mem_size}
use cleanq_linux.Ipcq.Create.{Created, layout, new_own, cleanq_ipcq_create}
use cleanq_linux.Ipcq.Ring.{desc, Linked, in_flight}
use cleanq_linux.Ipcq.Receive.{told}

-- All calls succeed, and the shared memory object is new exactly if `creator`.
pub record Works (os : System) (creator : Bool) (name buf : ℕ) (pool : RegionPool) : Type 0 where
  pub calloc : os.calloc_ok ≡ true
  pub strdup : os.strdup ≡ some name
  pub exclusive : os.exclusive_ok ≡ creator
  pub opens : os.open_ok ≡ true
  pub truncates : os.truncate_ok ≡ true
  pub maps : os.mapped ≡ some buf
  pub inits : cleanq_init os.pool_ok os.slots_ok os.random ≡ (ok, some pool)

abbrev queue_of : RegionPool → Ipcq → IpcqQ
queue_of pool own = record {
  pool = pool;
  state = 0;
  register_callback = none;
  deregister_callback = none;
  own = own;
}

abbrev pub success : IpcqQ → Created
success q = record { err = ok; queue = some q; released = []; descriptor = true }

abbrev own_of : Bool → System → ℕ → ℕ → Mem → Ipcq
own_of creator os name buf m = new_own name buf (layout creator buf) m

create-creator :
    (os : System) (name buf : ℕ) (pool : RegionPool)
    → Works os true name buf pool
    → cleanq_ipcq_create os true
      ≡ success (queue_of pool (own_of true os name buf (clear_bytes os.found buf ipcq_mem_size)))
unfolding cleanq_ipcq_create
create-creator os name buf pool w =
    rw (w.calloc, w.strdup, w.exclusive, w.truncates, w.maps, w.inits)

create-other :
    (os : System) (clear : Bool) (name buf : ℕ) (pool : RegionPool)
    → Works os false name buf pool
    → cleanq_ipcq_create os clear ≡ success (queue_of pool (own_of false os name buf os.found))
unfolding cleanq_ipcq_create
create-other os clear name buf pool w =
    rw (w.calloc, w.strdup, w.exclusive, w.opens, w.maps, w.inits)

-- the two acknowledgements cleared
abbrev acks_cleared : ℕ → Mem → Mem
acks_cleared buf m = store (store m (buf + 4096) 0) buf 0

-- A slot of cleared memory still holds 0 after both sides have cleared the acknowledgements.
fresh_desc :
    (m : Mem) (buf k : ℕ)
    → (desc
        (acks_cleared buf (store (store (clear_bytes m buf ipcq_mem_size) buf 0) (buf + 4096) 0))
        (buf + 64)
        k).seq
      ≡ 0
unfolding read_desc
fresh_desc m buf k = ground arith

module _ (os₁ os₂ : System) (name buf : ℕ) (pool₁ pool₂ : RegionPool) (clear : Bool)
    (w₁ : Works os₁ true name buf pool₁) (w₂ : Works os₂ false name buf pool₂) where
  abbrev pub first : Ipcq
  first = own_of true os₁ name buf (clear_bytes os₁.found buf ipcq_mem_size)

  abbrev second : Ipcq
  second = own_of false os₂ name buf os₂.found

  pair-Linked : os₂.found ≡ first.shared → Linked (told first second) second
  unfolding new_own layout
  pair-Linked same = record {
    memory = refl;
    tx_slots = refl;
    rx_slots = refl;
    descs = refl;
    ack = refl;
    apart = inl (omega arith);
    behind = omega arith;
    acked = ground arith;
    bounded = ground arith;
    width = omega arith;
    sent = λ k lo hi. absurd (omega arith);
    stale = λ k lo hi. omega (
      arith,
      ap (λ m. (desc (acks_cleared buf m) (buf + 64) k).seq) same,
      fresh_desc os₁.found buf k,
    );
  }

  -- When all calls of the two creations succeed, the first on a new shared memory object that it
  -- clears, the second on the same object: both return a queue, the sending half of the first is
  -- linked to the receiving half of the second, and nothing is in flight.
  pub create-Linked :
      os₂.found ≡ first.shared
      → (q₁ q₂ : IpcqQ) × (cleanq_ipcq_create os₁ true ≡ success q₁)
        × (cleanq_ipcq_create os₂ clear ≡ success q₂)
        × Linked (told q₁.own q₂.own) q₂.own
        × (in_flight (told q₁.own q₂.own) q₂.own ≡ [])
  unfolding new_own
  create-Linked same = (
    queue_of pool₁ first,
    queue_of pool₂ second,
    create-creator os₁ name buf pool₁ w₁,
    create-other os₂ clear name buf pool₂ w₂,
    pair-Linked same,
    refl,
  )
