-- ===== src/Ffq/Fresh.antt =====
-- The two sides that `cleanq_ffq_create` (cleanq/backends/ff/ff_queue.c) makes over one shared
-- memory object, which both map at one address.
use cleanq_linux.Base.{
  ℕ, zero, suc, ◌+◌, ◌%◌, ◌<◌, ◌≡◌, refl, sym, ◌∙◌, ap, true, false, Bool, none, some, [], done,
  if◌then◌else◌, arith,
}
use cleanq_linux.Types.{ok}
use cleanq_linux.RegionPool.{RegionPool}
use cleanq_linux.Cleanq.{cleanq_init}
use cleanq_linux.Shared.{System, Mem, store, clear_bytes}
use cleanq_linux.Ffq.{FfqQ, ffq_mem_size}
use cleanq_linux.Ffq.Channel.{
  Chan, Direction, send, recv, empty_slots, ffq_impl_init_rx, ffq_impl_init_tx, ffq_impl_get_slot,
  slot_empty, word,
}
use cleanq_linux.Ffq.Create.{Created, cleanq_ffq_create}
use cleanq_linux.Ffq.Refine.{outgoing}
use cleanq_linux.Ffq.Release.{aligned_lem, both_aligned}
use cleanq_linux.Ffq.Ends.{Joined}

-- All calls succeed, and the shared memory object is new exactly if `creator`.
pub record Works (os : System) (creator : Bool) (name buf : ℕ) (pool : RegionPool) : Type 0 where
  pub calloc : os.calloc_ok ≡ true
  pub strdup : os.strdup ≡ some name
  pub exclusive : os.exclusive_ok ≡ creator
  pub opens : os.open_ok ≡ true
  pub truncates : os.truncate_ok ≡ true
  pub maps : os.mapped ≡ some buf
  pub inits : cleanq_init os.pool_ok os.slots_ok os.random ≡ (ok, some pool)

empty_slots-lt : (n slot x : ℕ) (m : Mem) → x < slot → empty_slots n slot m x ≡ m x
unfolding empty_slots
empty_slots-lt zero slot x m h = refl
empty_slots-lt (suc n) slot x m h = empty_slots-lt n (slot + 64) x _ (omega arith) ∙ ground arith

empty_slots-first : (n slot : ℕ) (m : Mem) → empty_slots (suc n) slot m (word slot 0) ≡ slot_empty
unfolding empty_slots
empty_slots-first n slot m =
    empty_slots-lt n (slot + 64) (word slot 0) (store m (word slot 0) slot_empty) (omega arith)
    ∙ ground arith

abbrev pub success : FfqQ → Created
success q = record { err = ok; queue = some q; released = []; descriptor = true }

-- the memory that the creator leaves
abbrev pub prepared : System → ℕ → Bool → Mem
prepared os buf clear =
    empty_slots 64 (buf + 4096)
      (empty_slots 64 buf (if clear then clear_bytes os.found buf ffq_mem_size else os.found))

prepared-upper :
    (os : System) (buf : ℕ) (clear : Bool) → prepared os buf clear (buf + 4096) ≡ slot_empty
prepared-upper os buf clear =
    ap (prepared os buf clear) (omega arith) ∙ empty_slots-first 63 (buf + 4096) _

prepared-lower : (os : System) (buf : ℕ) (clear : Bool) → prepared os buf clear buf ≡ slot_empty
prepared-lower os buf clear =
    empty_slots-lt 64 (buf + 4096) buf _ (omega arith)
    ∙ ap (empty_slots 64 buf (if clear then clear_bytes os.found buf ffq_mem_size else os.found))
        (omega arith)
    ∙ empty_slots-first 63 buf _

none_outgoing :
    (q : FfqQ) → q.own.shared (word (ffq_impl_get_slot q.own.txq) 0) ≡ slot_empty → outgoing q ≡ []
none_outgoing q e = rw e refl

abbrev pub chan : Direction → ℕ → Chan
chan d slots = record { slots = slots; size = 64; pos = 0; direction = d }

abbrev made : RegionPool → ℕ → ℕ → Chan → Chan → Mem → FfqQ
made pool name buf tx rx m = record {
  pool = pool;
  state = 0;
  register_callback = none;
  deregister_callback = none;
  own = record {
    txq = tx;
    rxq = rx;
    name = some name;
    rxtx_mem = some buf;
    memsize = ffq_mem_size;
    shared = m;
  };
}

module _ (os₁ os₂ : System) (name buf : ℕ) (pool₁ pool₂ : RegionPool) (clear clear' : Bool)
    (w₁ : Works os₁ true name buf pool₁) (w₂ : Works os₂ false name buf pool₂)
    (page : buf % 64 ≡ 0) where
  abbrev first : FfqQ
  first = made pool₁ name buf (chan send (buf + 4096)) (chan recv buf) (prepared os₁ buf clear)

  abbrev second : FfqQ
  second = made pool₂ name buf (chan send buf) (chan recv (buf + 4096)) os₂.found

  create-first : cleanq_ffq_create os₁ clear ≡ done (success first)
  unfolding cleanq_ffq_create ffq_impl_init_rx ffq_impl_init_tx
  create-first = rw (
    w₁.calloc,
    w₁.strdup,
    w₁.exclusive,
    w₁.truncates,
    w₁.maps,
    w₁.inits,
    both_aligned buf page,
    aligned_lem buf page,
  )

  create-second : cleanq_ffq_create os₂ clear' ≡ done (success second)
  unfolding cleanq_ffq_create ffq_impl_init_rx ffq_impl_init_tx
  create-second = rw (
    w₂.calloc,
    w₂.strdup,
    w₂.exclusive,
    w₂.opens,
    w₂.maps,
    w₂.inits,
    both_aligned buf page,
    aligned_lem buf page,
  )

  -- When all calls of the two creations succeed, the first on a new shared memory object, the
  -- second on the same object, at an address that 64 divides: both return a queue, each side's
  -- sending end is joined to the other's receiving end, and nothing is on its way.
  pub create-Joined :
      os₂.found ≡ prepared os₁ buf clear
      → (q₁ q₂ : FfqQ) × (cleanq_ffq_create os₁ clear ≡ done (success q₁))
        × (cleanq_ffq_create os₂ clear' ≡ done (success q₂))
        × Joined q₁ q₂
        × Joined q₂ q₁
        × (outgoing q₁ ≡ [])
        × (outgoing q₂ ≡ [])
  create-Joined same = (
    first,
    second,
    create-first,
    create-second,
    record {
      sender = record { facing = refl; pos_in = omega arith };
      receiver = record { facing = refl; pos_in = omega arith };
      slot = refl;
      memory = sym same;
    },
    record {
      sender = record { facing = refl; pos_in = omega arith };
      receiver = record { facing = refl; pos_in = omega arith };
      slot = refl;
      memory = same;
    },
    none_outgoing first (ap first.own.shared (omega arith) ∙ prepared-upper os₁ buf clear),
    none_outgoing second
        (ap second.own.shared (omega arith) ∙ ap (λ m. m buf) same ∙ prepared-lower os₁ buf clear),
  )
