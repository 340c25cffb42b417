-- ===== src/Ipcq/Ring.antt =====
-- One direction of cleanq/backends/ipc/ipc_queue.c: the ring that one side writes and the other
-- reads, as the descriptors between the two sequence numbers.
use cleanq_linux.Base.{
  ℕ, suc, ◌+◌, ◌-◌, ◌*◌, ◌%◌, ◌^◌, ◌<◌, ◌≤◌, ◌≡◌, refl, ◌∙◌, ◌≢◌, ◌⊎◌, ap, ap₂, true, false, inl,
  inr, List, [], ◌∷◌, ◌++◌, arith, ltb, ◌==◌, Bool-cases,
}
use native.Mathlib.Nat.{add-zero, mod-eq_of_lt}
use cleanq_linux.Types.{ok, queue_full, Buf, u64}
use cleanq_linux.Fifo
use cleanq_linux.Shared.{Mem, store}
use cleanq_linux.Ipcq.{
  Ipcq, Desc, read_desc, write_desc, desc_at, ipcq_can_send, enqueue_own, numbered,
}

pub read-write_desc : (m : Mem) (a : ℕ) (d : Desc) → read_desc (write_desc m a d) a ≡ d
unfolding read_desc write_desc
read-write_desc m a d = ground arith

-- A descriptor is 64 bytes long.
abbrev pub Apart : ℕ → ℕ → Type 0
Apart x a = (x < a) ⊎ (a + 64 ≤ x)

pub write_desc-ne : (m : Mem) (a x : ℕ) (d : Desc) → Apart x a → write_desc m a d x ≡ m x
unfolding write_desc
write_desc-ne m a x d h = ground arith

pub read_desc-congr :
    (m m' : Mem) (a : ℕ)
    → ((i : ℕ) → i < 64 → m (a + i) ≡ m' (a + i))
    → m a ≡ m' a
    → read_desc m a ≡ read_desc m' a
unfolding read_desc
read_desc-congr m m' a h h₀ = ground (
  arith,
  h 8 (omega arith),
  h 16 (omega arith),
  h 24 (omega arith),
  h 32 (omega arith),
  h 40 (omega arith),
  h 48 (omega arith),
  h 56 (omega arith),
)

abbrev pub ring_slots : ℕ
ring_slots = 63

-- the descriptor numbered `k`
abbrev pub desc : Mem → ℕ → ℕ → Desc
desc m descs k = read_desc m (desc_at descs ring_slots k)

-- What holds between the side `tx` that sends and the side `rx` that receives. `apart`: the
-- acknowledgement stands outside the descriptors. `sent`: what is in flight carries its number.
-- `stale`: a free descriptor carries an older number than the one it will get.
pub record Linked (tx rx : Ipcq) : Type 0 where
  pub memory : tx.shared ≡ rx.shared
  pub tx_slots : tx.slots ≡ ring_slots
  pub rx_slots : rx.slots ≡ ring_slots
  pub descs : tx.tx_descs ≡ rx.rx_descs
  pub ack : tx.tx_seq_ack ≡ rx.rx_seq_ack
  pub apart : (tx.tx_seq_ack < tx.tx_descs) ⊎ (tx.tx_descs + 64 * ring_slots ≤ tx.tx_seq_ack)
  pub behind : rx.rx_seq ≤ tx.tx_seq
  pub acked : tx.shared tx.tx_seq_ack ≤ rx.rx_seq
  pub bounded : tx.tx_seq ≤ tx.shared tx.tx_seq_ack + ring_slots
  pub width : tx.tx_seq < 2 ^ 64
  pub sent : (k : ℕ) → rx.rx_seq ≤ k → k < tx.tx_seq → (desc tx.shared tx.tx_descs k).seq ≡ k
  pub stale :
      (k : ℕ) → tx.tx_seq ≤ k → k < rx.rx_seq + ring_slots → (desc tx.shared tx.tx_descs k).seq < k

-- what is in flight, oldest first
abbrev pub in_flight : Ipcq → Ipcq → List Desc
in_flight tx rx = Fifo.window (desc tx.shared tx.tx_descs) rx.rx_seq (tx.tx_seq - rx.rx_seq)

-- Numbers in different slots have descriptors that do not overlap.
slots-Apart :
    (descs i j x : ℕ)
    → i % ring_slots ≢ j % ring_slots
    → x < 64
    → Apart (desc_at descs ring_slots i + x) (desc_at descs ring_slots j)
slots-Apart descs i j x ne h = elim (Bool-cases (ltb (i % ring_slots) (j % ring_slots))) [
  | inl lt ↦ inl (ground arith)
  | inr ge ↦ inr (ground arith)
]

desc-write_ne :
    (m : Mem) (descs i j : ℕ) (d : Desc)
    → i % ring_slots ≢ j % ring_slots
    → desc (write_desc m (desc_at descs ring_slots j) d) descs i ≡ desc m descs i
desc-write_ne m descs i j d ne =
    let a = desc_at descs ring_slots i in
    read_desc-congr _ m a (λ x h. write_desc-ne m _ (a + x) d (slots-Apart descs i j x ne h))
      (write_desc-ne m _ a d (rw (add-zero) at (slots-Apart descs i j 0 ne (omega arith))))

desc-write_self :
    (m : Mem) (descs j : ℕ) (d : Desc)
    → desc (write_desc m (desc_at descs ring_slots j) d) descs j ≡ d
desc-write_self m descs j d = read-write_desc m (desc_at descs ring_slots j) d

-- A store outside the ring changes no descriptor.
pub desc-store :
    (m : Mem) (descs a v k : ℕ)
    → (a < descs) ⊎ (descs + 64 * ring_slots ≤ a)
    → desc (store m a v) descs k ≡ desc m descs k
desc-store m descs a v k h =
    read_desc-congr _ m (desc_at descs ring_slots k) (λ x lt. ground arith) (ground arith)

-- `ipcq_can_send` compares what is not yet acknowledged with the number of slots.
pub can_send_lem :
    (tx rx : Ipcq)
    → Linked tx rx
    → ipcq_can_send tx ≡ ltb (tx.tx_seq - tx.shared tx.tx_seq_ack) ring_slots
unfolding ipcq_can_send
can_send_lem tx rx l =
    let difference : u64 (tx.tx_seq + 2 ^ 64 - tx.shared tx.tx_seq_ack)
        ≡ tx.tx_seq - tx.shared tx.tx_seq_ack =
      omega (arith, l.behind, l.acked, l.width) in
    ap₂ ltb difference l.tx_slots

-- the receiving side when the sending side has written the shared memory
abbrev pub sees : Ipcq → Ipcq → Ipcq
sees rx tx = record rx { shared = tx.shared }

-- the capacity that the acknowledgement leaves: 63 once the last receive has been acknowledged
abbrev pub capacity : Ipcq → Ipcq → ℕ
capacity tx rx = ring_slots - (rx.rx_seq - tx.shared tx.tx_seq_ack)

-- the sending side after a descriptor went in
abbrev pub pushed : Ipcq → Desc → Ipcq
pushed tx d = record tx {
  shared = write_desc tx.shared (desc_at tx.tx_descs ring_slots tx.tx_seq) d;
  tx_seq = tx.tx_seq + 1;
}

module _ {tx rx : Ipcq} (l : Linked tx rx) where
  pub enqueue-push :
      (b : Buf) (cmd : ℕ)
      → tx.tx_seq + 1 < 2 ^ 64
      → ltb (tx.tx_seq - tx.shared tx.tx_seq_ack) ring_slots ≡ true
      → enqueue_own tx b cmd ≡ (ok, pushed tx (numbered tx.tx_seq b cmd))
  unfolding enqueue_own
  enqueue-push b cmd room can =
      rw (can_send_lem tx rx l, can)
        (ap₂
          (λ s n. (
            ok,
            record tx {
              shared =
                  write_desc tx.shared (desc_at tx.tx_descs s tx.tx_seq) (numbered tx.tx_seq b cmd);
              tx_seq = n;
            },
          ))
          l.tx_slots (mod-eq_of_lt room))

  pub enqueue-full :
      (b : Buf) (cmd : ℕ)
      → ltb (tx.tx_seq - tx.shared tx.tx_seq_ack) ring_slots ≡ false
      → enqueue_own tx b cmd ≡ (queue_full, tx)
  unfolding enqueue_own
  enqueue-full b cmd can = rw (can_send_lem tx rx l, can)

  ack-push : (d : Desc) → (pushed tx d).shared tx.tx_seq_ack ≡ tx.shared tx.tx_seq_ack
  ack-push d = write_desc-ne tx.shared _ tx.tx_seq_ack d (ground (arith, l.apart))

  desc-push_ne :
      (d : Desc) (k : ℕ)
      → k % ring_slots ≢ tx.tx_seq % ring_slots
      → desc (pushed tx d).shared tx.tx_descs k ≡ desc tx.shared tx.tx_descs k
  desc-push_ne d k ne = desc-write_ne tx.shared tx.tx_descs k tx.tx_seq d ne

  desc-push_self : (d : Desc) → desc (pushed tx d).shared tx.tx_descs tx.tx_seq ≡ d
  desc-push_self d = desc-write_self tx.shared tx.tx_descs tx.tx_seq d

  pub push-Linked :
      (d : Desc)
      → d.seq ≡ tx.tx_seq
      → tx.tx_seq + 1 < 2 ^ 64
      → tx.tx_seq - tx.shared tx.tx_seq_ack < ring_slots
      → Linked (pushed tx d) (sees rx (pushed tx d))
  push-Linked d num room can = record {
    memory = refl;
    tx_slots = l.tx_slots;
    rx_slots = l.rx_slots;
    descs = l.descs;
    ack = l.ack;
    apart = l.apart;
    behind = omega (arith, l.behind);
    acked = rw (ack-push d) l.acked;
    bounded = rw (ack-push d) (omega (arith, l.acked, l.behind));
    width = room;
    sent = λ k lo hi. elim (Bool-cases (k == tx.tx_seq)) [
      | inl e ↦
          let same : k ≡ tx.tx_seq = ground arith in
          rw same (ap (λ x. x.seq) (desc-push_self d) ∙ num)
      | inr e ↦
          let before : k < tx.tx_seq = ground arith in
          ap (λ x. x.seq) (desc-push_ne d k (omega (arith, l.bounded, l.acked)))
          ∙ l.sent k lo before
    ];
    stale = λ k lo hi. rw (desc-push_ne d k (omega (arith, l.behind))) (l.stale k (omega arith) hi);
  }

  pub in_flight-push :
      (d : Desc)
      → tx.tx_seq - tx.shared tx.tx_seq_ack < ring_slots
      → in_flight (pushed tx d) (sees rx (pushed tx d)) ≡ in_flight tx rx ++ (d ∷ [])
  in_flight-push d can =
      let new = desc (pushed tx d).shared tx.tx_descs in
      let old = desc tx.shared tx.tx_descs in
      let n = tx.tx_seq - rx.rx_seq in
      let one_more : tx.tx_seq + 1 - rx.rx_seq ≡ suc n = omega (arith, l.behind) in
      let end : rx.rx_seq + n ≡ tx.tx_seq = omega (arith, l.behind) in
      rw one_more (
        Fifo.window_snoc new rx.rx_seq n
        ∙ ap₂ (λ ds x. ds ++ (x ∷ []))
            (Fifo.window_congr new old rx.rx_seq rx.rx_seq n
              (λ k lt. desc-push_ne d (rx.rx_seq + k) (omega (arith, l.bounded, l.acked))))
            (ap new end ∙ desc-push_self d))
