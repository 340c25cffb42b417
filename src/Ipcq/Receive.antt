-- ===== src/Ipcq/Receive.antt =====
-- The receiving side of a ring of cleanq/backends/ipc/ipc_queue.c.
use cleanq_linux.Base.{
  ℕ, suc, ◌+◌, ◌-◌, ◌*◌, ◌%◌, ◌<◌, ◌≤◌, ◌≡◌, refl, sym, ◌∙◌, ◌⊎◌, ap, false, inl, inr, ◌∷◌, arith,
  ltb, ◌==◌, Bool-cases, done,
}
use native.Mathlib.Nat.{mod-eq_of_lt}
use cleanq_linux.Types.{u64}
use cleanq_linux.Fifo
use cleanq_linux.Shared.{store}
use cleanq_linux.Ipcq.{Ipcq, read_desc, desc_at, acknowledge, ipcq_can_recv}
use cleanq_linux.Ipcq.Ring.{ring_slots, desc, Linked, in_flight, desc-store}

-- the two sides after the receiving side took one descriptor
abbrev pub popped : Ipcq → Ipcq
popped rx = record rx {
  rx_seq = rx.rx_seq + 1;
  shared = store rx.shared rx.rx_seq_ack (rx.rx_seq + 1);
}

abbrev pub told : Ipcq → Ipcq → Ipcq
told tx rx = record tx { shared = rx.shared }

module _ {tx rx : Ipcq} (l : Linked tx rx) where
  -- the descriptor that `ipcq_get_rx_desc_tail` points to
  pub tail_lem :
      read_desc rx.shared (desc_at rx.rx_descs rx.slots rx.rx_seq)
      ≡ desc tx.shared tx.tx_descs rx.rx_seq
  tail_lem = cc (l.memory, l.rx_slots, l.descs)

  -- A message is there exactly if the two numbers differ.
  pub can_recv_lem : ipcq_can_recv rx ≡ done (ltb rx.rx_seq tx.tx_seq)
  unfolding ipcq_can_recv
  can_recv_lem =
      let nonzero : rx.slots == 0 ≡ false = ground (arith, l.rx_slots) in
      rw (nonzero, tail_lem)
        (elim (Bool-cases (ltb rx.rx_seq tx.tx_seq)) [
          | inl lt ↦ ground (arith, l.sent rx.rx_seq)
          | inr ge ↦ ground (arith, l.behind, l.stale rx.rx_seq)
        ])

  pub acknowledge_lem : rx.rx_seq < tx.tx_seq → acknowledge rx ≡ popped rx
  unfolding acknowledge
  acknowledge_lem lt =
      let n : u64 (rx.rx_seq + 1) ≡ rx.rx_seq + 1 = mod-eq_of_lt (omega (arith, l.width)) in rw n

  -- the same memory, seen from the receiving side
  outside : (rx.rx_seq_ack < tx.tx_descs) ⊎ (tx.tx_descs + 64 * ring_slots ≤ rx.rx_seq_ack)
  outside = rw l.ack at l.apart

  desc-popped : (k : ℕ) → desc (popped rx).shared tx.tx_descs k ≡ desc tx.shared tx.tx_descs k
  desc-popped k =
      desc-store rx.shared tx.tx_descs rx.rx_seq_ack (rx.rx_seq + 1) k outside
      ∙ ap (λ m. desc m tx.tx_descs k) (sym l.memory)

  ack-popped : (popped rx).shared tx.tx_seq_ack ≡ rx.rx_seq + 1
  ack-popped = ground (arith, l.ack)

  pub pop-Linked : rx.rx_seq < tx.tx_seq → Linked (told tx (popped rx)) (popped rx)
  pop-Linked lt = record {
    memory = refl;
    tx_slots = l.tx_slots;
    rx_slots = l.rx_slots;
    descs = l.descs;
    ack = l.ack;
    apart = l.apart;
    behind = omega arith;
    acked = rw ack-popped (omega arith);
    bounded = rw ack-popped (omega (arith, l.bounded, l.acked));
    width = l.width;
    sent = λ k lo hi. ap (λ d. d.seq) (desc-popped k) ∙ l.sent k (omega arith) hi;
    stale = λ k lo hi. elim (Bool-cases (ltb k (rx.rx_seq + ring_slots))) [
      | inl old ↦ rw (desc-popped k) (l.stale k lo (ground arith))
      | inr new ↦
          let last : k ≡ rx.rx_seq + ring_slots = ground arith in
          let round : (rx.rx_seq + ring_slots) % ring_slots ≡ rx.rx_seq % ring_slots =
            omega arith in
          rw (desc-popped k, last, round, l.sent rx.rx_seq (omega arith) lt) (omega arith)
    ];
  }

  pub in_flight-pop :
      rx.rx_seq < tx.tx_seq
      → in_flight tx rx
        ≡ desc tx.shared tx.tx_descs rx.rx_seq ∷ in_flight (told tx (popped rx)) (popped rx)
  in_flight-pop lt =
      let at = desc tx.shared tx.tx_descs in
      let first : tx.tx_seq - rx.rx_seq ≡ suc (tx.tx_seq - (rx.rx_seq + 1)) = omega arith in
      ap (Fifo.window at rx.rx_seq) first
      ∙ ap (λ ds. at rx.rx_seq ∷ ds)
          (Fifo.window_congr at (desc (popped rx).shared tx.tx_descs) (rx.rx_seq + 1)
            (rx.rx_seq + 1) (tx.tx_seq - (rx.rx_seq + 1))
            (λ k h. sym (desc-popped (rx.rx_seq + 1 + k))))
