-- ===== src/Ipcq/OneWay.antt =====
-- The direction from the second side to the first, as the addresses that `cleanq_ipcq_create`
-- (cleanq/backends/ipc/ipc_queue.c) gives the two sides leave it.
use cleanq_linux.Base.{
  ℕ, ◌+◌, ◌≡◌, refl, ◌∙◌, inl, inr, ap, true, false, done, arith, leb, Bool-cases,
}
use native.Mathlib.Nat.{mod-lt}
use cleanq_linux.Types.{Buf}
use cleanq_linux.Shared.{Mem}
use cleanq_linux.Ipcq.{
  Ipcq, read_desc, write_desc, Desc, desc_at, enqueue_own, numbered, ipcq_can_recv, ipcq_can_send,
  ipcq_mem_size,
}
use cleanq_linux.Ipcq.Create.{layout}
use cleanq_linux.Ipcq.Ring.{ring_slots, sees, write_desc-ne}

-- A descriptor past the end of the memory keeps its number.
past_end :
    (m : Mem) (buf i j : ℕ) (d : Desc)
    → (read_desc
        (write_desc m (desc_at (buf + 4096 + 64) ring_slots i) d)
        (desc_at (buf + 4096 + 4096) ring_slots j)).seq
      ≡ (read_desc m (desc_at (buf + 4096 + 4096) ring_slots j)).seq
unfolding read_desc
past_end m buf i j d =
    write_desc-ne m (desc_at (buf + 4096 + 64) ring_slots i)
      (desc_at (buf + 4096 + 4096) ring_slots j) d
      (inr (omega (arith, mod-lt i {m = ring_slots} (omega arith))))

-- With the addresses that `cleanq_ipcq_create` gives the descriptors of the two sides, and 63
-- slots: the first side's receive descriptors begin where the memory that both sides share ends,
-- and nothing that the second side sends changes whether the first side sees a message.
pub enqueue_own-unheard :
    (tx rx : Ipcq) (buf : ℕ) (b : Buf) (cmd : ℕ)
    → tx.tx_descs ≡ (layout false buf).tx_descs
    → tx.slots ≡ ring_slots
    → rx.rx_descs ≡ (layout true buf).rx_descs
    → rx.slots ≡ ring_slots
    → (rx.rx_descs ≡ buf + ipcq_mem_size)
      × (let (err, tx') = enqueue_own tx b cmd in
          ipcq_can_recv (sees rx tx') ≡ ipcq_can_recv (sees rx tx))
unfolding layout enqueue_own ipcq_can_recv
enqueue_own-unheard tx rx buf b cmd txd txs rxd rxs = (
  rxd ∙ omega arith,
  elim (Bool-cases (ipcq_can_send tx)) [
    | inl can ↦
        rw (can, txd, txs, rxd, rxs)
          (ap (λ s. done (leb rx.rx_seq s))
            (past_end tx.shared buf tx.tx_seq rx.rx_seq (numbered tx.tx_seq b cmd)))
    | inr full ↦ rw full refl
  ],
)
