-- ===== src/Ipcq/Wait.antt =====
-- The busy wait of `ipcq_register` and `ipcq_deregister` (cleanq/backends/ipc/ipc_queue.c).
use cleanq_linux.Base.{
  ℕ, ◌+◌, ◌-◌, ◌^◌, ◌≡◌, refl, ◌⊎◌, inl, inr, true, List, [], ◌∷◌, done, ltb, ◌==◌, Bool-cases,
  arith,
}
use cleanq_linux.Types.{ok, u64, Capref, Buf}
use cleanq_linux.Shared.{Mem, store}
use cleanq_linux.Ipcq.{
  Ipcq, IpcqQ, numbered, read_desc, write_desc, ipcq_can_send, ipcq_get_tx_desc_head, enqueue_own,
  ipcq_enqueue_internal, wait_send, ipcq_register, ipcq_deregister, register_message,
  deregister_message, ipcq_cmd_register, ipcq_cmd_deregister,
}
use cleanq_linux.Ipcq.Ring.{read-write_desc}

-- With this value in the acknowledgement there is room.
abbrev pub Frees : Ipcq → ℕ → Type 0
Frees q ack = ltb (u64 (q.tx_seq + 2 ^ 64 - ack)) q.slots ≡ true

-- One of the values makes room.
abbrev pub AnyFrees : Ipcq → List ℕ → Type 0
AnyFrees q [] = ⊥
AnyFrees q (ack ∷ acks) = Frees q ack ⊎ AnyFrees q acks

abbrev in_memory : Ipcq → Mem → Ipcq
in_memory q m = record q { shared = m }

Frees-can_send :
    (q : Ipcq) (ack : ℕ)
    → Frees q ack
    → ipcq_can_send (record q { shared = store q.shared q.tx_seq_ack ack }) ≡ true
unfolding ipcq_can_send
Frees-can_send q ack f = let self : q.tx_seq_ack == q.tx_seq_ack ≡ true = ground arith in rw self f

-- The wait ends with room, and only the memory differs.
wait_send_ends :
    (acks : List ℕ) (q : Ipcq)
    → (ipcq_can_send q ≡ true) ⊎ AnyFrees q acks
    → (m : Mem) × (wait_send acks q ≡ done (in_memory q m)) × (ipcq_can_send (in_memory q m) ≡ true)
unfolding wait_send
wait_send_ends [] q (inl can) = (q.shared, rw can, can)
wait_send_ends [] q (inr never) = absurd never
wait_send_ends (ack ∷ acks) q later = elim (Bool-cases (ipcq_can_send q)) [
  | inl can ↦ (q.shared, rw can, can)
  | inr full ↦
      let q₁ : Ipcq = record q { shared = store q.shared q.tx_seq_ack ack } in
      let next : (ipcq_can_send q₁ ≡ true) ⊎ AnyFrees q₁ acks = elim later [
        | inl can ↦ absurd cc
        | inr (inl now) ↦ inl (Frees-can_send q ack now)
        | inr (inr any) ↦ inr any
      ] in
      let (m, run, can) = wait_send_ends acks q₁ next in (m, rw full run, can)
]

-- A command ends in this state: its descriptor stands at the head, under the next number.
pub record Sent (q q' : IpcqQ) (b : Buf) (cmd : ℕ) : Type 0 where
  pub desc : read_desc q'.own.shared (ipcq_get_tx_desc_head q.own) ≡ numbered q.own.tx_seq b cmd
  pub next : q'.own.tx_seq ≡ u64 (q.own.tx_seq + 1)
  pub rest :
      q' ≡ record q { own = record (q.own) { shared = q'.own.shared; tx_seq = q'.own.tx_seq } }

abbrev in_memory_q : IpcqQ → Mem → IpcqQ
in_memory_q q m = record q { own = in_memory q.own m }

enqueue_internal-Sent :
    (q : IpcqQ) (m : Mem) (b : Buf) (cmd : ℕ)
    → ipcq_can_send (in_memory q.own m) ≡ true
    → (q' : IpcqQ) × (ipcq_enqueue_internal (in_memory_q q m) b cmd ≡ done (ok, q'))
      × Sent q q' b cmd
unfolding ipcq_enqueue_internal enqueue_own
enqueue_internal-Sent q m b cmd can =
    let head = ipcq_get_tx_desc_head q.own in
    let d = numbered q.own.tx_seq b cmd in
    (
      record q {
        own = record (q.own) { shared = write_desc m head d; tx_seq = u64 (q.own.tx_seq + 1) };
      },
      rw can,
      record { desc = read-write_desc m head d; next = refl; rest = refl },
    )

module _ (acks : List ℕ) (q : IpcqQ) (rid : ℕ)
    (room : (ipcq_can_send q.own ≡ true) ⊎ AnyFrees q.own acks) where
  -- When there is room, or one of the values that the other side writes into the acknowledgement
  -- makes room, the busy wait of `ipcq_register` ends, and so does the call, with no error. At the
  -- head of the ring then stands a descriptor with the next number and the command 1, which
  -- carries the id of the region, its virtual address as the offset, its length, and its physical
  -- address as the offset of the valid data, and zero elsewhere. Only that, the number and the
  -- shared memory differ from the queue before.
  pub ipcq_register-Sent :
      (cap : Capref)
      → (q' : IpcqQ) × (ipcq_register acks q cap rid ≡ done (ok, q'))
        × Sent q q'
            (record {
              rid = rid;
              offset = cap.vaddr;
              length = cap.len;
              valid_data = cap.paddr;
              valid_length = 0;
              flags = 0;
            })
            1
  unfolding ipcq_register
  ipcq_register-Sent cap =
      let (m, run, can) = wait_send_ends acks q.own room in
      let (q', send, sent) =
        enqueue_internal-Sent q m (register_message cap rid) ipcq_cmd_register can in
      (q', rw run send, sent)

  -- The same holds of `ipcq_deregister` and the deregister command.
  pub ipcq_deregister-Sent :
      (q' : IpcqQ) × (ipcq_deregister acks q rid ≡ done (ok, q'))
      × Sent q q'
          (record {
            rid = rid;
            offset = 0;
            length = 0;
            valid_data = 0;
            valid_length = 0;
            flags = 0;
          })
          2
  unfolding ipcq_deregister
  ipcq_deregister-Sent =
      let (m, run, can) = wait_send_ends acks q.own room in
      let (q', send, sent) =
        enqueue_internal-Sent q m (deregister_message rid) ipcq_cmd_deregister can in
      (q', rw run send, sent)
