-- ===== src/Ipcq.antt =====
-- cleanq/backends/ipc/ipc_queue.c, the backend over two rings of numbered descriptors.
pub mod Create
pub mod Ring
pub mod Refine
pub mod Receive
pub mod Takes
pub mod History
pub mod Drain
pub mod Pair
pub mod OneWay
pub mod Release
pub mod Wait
mod Samples
mod Tests
use cleanq_linux.Base.{
  ℕ, zero, suc, ◌+◌, ◌-◌, ◌*◌, ◌%◌, ◌^◌, Bool, true, false, not, Option, none, some, List, [], ◌∷◌,
  Run, done, crash, hang, ◌>>=◌, ltb, leb, ◌==◌, if◌then◌else◌,
}
use cleanq_linux.Types.{u64, Errval, ok, queue_empty, queue_full, Capref, Buf}
use cleanq_linux.RegionPool.{Memory}
use cleanq_linux.Cleanq.{Cleanq, Dequeued, Backend, Callbacks}
use cleanq_linux.Cleanq.Commands as Commands
use cleanq_linux.Shared.{Mem, store}

abbrev pub ipcq_default_size : ℕ
ipcq_default_size = 64

abbrev pub ipcq_message_size : ℕ
ipcq_message_size = 64

abbrev pub ipcq_chan_size : ℕ
ipcq_chan_size = ipcq_default_size * ipcq_message_size

abbrev pub ipcq_mem_size : ℕ
ipcq_mem_size = 2 * ipcq_chan_size

-- `struct ipcq_desc`, read out of memory
pub record Desc : Type 0 where
  pub seq : ℕ
  pub buf : Buf
  pub cmd : ℕ

-- `struct cleanq_ipcq` behind its generic part, and the shared memory as a call finds it. The
-- descriptors and the acknowledgements are addresses.
pub record Ipcq : Type 0 where
  pub name : Option ℕ
  pub slots : ℕ
  pub rx_descs : ℕ
  pub rx_seq : ℕ
  pub rx_seq_ack : ℕ
  pub tx_descs : ℕ
  pub tx_seq : ℕ
  pub tx_seq_ack : ℕ
  pub rxtx_mem : Option ℕ
  pub memsize : ℕ
  pub shared : Mem

abbrev pub IpcqQ : Type 0
IpcqQ = Cleanq Ipcq

abbrev pub ipcq_cmd_register : ℕ
ipcq_cmd_register = 1

abbrev pub ipcq_cmd_deregister : ℕ
ipcq_cmd_deregister = 2

-- the descriptor that stands at address `a`; the 32-bit `rid` has 4 bytes of padding behind it
unfoldable pub read_desc : Mem → ℕ → Desc
read_desc m a = record {
  seq = m a;
  buf = record {
    rid = m (a + 8);
    offset = m (a + 16);
    length = m (a + 24);
    valid_data = m (a + 32);
    valid_length = m (a + 40);
    flags = m (a + 48);
  };
  cmd = m (a + 56);
}

-- the stores of `ipcq_enqueue_internal`, the sequence number last
unfoldable pub write_desc : Mem → ℕ → Desc → Mem
write_desc m₀ a d =
    let m₁ = store m₀ (a + 8) d.buf.rid in
    let m₂ = store m₁ (a + 16) d.buf.offset in
    let m₃ = store m₂ (a + 24) d.buf.length in
    let m₄ = store m₃ (a + 32) d.buf.valid_data in
    let m₅ = store m₄ (a + 40) d.buf.valid_length in
    let m₆ = store m₅ (a + 48) d.buf.flags in let m₇ = store m₆ (a + 56) d.cmd in store m₇ a d.seq

abbrev pub desc_at : ℕ → ℕ → ℕ → ℕ
desc_at descs slots seq = descs + ipcq_message_size * (seq % slots)

abbrev pub ipcq_get_tx_desc_head : Ipcq → ℕ
ipcq_get_tx_desc_head q = desc_at q.tx_descs q.slots q.tx_seq

abbrev pub ipcq_get_rx_desc_tail : Ipcq → ℕ
ipcq_get_rx_desc_tail q = desc_at q.rx_descs q.slots q.rx_seq

-- the unsigned difference `tx_seq - tx_seq_ack->value`
unfoldable pub ipcq_can_send : Ipcq → Bool
ipcq_can_send q = ltb (u64 (q.tx_seq + 2 ^ 64 - q.shared q.tx_seq_ack)) q.slots

abbrev pub numbered : ℕ → Buf → ℕ → Desc
numbered seq b cmd = record { seq = seq; buf = b; cmd = cmd }

unfoldable pub enqueue_own : Ipcq → Buf → ℕ → Errval × Ipcq
unfolding ipcq_can_send write_desc
enqueue_own q b cmd =
    if ipcq_can_send q
    then (
      ok,
      record q {
        shared = write_desc q.shared (ipcq_get_tx_desc_head q) (numbered q.tx_seq b cmd);
        tx_seq = u64 (q.tx_seq + 1);
      },
    )
    else (queue_full, q)

unfoldable pub ipcq_enqueue_internal : IpcqQ → Buf → ℕ → Run (Errval × IpcqQ)
unfolding enqueue_own
ipcq_enqueue_internal q b cmd =
    let (err, own) = enqueue_own q.own b cmd in done (err, record q { own = own })

-- The remainder by `slots` is undefined at 0.
unfoldable pub ipcq_can_recv : Ipcq → Run Bool
ipcq_can_recv q =
    if q.slots == 0
    then crash
    else done (leb q.rx_seq (read_desc q.shared (ipcq_get_rx_desc_tail q)).seq)

unfoldable pub ipcq_enqueue : IpcqQ → Buf → Run (Errval × IpcqQ)
unfolding ipcq_enqueue_internal
ipcq_enqueue q b = ipcq_enqueue_internal q b 0

-- `q->rx_seq++; q->rx_seq_ack->value = q->rx_seq`
unfoldable pub acknowledge : Ipcq → Ipcq
acknowledge q =
    let seq = u64 (q.rx_seq + 1) in
    record q { rx_seq = seq; shared = store q.shared q.rx_seq_ack seq }

abbrev pub sent_cap : Buf → Capref
sent_cap b = record { vaddr = b.offset; paddr = b.valid_data; len = b.length }

module _ (callbacks : Callbacks Ipcq) (memory : ℕ → Memory) where
  abbrev pub handle_register_command : ℕ → IpcqQ → Capref → ℕ → Run (Errval × IpcqQ)
  handle_register_command round = Commands.handle_register_command callbacks (memory round)

  abbrev pub handle_register_decommand : IpcqQ → ℕ → Run (Errval × IpcqQ)
  handle_register_decommand = Commands.handle_deregister_command callbacks

  unfoldable pub handle_command : ℕ → IpcqQ → Desc → Run (Errval × IpcqQ)
  handle_command round q d =
      if d.cmd == ipcq_cmd_register
      then handle_register_command round q (sent_cap d.buf) d.buf.rid
      else handle_register_decommand q d.buf.rid

  -- `memory round` answers the allocations of a command that is handled in that round; the rounds
  -- that are left are the fuel. An error of a command is printed and dropped.
  unfoldable pub ipcq_dequeue : ℕ → IpcqQ → Buf → Run (Dequeued Ipcq)
  unfolding handle_command ipcq_can_recv acknowledge
  ipcq_dequeue zero q out = hang
  ipcq_dequeue (suc round) q out = do
    can ← ipcq_can_recv q.own
    elim can [
      | false ↦ done (queue_empty, out, q)
      | true ↦
          let d : Desc = read_desc q.own.shared (ipcq_get_rx_desc_tail q.own) in
          elim (d.cmd == 0) [
            | true ↦ done (ok, d.buf, record q { own = acknowledge q.own })
            | false ↦ do
              (err, q') ← handle_command round q d
              ipcq_dequeue round (record q' { own = acknowledge q'.own }) out
          ]
    ]

unfoldable pub ipcq_notify : IpcqQ → Run (Errval × IpcqQ)
ipcq_notify q = done (ok, q)

-- The busy wait for room. The list holds what the other side writes into the acknowledgement
-- between two tests; when it ends, nothing more comes.
unfoldable pub wait_send : List ℕ → Ipcq → Run Ipcq
unfolding ipcq_can_send
wait_send [] q = if ipcq_can_send q then done q else hang
wait_send (ack ∷ acks) q =
    let rest = wait_send acks (record q { shared = store q.shared q.tx_seq_ack ack }) in
    if ipcq_can_send q then done q else rest

abbrev pub register_message : Capref → ℕ → Buf
register_message cap rid = record {
  rid = rid;
  offset = cap.vaddr;
  length = cap.len;
  valid_data = cap.paddr;
  valid_length = 0;
  flags = 0;
}

unfoldable pub ipcq_register : List ℕ → IpcqQ → Capref → ℕ → Run (Errval × IpcqQ)
unfolding wait_send ipcq_enqueue_internal
ipcq_register acks q cap rid = do
  own ← wait_send acks q.own
  ipcq_enqueue_internal (record q { own = own }) (register_message cap rid) ipcq_cmd_register

abbrev pub deregister_message : ℕ → Buf
deregister_message rid = record {
  rid = rid;
  offset = 0;
  length = 0;
  valid_data = 0;
  valid_length = 0;
  flags = 0;
}

unfoldable pub ipcq_deregister : List ℕ → IpcqQ → ℕ → Run (Errval × IpcqQ)
unfolding wait_send ipcq_enqueue_internal
ipcq_deregister acks q rid = do
  own ← wait_send acks q.own
  ipcq_enqueue_internal (record q { own = own }) (deregister_message rid) ipcq_cmd_deregister

unfoldable pub ipcq_control : IpcqQ → ℕ → ℕ → ℕ → Run (Errval × ℕ × IpcqQ)
ipcq_control q request value result = done (ok, result, q)

-- A failure of `munmap` or `shm_unlink` is only printed.
unfoldable pub ipcq_destroy : IpcqQ → Run Errval
ipcq_destroy q = done ok

-- The function pointers that `cleanq_ipcq_create` sets: `destroy` stays the null pointer that
-- `calloc` left.
abbrev pub ipcq_backend : Callbacks Ipcq → (ℕ → Memory) → ℕ → List ℕ → Backend Ipcq
ipcq_backend callbacks memory fuel acks = record {
  reg = ipcq_register acks;
  dereg = ipcq_deregister acks;
  ctrl = ipcq_control;
  notify = ipcq_notify;
  enq = ipcq_enqueue;
  deq = ipcq_dequeue callbacks memory fuel;
  destroy = none;
}
