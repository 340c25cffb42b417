-- ===== src/Ffq.antt =====
-- cleanq/backends/ff/ff_queue.c, the backend over two channels in shared memory.
pub mod Channel
pub mod Create
pub mod Slot
pub mod Refine
pub mod Release
pub mod Ends
pub mod Fresh
pub mod Register
mod Tests
use cleanq_linux.Base.{
  ℕ, zero, suc, ◌*◌, true, false, Option, some, Run, done, hang, ◌>>=◌, ◌==◌, if◌then◌else◌,
}
use cleanq_linux.Types.{u32, Errval, ok, queue_empty, queue_full, Capref, Buf}
use cleanq_linux.RegionPool.{Memory}
use cleanq_linux.Cleanq.{Cleanq, Dequeued, Backend, Callbacks}
use cleanq_linux.Cleanq.Commands.{handle_register_command, handle_deregister_command}
use cleanq_linux.Shared.{Mem}
use Channel.{Chan, Message, msg_bytes, ffq_impl_send, ffq_impl_recv}

abbrev pub ffq_default_size : ℕ
ffq_default_size = 64

abbrev pub ffq_chan_size : ℕ
ffq_chan_size = ffq_default_size * msg_bytes

abbrev pub ffq_mem_size : ℕ
ffq_mem_size = 2 * ffq_chan_size

-- `struct cleanq_ffq` behind its generic part, and the shared memory as a call finds it
pub record Ffq : Type 0 where
  pub txq : Chan
  pub rxq : Chan
  pub name : Option ℕ
  pub rxtx_mem : Option ℕ
  pub memsize : ℕ
  pub shared : Mem

abbrev pub FfqQ : Type 0
FfqQ = Cleanq Ffq

abbrev pub ffq_cmd_register : ℕ
ffq_cmd_register = 1

abbrev pub ffq_cmd_deregister : ℕ
ffq_cmd_deregister = 2

-- the order in which `ff_enqueue` hands its arguments to `ffq_impl_send`
abbrev pub to_message : Buf → Message
to_message b = record {
  arg1 = b.rid;
  arg2 = b.offset;
  arg3 = b.length;
  arg4 = b.valid_data;
  arg5 = b.valid_length;
  arg6 = b.flags;
}

-- The first word goes through a pointer to a 32-bit variable, which keeps its low half.
abbrev pub from_message : Message → Buf
from_message a = record {
  rid = u32 a.arg1;
  offset = a.arg2;
  length = a.arg3;
  valid_data = a.arg4;
  valid_length = a.arg5;
  flags = a.arg6;
}

unfoldable pub ff_enqueue : FfqQ → Buf → Run (Errval × FfqQ)
ff_enqueue q b = do
  (sent, txq, m) ← ffq_impl_send q.own.txq (to_message b) q.own.shared
  done
      (if sent then ok else queue_full, record q { own = record (q.own) { txq = txq; shared = m } })

-- the capability that a register command carries
abbrev pub sent_cap : Buf → Capref
sent_cap b = record { vaddr = b.offset; paddr = b.valid_data; len = b.length }

module _ (callbacks : Callbacks Ffq) (memory : ℕ → Memory) where
  unfoldable pub handle_command : ℕ → FfqQ → Buf → Run (Errval × FfqQ)
  handle_command round q b =
      if b.flags == ffq_cmd_register
      then handle_register_command callbacks (memory round) q (sent_cap b) b.rid
      else handle_deregister_command callbacks q b.rid

  -- `memory round` answers the allocations of a command that is handled in that round; the rounds
  -- that are left are the fuel. An error of a command is printed and dropped.
  unfoldable pub ff_dequeue : ℕ → FfqQ → Buf → Run (Dequeued Ffq)
  unfolding handle_command
  ff_dequeue zero q out = hang
  ff_dequeue (suc round) q out = do
    (received, a, rxq, m) ← ffq_impl_recv q.own.rxq (to_message out) q.own.shared
    let q' : FfqQ = record q { own = record (q.own) { rxq = rxq; shared = m } }
    let b : Buf = from_message a
    elim received [
      | false ↦ done (queue_empty, out, q')
      | true ↦ elim (b.flags == 0) [
        | true ↦ done (ok, b, q')
        | false ↦ do (err, q'') ← handle_command round q' b; ff_dequeue round q'' b
      ]
    ]

unfoldable pub ff_notify : FfqQ → Run (Errval × FfqQ)
ff_notify q = done (ok, q)

-- the message of a register command
abbrev pub register_message : Capref → ℕ → Buf
register_message cap rid = record {
  rid = rid;
  offset = cap.vaddr;
  length = cap.len;
  valid_data = cap.paddr;
  valid_length = 0;
  flags = ffq_cmd_register;
}

unfoldable pub ff_register : FfqQ → Capref → ℕ → Run (Errval × FfqQ)
unfolding ff_enqueue
ff_register q cap rid = ff_enqueue q (register_message cap rid)

abbrev pub deregister_message : ℕ → Buf
deregister_message rid = record {
  rid = rid;
  offset = 0;
  length = 0;
  valid_data = 0;
  valid_length = 0;
  flags = ffq_cmd_deregister;
}

unfoldable pub ff_deregister : FfqQ → ℕ → Run (Errval × FfqQ)
unfolding ff_enqueue
ff_deregister q rid = ff_enqueue q (deregister_message rid)

unfoldable pub ff_control : FfqQ → ℕ → ℕ → ℕ → Run (Errval × ℕ × FfqQ)
ff_control q request value result = done (ok, result, q)

-- A failure of `munmap` or `shm_unlink` is only printed.
unfoldable pub ff_destroy : FfqQ → Run Errval
ff_destroy q = done ok

-- the function pointers that `cleanq_ffq_create` sets
abbrev pub ff_backend : Callbacks Ffq → (ℕ → Memory) → ℕ → Backend Ffq
ff_backend callbacks memory fuel = record {
  reg = ff_register;
  dereg = ff_deregister;
  ctrl = ff_control;
  notify = ff_notify;
  enq = ff_enqueue;
  deq = ff_dequeue callbacks memory fuel;
  destroy = some ff_destroy;
}
