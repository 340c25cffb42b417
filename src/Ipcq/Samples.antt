-- ===== src/Ipcq/Samples.antt =====
-- Two sides of cleanq/backends/ipc/ipc_queue.c in one process.
use cleanq_linux.Base.{ℕ, inl, refl, none, some, done, arith}
use cleanq_linux.Types.{ok, Buf}
use cleanq_linux.RegionPool.{RegionPool}
use cleanq_linux.RegionPool.Samples.{empty, no_block}
use cleanq_linux.Cleanq.{Callbacks}
use cleanq_linux.Shared.{Mem}
use cleanq_linux.Ipcq.{Ipcq, IpcqQ, read_desc}
use cleanq_linux.Ipcq.Ring.{Linked}

abbrev pub no_callbacks : Callbacks Ipcq
no_callbacks = record {
  on_register = λ f q cap rid. done (ok, q);
  on_deregister = λ f q rid. done (ok, q);
}

abbrev pub buf : Buf
buf = record { offset = 1024; length = 2048; valid_data = 0; valid_length = 64; flags = 0; rid = 6 }

-- the sides as `cleanq_ipcq_create` makes them at address 0
abbrev pub own : ℕ → ℕ → ℕ → ℕ → Mem → Ipcq
own tx tx_ack rx rx_ack m = record {
  name = some 1;
  slots = 63;
  rx_descs = rx;
  rx_seq = 1;
  rx_seq_ack = rx_ack;
  tx_descs = tx;
  tx_seq = 1;
  tx_seq_ack = tx_ack;
  rxtx_mem = some 0;
  memsize = 8192;
  shared = m;
}

abbrev pub left : Ipcq
left = own 64 0 8192 4096 (λ a. 0)

abbrev pub right : Ipcq
right = own 4160 4096 64 0 (λ a. 0)

pub linked : Linked left right
unfolding read_desc
linked = record {
  memory = refl;
  tx_slots = refl;
  rx_slots = refl;
  descs = refl;
  ack = refl;
  apart = inl (omega arith);
  behind = omega arith;
  acked = omega arith;
  bounded = omega arith;
  width = omega arith;
  sent = λ k lo hi. absurd (omega arith);
  stale = λ k lo hi. omega arith;
}

-- a pool and an allocator that refuse every command, and change nothing
abbrev pub starved : RegionPool
starved = empty 1 no_block

abbrev pub over : Ipcq → IpcqQ
over o = record {
  pool = starved;
  state = 0;
  register_callback = none;
  deregister_callback = none;
  own = o;
}
