-- ===== src/Ipcq/Takes.antt =====
-- What a dequeue of cleanq/backends/ipc/ipc_queue.c does with the descriptors in flight, one after
-- the other.
use cleanq_linux.Base.{
  ℕ, suc, ◌≡◌, ◌≢◌, ◌⊎◌, refl, sym, inl, inr, false, List, [], ◌∷◌, Option, none, some, done, ◌==◌,
  Bool-cases, arith,
}
use mathlib.Core.Path.{subst}
use cleanq_linux.Types.{Errval}
use cleanq_linux.RegionPool.{Memory}
use cleanq_linux.Cleanq.{Callbacks}
use cleanq_linux.Cleanq.Commands as Commands
use cleanq_linux.Ipcq.{Ipcq, IpcqQ, Desc, handle_command}
use cleanq_linux.Ipcq.Receive.{popped}

-- One receive: the sequence number goes up by one, and is stored into the acknowledgement.
abbrev pub taken : IpcqQ → IpcqQ
taken q = record q { own = popped q.own }

-- The acknowledgement that the sender reads holds the receiver's sequence number.
abbrev pub IsAcknowledged : IpcqQ → Type 0
IsAcknowledged q = q.own.shared q.own.rx_seq_ack ≡ q.own.rx_seq

taken-IsAcknowledged : (q : IpcqQ) → IsAcknowledged (taken q)
taken-IsAcknowledged q = ground arith

-- `Takes round q ds next q' rest`: with the descriptors `ds` in flight to the queue `q`, each
-- command is handled and acknowledged, up to the first buffer, `next`, which is acknowledged. `q'`
-- is the queue that this leaves, and `rest` are the descriptors behind the buffer.
pub data Takes (callbacks : Callbacks Ipcq) (memory : ℕ → Memory)
    : ℕ → IpcqQ → List Desc → Option Desc → IpcqQ → List Desc → Type 0 where
  nothing : (round : ℕ) (q : IpcqQ) → Takes callbacks memory (suc round) q [] none q []
  buffer :
      (round : ℕ) (q : IpcqQ) (d : Desc) (ds : List Desc)
      → d.cmd ≡ 0
      → Takes callbacks memory (suc round) q (d ∷ ds) (some d) (taken q) ds
  registers :
      (round : ℕ) (q q₁ q' : IpcqQ) (d : Desc) (ds rest : List Desc) (next : Option Desc)
      (err : Errval)
      → d.cmd ≡ 1
      → Commands.handle_register_command callbacks
          (memory round)
          q
          (record { vaddr = d.buf.offset; paddr = d.buf.valid_data; len = d.buf.length })
          d.buf.rid
        ≡ done (err, q₁)
      → Takes callbacks memory round (taken q₁) ds next q' rest
      → Takes callbacks memory (suc round) q (d ∷ ds) next q' rest
  deregisters :
      (round : ℕ) (q q₁ q' : IpcqQ) (d : Desc) (ds rest : List Desc) (next : Option Desc)
      (err : Errval)
      → d.cmd ≢ 0
      → d.cmd ≢ 1
      → Commands.handle_deregister_command callbacks q d.buf.rid ≡ done (err, q₁)
      → Takes callbacks memory round (taken q₁) ds next q' rest
      → Takes callbacks memory (suc round) q (d ∷ ds) next q' rest

after_command :
    (q₁ q' : IpcqQ) (ds : List Desc)
    → ((ds ≡ []) × (q' ≡ taken q₁)) ⊎ IsAcknowledged q'
    → IsAcknowledged q'
after_command q₁ q' ds (inl (none_left, same)) =
    subst IsAcknowledged (sym same) (taken-IsAcknowledged q₁)
after_command q₁ q' ds (inr acknowledged) = acknowledged

module _ {callbacks : Callbacks Ipcq} {memory : ℕ → Memory} where
  pub Takes-command :
      (round : ℕ) (q q₁ q' : IpcqQ) (d : Desc) (ds rest : List Desc) (next : Option Desc)
      (err : Errval)
      → d.cmd == 0 ≡ false
      → handle_command callbacks memory round q d ≡ done (err, q₁)
      → Takes callbacks memory round (taken q₁) ds next q' rest
      → Takes callbacks memory (suc round) q (d ∷ ds) next q' rest
  unfolding handle_command
  Takes-command round q q₁ q' d ds rest next err command handled t =
      elim (Bool-cases (d.cmd == 1)) [
        | inl one ↦ registers round q q₁ q' d ds rest next err (ground arith) (rw one at handled) t
        | inr other ↦
            deregisters round q q₁ q' d ds rest next err (ground arith) (ground arith)
              (rw other at handled) t
      ]

  pub Takes-IsAcknowledged :
      {round : ℕ} {q q' : IpcqQ} {ds rest : List Desc} {next : Option Desc}
      → Takes callbacks memory round q ds next q' rest
      → ((ds ≡ []) × (q' ≡ q)) ⊎ IsAcknowledged q'
  Takes-IsAcknowledged (nothing round q) = inl (refl, refl)
  Takes-IsAcknowledged (buffer round q d ds plain) = inr (taken-IsAcknowledged q)
  Takes-IsAcknowledged (registers round q q₁ q' d ds rest next err one handled t) =
      inr (after_command q₁ q' ds (Takes-IsAcknowledged t))
  Takes-IsAcknowledged (deregisters round q q₁ q' d ds rest next err some_cmd other handled t) =
      inr (after_command q₁ q' ds (Takes-IsAcknowledged t))
