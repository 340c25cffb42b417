-- ===== src/Ipcq/Refine.antt =====
-- The operations of cleanq/backends/ipc/ipc_queue.c against a bounded queue of descriptors.
use cleanq_linux.Base.{
  ℕ, zero, suc, ◌+◌, ◌-◌, ◌^◌, ◌<◌, ◌≡◌, refl, sym, ◌∙◌, ap, ap₂, true, false, inl, inr, List, [],
  ◌∷◌, arith, ltb, ◌==◌, if◌then◌else◌, Bool-cases, done, Returns, Option, none, some, ◌>>=◌, ◌⊎◌,
}
use mathlib.Core.Path.{subst}
use cleanq_linux.Types.{Errval, ok, queue_empty, Buf}
use cleanq_linux.Fifo
use cleanq_linux.RegionPool.{Memory}
use cleanq_linux.Cleanq.{Callbacks}
use cleanq_linux.Ipcq.{
  Ipcq, IpcqQ, Desc, numbered, enqueue_own, handle_command, ipcq_dequeue, acknowledge,
  ipcq_can_recv, read_desc, ipcq_get_rx_desc_tail,
}
use cleanq_linux.Ipcq.Ring.{
  ring_slots, desc, Linked, in_flight, sees, capacity, enqueue-push, enqueue-full, push-Linked,
  in_flight-push,
}
use cleanq_linux.Ipcq.Takes.{
  Takes, nothing, buffer, IsAcknowledged, Takes-command, Takes-IsAcknowledged,
}
use cleanq_linux.Ipcq.Receive.{
  popped, told, can_recv_lem, acknowledge_lem, pop-Linked, in_flight-pop, tail_lem,
}

module _ {tx rx : Ipcq} (l : Linked tx rx) where
  -- Between linked sides, while the next sequence number fits into 64 bits, a send ends with the
  -- error of the bounded queue whose capacity is the 63 slots less the receives that are not
  -- acknowledged yet. It leaves in flight what that queue holds, no descriptor in flight
  -- overwritten, and the sides linked.
  pub enqueue_own_refines :
      (b : Buf) (cmd : ℕ)
      → tx.tx_seq + 1 < 2 ^ 64
      → let (err, tx') = enqueue_own tx b cmd in
        Linked tx' (sees rx tx')
        × ((err, in_flight tx' (sees rx tx'))
            ≡ Fifo.push (capacity tx rx) (in_flight tx rx) (numbered tx.tx_seq b cmd))
  unfolding Fifo.push
  enqueue_own_refines b cmd room =
      let d = numbered tx.tx_seq b cmd in
      let count =
        Fifo.length-window (desc tx.shared tx.tx_descs) rx.rx_seq (tx.tx_seq - rx.rx_seq) in
      elim (Bool-cases (ltb (tx.tx_seq - tx.shared tx.tx_seq_ack) ring_slots)) [
        | inl can ↦
            let small : tx.tx_seq - tx.shared tx.tx_seq_ack < ring_slots = ground arith in
            let free : tx.tx_seq - rx.rx_seq == capacity tx rx ≡ false =
              ground (arith, l.behind, l.acked) in
            rw (enqueue-push l b cmd room can)
              (push-Linked l d refl room small, rw (count, free, in_flight-push l d small))
        | inr can ↦
            let full : tx.tx_seq - rx.rx_seq == capacity tx rx ≡ true =
              ground (arith, l.behind, l.acked, l.bounded) in
            let seen : sees rx tx ≡ rx = ap (λ m. record rx { shared = m }) l.memory in
            rw (enqueue-full l b cmd can) (subst (Linked tx) (sym seen) l, rw (count, full))
      ]

-- What a dequeue delivers of the descriptors in flight: the first that is no command, and those
-- behind it.
pub next_data : List Desc → Option Desc × List Desc
next_data [] = (none, [])
next_data (d ∷ ds) = let rest = next_data ds in if d.cmd == 0 then (some d, ds) else rest

abbrev pub found : Option Desc → Errval
found none = queue_empty
found (some d) = ok

abbrev pub buf_of : Option Desc → Option Buf
buf_of none = none
buf_of (some d) = some d.buf

-- The outcome of a dequeue by the side of `q`, when it was to deliver `d` and leave `ds`.
pub record Dequeues (tx : Ipcq) (out : Buf) (next : Option Desc × List Desc)
    (r : Errval × Buf × IpcqQ) : Type 0 where
  pub linked : Linked (told tx r.2.own) r.2.own
  pub err : r.0 ≡ found next.0
  pub result : r.1 ≡ Fifo.delivered out (buf_of next.0)
  pub rest : in_flight (told tx r.2.own) r.2.own ≡ next.1

abbrev pub tail_of : IpcqQ → Desc
tail_of q = read_desc q.own.shared (ipcq_get_rx_desc_tail q.own)

-- one round of `ipcq_dequeue`
module _ (callbacks : Callbacks Ipcq) (memory : ℕ → Memory) (round : ℕ) (q : IpcqQ)
    (out : Buf) where
  pub round_none :
      ipcq_can_recv q.own ≡ done false
      → ipcq_dequeue callbacks memory (suc round) q out ≡ done (queue_empty, out, q)
  unfolding ipcq_dequeue
  round_none can = rw can

  pub round_data :
      ipcq_can_recv q.own ≡ done true
      → (tail_of q).cmd == 0 ≡ true
      → ipcq_dequeue callbacks memory (suc round) q out
        ≡ done (ok, (tail_of q).buf, record q { own = acknowledge q.own })
  unfolding ipcq_dequeue
  round_data can plain = rw (can, ◌>>=◌, plain)

  round_command :
      (err : Errval) (q' : IpcqQ)
      → ipcq_can_recv q.own ≡ done true
      → (tail_of q).cmd == 0 ≡ false
      → handle_command callbacks memory round q (tail_of q) ≡ done (err, q')
      → ipcq_dequeue callbacks memory (suc round) q out
        ≡ ipcq_dequeue callbacks memory round (record q' { own = acknowledge q'.own }) out
  unfolding ipcq_dequeue
  round_command err q' can command handled = rw (can, ◌>>=◌, command, handled)

-- The application's callbacks enter by what a handler does: it ends, keeps `P`, and leaves the
-- backend's part of the queue alone.
module _ (callbacks : Callbacks Ipcq) (memory : ℕ → Memory) (P : IpcqQ → Type 0)
    (keeps : (q : IpcqQ) (own : Ipcq) → P q → P (record q { own = own }))
    (handles : (round : ℕ) (q : IpcqQ) (d : Desc)
      → P q
      → Returns (handle_command callbacks memory round q d) λ r. P r.1 × (r.1.own ≡ q.own)) where
  dequeue-Takes :
      (round : ℕ) (tx : Ipcq) (q : IpcqQ) (out : Buf)
      → Linked tx q.own
      → P q
      → tx.tx_seq - q.own.rx_seq < round
      → Returns (ipcq_dequeue callbacks memory round q out) λ r.
        let ds = in_flight tx q.own in
        P r.2
        × Dequeues tx out (next_data ds) r
        × Takes callbacks memory round q ds (next_data ds).0 r.2 (next_data ds).1
  unfolding next_data
  dequeue-Takes zero tx q out l p fuel = absurd (omega arith)
  dequeue-Takes (suc round) tx q out l p fuel = elim (Bool-cases (ltb q.own.rx_seq tx.tx_seq)) [
    | inr none_left ↦
        let even : tx.tx_seq - q.own.rx_seq ≡ 0 = ground arith in
        let empty : in_flight tx q.own ≡ [] =
          ap (Fifo.window (desc tx.shared tx.tx_descs) q.own.rx_seq) even in
        let same : tx ≡ told tx q.own = ap (λ m. record tx { shared = m }) l.memory in
        (
          (queue_empty, out, q),
          round_none callbacks memory round q out (can_recv_lem l ∙ ap done none_left),
          (
            p,
            rw empty record {
              linked = subst (λ t. Linked t q.own) same l;
              err = refl;
              result = refl;
              rest = subst (λ t. in_flight t q.own ≡ []) same empty;
            },
            rw empty (nothing round q),
          ),
        )
    | inl some_left ↦
        let lt : q.own.rx_seq < tx.tx_seq = ground arith in
        let can = can_recv_lem l ∙ ap done some_left in
        let d = desc tx.shared tx.tx_descs q.own.rx_seq in
        elim (Bool-cases (d.cmd == 0)) [
          | inl plain ↦ (
            (ok, d.buf, record q { own = popped q.own }),
            round_data callbacks memory round q out can (rw (tail_lem l) plain)
                ∙ ap₂ (λ x o. done (ok, x, record q { own = o })) (ap (λ x. x.buf) (tail_lem l))
                    (acknowledge_lem l lt),
            (
              keeps q (popped q.own) p,
              rw (in_flight-pop l lt, plain)
                  record { linked = pop-Linked l lt; err = refl; result = refl; rest = refl },
              rw (in_flight-pop l lt, plain) (buffer round q d _ (ground arith)),
            ),
          )
          | inr command ↦
              let ((err, q'), handled, (p', same)) = handles round q (tail_of q) p in
              let acked = ap acknowledge same ∙ acknowledge_lem l lt in
              let ds = in_flight (told tx (popped q.own)) (popped q.own) in
              let handled' =
                subst (λ x. handle_command callbacks memory round q x ≡ done (err, q')) (tail_lem l)
                  handled in
              let (r, run, (p'', result, takes)) =
                dequeue-Takes round (told tx (popped q.own)) (record q' { own = popped q.own }) out
                  (pop-Linked l lt) (keeps q' (popped q.own) p') (omega arith) in
              (
                r,
                round_command callbacks memory round q out err q' can (rw (tail_lem l) command)
                      handled
                    ∙ ap (λ o. ipcq_dequeue callbacks memory round (record q' { own = o }) out)
                        acked
                    ∙ run,
                (
                  p'',
                  rw (in_flight-pop l lt, command)
                      record {
                        linked = result.linked;
                        err = result.err;
                        result = result.result;
                        rest = result.rest;
                      },
                  rw (in_flight-pop l lt, command)
                      (Takes-command round q q' r.2 d _ _ _ err command handled' (
                        subst
                          (λ o.
                            Takes callbacks memory round (record q' { own = popped o }) ds
                              (next_data ds).0 r.2 (next_data ds).1)
                          (sym same) takes)),
                ),
              )
        ]
  ]

  -- Between linked sides `ipcq_dequeue` ends, with more rounds than descriptors in flight, if the
  -- handler of each command ends, keeps the predicate `P`, and leaves the backend's part of the
  -- queue alone. Each command before the first buffer is given to its handler, with the memory and
  -- the id that its descriptor carries; its receive is acknowledged, and so is that of the buffer.
  -- The call delivers the buffer, or says that the queue is empty and leaves the caller's
  -- variables alone. What stays in flight are the descriptors behind the buffer, the sides stay
  -- linked, and if anything was in flight, the acknowledgement that the sender reads then holds
  -- the receiver's sequence number; if not, the queue is as it was.
  pub ipcq_dequeue_refines :
      (round : ℕ) (tx : Ipcq) (q : IpcqQ) (out : Buf)
      → Linked tx q.own
      → P q
      → tx.tx_seq - q.own.rx_seq < round
      → Returns (ipcq_dequeue callbacks memory round q out) λ r.
        let ds = in_flight tx q.own in
        P r.2
        × Dequeues tx out (next_data ds) r
        × Takes callbacks memory round q ds (next_data ds).0 r.2 (next_data ds).1
        × (((ds ≡ []) × (r.2 ≡ q)) ⊎ IsAcknowledged r.2)
  ipcq_dequeue_refines round tx q out l p fuel =
      let (r, run, (p', result, takes)) = dequeue-Takes round tx q out l p fuel in
      (r, run, (p', result, takes, Takes-IsAcknowledged takes))
