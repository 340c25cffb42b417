-- ===== src/Ipcq/Drain.antt =====
-- Any order of sends and receives on one direction of cleanq/backends/ipc/ipc_queue.c.
use cleanq_linux.Base.{
  ℕ, zero, suc, ◌+◌, ◌-◌, ◌^◌, ◌<◌, ◌≤◌, ◌≡◌, refl, sym, ◌∙◌, ap, List, [], ◌∷◌, ◌++◌, map, length,
  arith, Returns, replicate,
}
use mathlib.Core.List.{append-nil}
use cleanq_linux.Types.{Buf}
use cleanq_linux.Fifo
use cleanq_linux.RegionPool.{Memory}
use cleanq_linux.Cleanq.{Callbacks}
use cleanq_linux.Ipcq.{Ipcq}
use cleanq_linux.Ipcq.Ring.{ring_slots, desc, in_flight}
use cleanq_linux.Ipcq.History.{
  Event, send, receive, History, play, IsInOrder, send-IsInOrder, receive-IsInOrder, waiting,
}

module _ (callbacks : Callbacks Ipcq) (memory : ℕ → Memory) (out : Buf) where
  pub play-IsInOrder :
      (h : History) (es : List Event)
      → IsInOrder h
      → h.sender.own.tx_seq + length es < 2 ^ 64
      → Returns (play callbacks memory out h es) IsInOrder
  unfolding play
  play-IsInOrder h [] o room = (h, refl, o)
  play-IsInOrder h (send b ∷ es) o room =
      let (h', run, (o', seq)) = send-IsInOrder callbacks memory out h b o (omega (arith, room)) in
      let (end, runs, o'') = play-IsInOrder h' es o' (omega (arith, room, seq)) in
      (end, rw (run, runs) refl, o'')
  play-IsInOrder h (receive ∷ es) o room =
      let (h', run, (o', seq, fewer, same)) = receive-IsInOrder callbacks memory out h o in
      let (end, runs, o'') = play-IsInOrder h' es o' (omega (arith, room, seq)) in
      (end, rw (run, runs) refl, o'')

  drain :
      (h : History) (n : ℕ)
      → IsInOrder h
      → waiting h ≤ n
      → Returns
          (play callbacks memory out h (replicate n receive))
          (λ h'. (h'.accepted ≡ h.accepted) × (h'.delivered ≡ h.accepted))
  unfolding play
  drain h zero o few =
      let even : h.sender.own.tx_seq - h.receiver.own.rx_seq ≡ 0 = omega arith in
      let all : h.accepted ≡ h.delivered ++ [] =
        o.order
        ∙ ap
            (λ n.
              h.delivered
              ++ map (λ d. d.buf)
                  (Fifo.window (desc h.sender.own.shared h.sender.own.tx_descs)
                    h.receiver.own.rx_seq n))
            even in
      (h, refl, (refl, sym (all ∙ append-nil h.delivered)))
  drain h (suc n) o few =
      let (h', run, (o', seq, fewer, same)) = receive-IsInOrder callbacks memory out h o in
      let (end, runs, (kept, all)) = drain h' n o' (omega (arith, few, fewer)) in
      (end, rw (run, runs) refl, (kept ∙ same, all ∙ same))

  -- Two sides are linked, what is in flight holds no command, and what was accepted is what was
  -- delivered and then what is in flight. Then any interleaving of `ipcq_enqueue` on the one and
  -- `ipcq_dequeue` on the other ends, if the sequence number stays below 2 ^ 64, and what was
  -- accepted is again what was delivered and then what is in flight, in the order in which it was
  -- accepted. After 63 further dequeues everything that was accepted has been delivered.
  pub play-drained :
      (h : History) (es : List Event)
      → IsInOrder h
      → h.sender.own.tx_seq + length es < 2 ^ 64
      → Returns (play callbacks memory out h es) (λ h'.
        (h'.accepted ≡ h'.delivered ++ map (λ d. d.buf) (in_flight h'.sender.own h'.receiver.own))
        × Returns
            (play callbacks memory out h' (replicate ring_slots receive))
            (λ end. (end.accepted ≡ h'.accepted) × (end.delivered ≡ h'.accepted)))
  play-drained h es o room =
      let (h', run, o') = play-IsInOrder h es o room in
      (
        h',
        run,
        (o'.order, drain h' ring_slots o' (omega (arith, o'.linked.bounded, o'.linked.acked))),
      )
