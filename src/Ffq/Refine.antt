-- ===== src/Ffq/Refine.antt =====
-- The backend of cleanq/backends/ff/ff_queue.c over the one slot that its two ends share.
use cleanq_linux.Base.{
  ℕ, suc, ◌^◌, ◌<◌, ◌≡◌, refl, sym, ◌∙◌, ◌≢◌, ap, true, false, inl, inr, List, [], ◌∷◌, map, done,
  ◌>>=◌, Returns, arith, ◌==◌, if◌then◌else◌, Bool-cases, length, length-map,
}
use mathlib.Core.List.{map-append}
use native.Mathlib.Nat.{mod-eq_of_lt}
use cleanq_linux.Types.{Errval, ok, queue_empty, queue_full, Buf}
use cleanq_linux.Fifo
use cleanq_linux.RegionPool.{Memory}
use cleanq_linux.Cleanq.{Callbacks}
use cleanq_linux.Shared.{Mem}
use cleanq_linux.Ffq.Channel.{Chan, Message, send, recv, slot_empty}
use cleanq_linux.Ffq.Slot.{
  pending, IsEnd, ffq_impl_send_refines, recv_none, recv_one, emptied, pending-emptied,
  pending-cases,
}
use cleanq_linux.Ffq.{Ffq, FfqQ, to_message, from_message, ff_enqueue, ff_dequeue, handle_command}

-- the buffers on their way through a channel
abbrev pub transit : Chan → Mem → List Buf
transit q m = map from_message (pending q m)

-- what the queue's last send left for the other side, and what the other side left for it
abbrev pub outgoing : FfqQ → List Buf
outgoing q = transit q.own.txq q.own.shared

abbrev pub incoming : FfqQ → List Buf
incoming q = transit q.own.rxq q.own.shared

from_message-to_message : (b : Buf) → b.rid < 2 ^ 32 → from_message (to_message b) ≡ b
from_message-to_message b h = ap (λ r. record b { rid = r }) (mod-eq_of_lt h)

push-map {ℓ κ} :
    {A : Type ℓ} {B : Type κ} (f : A → B) (n : ℕ) (q : List A) (x : A)
    → (Fifo.push n (map f q) (f x) ≡ (let (e, q') = Fifo.push n q x in (e, map f q')))
unfolding Fifo.push
push-map f n q x = elim (Bool-cases (length q == n)) [
  | inl e ↦ rw (length-map, e)
  | inr e ↦ rw (length-map, e, map-append)
]

-- `ff_enqueue` at a sending end ends for a buffer whose region id has 32 bits. It returns the error
-- of the bounded queue of one buffer, leaves the channel holding what that queue holds, and
-- changes only the memory.
pub ff_enqueue_refines :
    (q : FfqQ) (b : Buf)
    → IsEnd send q.own.txq
    → b.rid < 2 ^ 32
    → Returns (ff_enqueue q b) λ r.
      (r.1 ≡ record q { own = record (q.own) { shared = r.1.own.shared } })
      × ((r.0, outgoing r.1) ≡ Fifo.push 1 (outgoing q) b)
unfolding ff_enqueue
ff_enqueue_refines q b e h =
    let fits : b.rid ≢ slot_empty = omega arith in
    let (sent, m, run, fifo) = ffq_impl_send_refines q.own.txq (to_message b) q.own.shared e fits in
    (
      (if sent then ok else queue_full, record q { own = record (q.own) { shared = m } }),
      rw run,
      (
        refl,
        ap (λ r. (r.0, map from_message r.1)) fifo
            ∙ sym (push-map from_message 1 (pending q.own.txq q.own.shared) (to_message b))
            ∙ ap (Fifo.push 1 (outgoing q)) (from_message-to_message b h),
      ),
    )

-- the queue after it has received what was pending
abbrev pub received : FfqQ → FfqQ
received q = record q { own = record (q.own) { shared = emptied q.own.rxq q.own.shared } }

module _ (callbacks : Callbacks Ffq) (memory : ℕ → Memory) where
  dequeue_none :
      (round : ℕ) (q : FfqQ) (out : Buf)
      → IsEnd recv q.own.rxq
      → pending q.own.rxq q.own.shared ≡ []
      → ff_dequeue callbacks memory (suc round) q out ≡ done (queue_empty, out, q)
  unfolding ff_dequeue
  dequeue_none round q out e h = rw (recv_none q.own.rxq (to_message out) q.own.shared e h)

  dequeue_data :
      (round : ℕ) (q : FfqQ) (out : Buf) (a : Message)
      → IsEnd recv q.own.rxq
      → pending q.own.rxq q.own.shared ≡ a ∷ []
      → a.arg6 ≡ 0
      → ff_dequeue callbacks memory (suc round) q out ≡ done (ok, from_message a, received q)
  unfolding ff_dequeue
  dequeue_data round q out a e h plain =
      let no_flags : a.arg6 == 0 ≡ true = ground arith in
      rw (recv_one q.own.rxq (to_message out) a q.own.shared e h, ◌>>=◌, no_flags)

  -- `ff_dequeue` at a receiving end ends within one round if no command is on its way. It returns
  -- the error of the first-in, first-out queue of the channel's contents, delivers the buffer or
  -- leaves the caller's variables alone, leaves the rest in the channel, and changes only the memory.
  pub ff_dequeue_refines :
      (round : ℕ) (q : FfqQ) (out : Buf)
      → IsEnd recv q.own.rxq
      → ((b : Buf) → incoming q ≡ b ∷ [] → b.flags ≡ 0)
      → Returns (ff_dequeue callbacks memory (suc round) q out) λ r.
        (r.2 ≡ record q { own = record (q.own) { shared = r.2.own.shared } })
        × (let (err, b, rest) = Fifo.pop (incoming q) in
            (r.0 ≡ err) × (r.1 ≡ Fifo.delivered out b) × (incoming r.2 ≡ rest))
  unfolding Fifo.pop
  ff_dequeue_refines round q out e plain = elim (pending-cases q.own.rxq q.own.shared) [
    | inl h ↦ ((queue_empty, out, q), dequeue_none round q out e h, (refl, rw h (refl, refl, refl)))
    | inr (a, h) ↦ (
      (ok, from_message a, received q),
      dequeue_data round q out a e h (plain (from_message a) (rw h)),
      (refl, rw h (refl, refl, ap (map from_message) (pending-emptied q.own.rxq q.own.shared))),
    )
  ]

  dequeue_flagged :
      (round : ℕ) (q q' : FfqQ) (out : Buf) (a : Message) (err : Errval)
      → IsEnd recv q.own.rxq
      → pending q.own.rxq q.own.shared ≡ a ∷ []
      → a.arg6 ≢ 0
      → handle_command callbacks memory round (received q) (from_message a) ≡ done (err, q')
      → ff_dequeue callbacks memory (suc round) q out
        ≡ ff_dequeue callbacks memory round q' (from_message a)
  unfolding ff_dequeue
  dequeue_flagged round q q' out a err e h command handled =
      let flagged : a.arg6 == 0 ≡ false = ground arith in
      rw (recv_one q.own.rxq (to_message out) a q.own.shared e h, ◌>>=◌, flagged, handled)

  -- A command that is on its way takes one more round: `ff_dequeue` runs its handler, drops the
  -- handler's error, and finds the channel empty, if the handler leaves the backend's part alone.
  -- It returns the error of the empty queue and leaves the command in the caller's variables.
  pub ff_dequeue_command :
      (round : ℕ) (q q' : FfqQ) (out b : Buf) (err : Errval)
      → IsEnd recv q.own.rxq
      → incoming q ≡ b ∷ []
      → b.flags ≢ 0
      → handle_command callbacks memory (suc round) (received q) b ≡ done (err, q')
      → q'.own ≡ (received q).own
      → ff_dequeue callbacks memory (suc (suc round)) q out ≡ done (queue_empty, b, q')
  ff_dequeue_command round q q' out b err e one command handled same =
      elim (pending-cases q.own.rxq q.own.shared) [
        | inl h ↦ cc (rw h at one)
        | inr (a, h) ↦
            let is_b : from_message a ≡ b = cc (rw h at one) in
            let still : IsEnd recv q'.own.rxq = rw same e in
            let nothing : pending q'.own.rxq q'.own.shared ≡ [] =
              ap (λ o. pending o.rxq o.shared) same ∙ pending-emptied q.own.rxq q.own.shared in
            dequeue_flagged (suc round) q q' out a err e h
              (λ z. command (ap (λ x. x.flags) (sym is_b) ∙ z)) (rw is_b handled)
            ∙ dequeue_none round q' (from_message a) still nothing
            ∙ ap (λ x. done (queue_empty, x, q')) is_b
      ]
