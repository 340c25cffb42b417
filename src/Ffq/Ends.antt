-- ===== src/Ffq/Ends.antt =====
-- Two joined sides of cleanq/backends/ff/ff_queue.c, and a buffer's way from one to the other.
use cleanq_linux.Base.{
  ℕ, suc, ◌^◌, ◌<◌, ◌≡◌, refl, sym, ◌∙◌, ap, ap₂, List, [], ◌∷◌, done, if◌then◌else◌, ◌==◌, map,
}
use cleanq_linux.Types.{ok, queue_full, Buf}
use cleanq_linux.Fifo
use cleanq_linux.RegionPool.{Memory}
use cleanq_linux.Cleanq.{Callbacks}
use cleanq_linux.Shared.{Mem}
use cleanq_linux.Ffq.{Ffq, FfqQ, ff_enqueue, ff_dequeue, from_message}
use cleanq_linux.Ffq.Channel.{send, recv, ffq_impl_get_slot, slot_empty, word, read_message}
use cleanq_linux.Ffq.Slot.{IsEnd}
use cleanq_linux.Ffq.Refine.{outgoing, incoming, ff_enqueue_refines, ff_dequeue_refines}

-- one direction: the sending end and the receiving end of one slot, with one memory
pub record Joined (tx rx : FfqQ) : Type 0 where
  pub sender : IsEnd send tx.own.txq
  pub receiver : IsEnd recv rx.own.rxq
  pub slot : ffq_impl_get_slot tx.own.txq ≡ ffq_impl_get_slot rx.own.rxq
  pub memory : tx.own.shared ≡ rx.own.shared

-- What goes out on one side comes in on the other.
pub Joined-transit : (tx rx : FfqQ) → Joined tx rx → outgoing tx ≡ incoming rx
Joined-transit tx rx j =
    ap (in_slot tx.own.shared) j.slot ∙ ap (λ m. in_slot m (ffq_impl_get_slot rx.own.rxq)) j.memory
  where
    in_slot : Mem → ℕ → List Buf
    in_slot m s =
        map from_message (if m (word s 0) == slot_empty then [] else read_message m s ∷ [])

-- the other side, once it sees what this side has written
abbrev pub seen_by : FfqQ → FfqQ → FfqQ
seen_by q other = record q { own = record (q.own) { shared = other.own.shared } }

pub seen_by-Joined :
    (tx tx' rx : FfqQ)
    → Joined tx rx
    → tx' ≡ record tx { own = record (tx.own) { shared = tx'.own.shared } }
    → Joined tx' (seen_by rx tx')
seen_by-Joined tx tx' rx j frame =
    let same : tx'.own.txq ≡ tx.own.txq = ap (λ q. q.own.txq) frame in
    record {
      sender = rw same j.sender;
      receiver = j.receiver;
      slot = ap ffq_impl_get_slot same ∙ j.slot;
      memory = refl;
    }

pub push_empty : (b : Buf) → Fifo.push 1 [] b ≡ (ok, b ∷ [])
unfolding Fifo.push
push_empty b = refl

push_full : (b c : Buf) → Fifo.push 1 (b ∷ []) c ≡ (queue_full, b ∷ [])
unfolding Fifo.push
push_full b c = refl

-- The one buffer on its way is received.
dequeue_one :
    (callbacks : Callbacks Ffq) (memory : ℕ → Memory) (round : ℕ) (q : FfqQ) (out b : Buf)
    → IsEnd recv q.own.rxq
    → b.flags ≡ 0
    → incoming q ≡ b ∷ []
    → (q' : FfqQ) × (ff_dequeue callbacks memory (suc round) q out ≡ done (ok, b, q'))
      × (incoming q' ≡ [])
unfolding Fifo.pop
dequeue_one callbacks memory round q out b e plain one =
    let only : (c : Buf) → incoming q ≡ c ∷ [] → c.flags ≡ 0 = λ c h. cc (one, h, plain) in
    let ((err, b', q'), run, (frame, got)) =
      ff_dequeue_refines callbacks memory round q out e only in
    let err_ok : err ≡ ok = got.0 ∙ ap (λ l. (Fifo.pop l).0) one in
    let same : b' ≡ b = got.1 ∙ ap (λ l. Fifo.delivered out (Fifo.pop l).1) one in
    let rest : incoming q' ≡ [] = got.2 ∙ ap (λ l. (Fifo.pop l).2) one in
    (q', run ∙ ap₂ (λ x y. done (x, y, q')) err_ok same, rest)

module _ (callbacks : Callbacks Ffq) (memory : ℕ → Memory) (round : ℕ) (tx rx : FfqQ)
    (out b c : Buf) (j : Joined tx rx) (width : b.rid < 2 ^ 32) (width' : c.rid < 2 ^ 32)
    (plain : b.flags ≡ 0) (nothing : outgoing tx ≡ []) where
  -- Between joined sides over an empty channel, a buffer without flags under a 32-bit region id is
  -- sent with no error. A second send, of any buffer with a 32-bit region id, then ends with the
  -- error of the full queue. After both sends the other side receives the first buffer, and the
  -- channel is empty again.
  pub ff_enqueue-dequeue :
      (tx' tx'' rx' : FfqQ) × (ff_enqueue tx b ≡ done (ok, tx'))
      × (ff_enqueue tx' c ≡ done (queue_full, tx''))
      × (ff_dequeue callbacks memory (suc round) (seen_by rx tx'') out ≡ done (ok, b, rx'))
      × (incoming rx' ≡ [])
  ff_enqueue-dequeue =
      let ((err, tx'), run, (frame, fifo)) = ff_enqueue_refines tx b j.sender width in
      let sent = fifo ∙ ap (λ l. Fifo.push 1 l b) nothing ∙ push_empty b in
      let j' = seen_by-Joined tx tx' rx j frame in
      let ((err', tx''), again, (kept, full)) = ff_enqueue_refines tx' c j'.sender width' in
      let one = full ∙ ap (λ l. Fifo.push 1 l c) (ap (λ r. r.1) sent) ∙ push_full b c in
      let j'' = seen_by-Joined tx' tx'' (seen_by rx tx') j' kept in
      let there : incoming (seen_by rx tx'') ≡ b ∷ [] =
        sym (Joined-transit tx'' (seen_by rx tx'') j'') ∙ ap (λ r. r.1) one in
      let (rx', run', rest) =
        dequeue_one callbacks memory round (seen_by rx tx'') out b j''.receiver plain there in
      (
        tx',
        tx'',
        rx',
        run ∙ ap (λ e. done (e, tx')) (ap (λ r. r.0) sent),
        again ∙ ap (λ e. done (e, tx'')) (ap (λ r. r.0) one),
        run',
        rest,
      )
