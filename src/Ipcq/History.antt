-- ===== src/Ipcq/History.antt =====
-- Sends and receives of the two sides of one direction of cleanq/backends/ipc/ipc_queue.c, in any
-- order.
use cleanq_linux.Base.{
  ℕ, ◌+◌, ◌-◌, ◌^◌, ◌<◌, ◌≤◌, ◌≡◌, refl, sym, ◌∙◌, ap, true, inl, inr, List, [], ◌∷◌, ◌++◌, map,
  arith, ltb, ◌==◌, if◌then◌else◌, Bool-cases, Run, done, Returns, ◌>>=◌,
}
use mathlib.Core.Path.{subst}
use mathlib.Core.List.{append_assoc}
use cleanq_linux.Types.{Buf, err_is_ok}
use cleanq_linux.RegionPool.{Memory}
use cleanq_linux.Cleanq.{Callbacks}
use cleanq_linux.Ipcq.{
  Ipcq, IpcqQ, Desc, numbered, ipcq_enqueue, ipcq_enqueue_internal, ipcq_dequeue,
}
use cleanq_linux.Ipcq.Ring.{
  ring_slots, desc, Linked, in_flight, sees, enqueue-push, enqueue-full, push-Linked,
  in_flight-push,
}
use cleanq_linux.Ipcq.Receive.{
  popped, told, can_recv_lem, acknowledge_lem, pop-Linked, in_flight-pop, tail_lem,
}
use cleanq_linux.Ipcq.Refine.{round_none, round_data, tail_of}

-- `send` calls `ipcq_enqueue` on one side, `receive` calls `ipcq_dequeue` on the other.
pub data Event : Type 0 where
  send : Buf → Event
  receive : Event

-- The two sides, the buffers whose send ended with no error, and those that were delivered.
pub record History : Type 0 where
  pub sender : IpcqQ
  pub receiver : IpcqQ
  pub accepted : List Buf
  pub delivered : List Buf

module _ (callbacks : Callbacks Ipcq) (memory : ℕ → Memory) (out : Buf) where
  -- One round of `ipcq_dequeue` is enough while no command is in flight.
  unfoldable pub event : History → Event → Run History
  event h (send b) = do
    (err, q) ← ipcq_enqueue h.sender b
    done (record h {
      sender = q;
      receiver = record h.receiver { own = sees h.receiver.own q.own };
      accepted = if err_is_ok err then h.accepted ++ b ∷ [] else h.accepted;
    })
  event h receive = do
    (err, b, q) ← ipcq_dequeue callbacks memory 1 h.receiver out
    done (record h {
      receiver = q;
      sender = record h.sender { own = told h.sender.own q.own };
      delivered = if err_is_ok err then h.delivered ++ b ∷ [] else h.delivered;
    })

  unfoldable pub play : History → List Event → Run History
  play h [] = done h
  play h (e ∷ es) = event h e >>= λ h'. play h' es

-- No command is in flight.
unfoldable pub IsPlain : List Desc → Type 0
IsPlain [] = Unit
IsPlain (d ∷ ds) = (d.cmd ≡ 0) × IsPlain ds

-- What was accepted is what was delivered and then what is in flight.
pub record IsInOrder (h : History) : Type 0 where
  pub linked : Linked h.sender.own h.receiver.own
  pub plain : IsPlain (in_flight h.sender.own h.receiver.own)
  pub order : h.accepted ≡ h.delivered ++ map (λ d. d.buf) (in_flight h.sender.own h.receiver.own)

-- how many descriptors are in flight
abbrev pub waiting : History → ℕ
waiting h = h.sender.own.tx_seq - h.receiver.own.rx_seq

snoc-IsPlain : (ds : List Desc) (d : Desc) → IsPlain ds → d.cmd ≡ 0 → IsPlain (ds ++ d ∷ [])
unfolding IsPlain
snoc-IsPlain [] d all p = (p, tt)
snoc-IsPlain (x ∷ ds) d (x_plain, all) p = (x_plain, snoc-IsPlain ds d all p)

map-snoc :
    (ds : List Desc) (d : Desc)
    → map (λ d. d.buf) (ds ++ d ∷ []) ≡ map (λ d. d.buf) ds ++ d.buf ∷ []
map-snoc [] d = refl
map-snoc (x ∷ ds) d = ap (λ t. x.buf ∷ t) (map-snoc ds d)

module _ (callbacks : Callbacks Ipcq) (memory : ℕ → Memory) (out : Buf) where
  pub send-IsInOrder :
      (h : History) (b : Buf)
      → IsInOrder h
      → h.sender.own.tx_seq + 1 < 2 ^ 64
      → Returns
          (event callbacks memory out h (send b))
          (λ h'. IsInOrder h' × (h'.sender.own.tx_seq ≤ h.sender.own.tx_seq + 1))
  unfolding event ipcq_enqueue ipcq_enqueue_internal
  send-IsInOrder h b o room =
      let tx = h.sender.own in
      let d = numbered tx.tx_seq b 0 in
      elim (Bool-cases (ltb (tx.tx_seq - tx.shared tx.tx_seq_ack) ring_slots)) [
        | inl can ↦
            let small : tx.tx_seq - tx.shared tx.tx_seq_ack < ring_slots = ground arith in
            rw (enqueue-push o.linked b 0 room can) (
              _,
              refl,
              (
                record {
                  linked = push-Linked o.linked d refl room small;
                  plain = rw (in_flight-push o.linked d small) (snoc-IsPlain _ d o.plain refl);
                  order = rw (in_flight-push o.linked d small) (
                      rw (o.order, map-snoc (in_flight tx h.receiver.own) d)
                        (append_assoc h.delivered _ (b ∷ [])));
                },
                omega arith,
              ),
            )
        | inr can ↦ rw (enqueue-full o.linked b 0 can) (
          _,
          refl,
          (
            subst
                (λ m. IsInOrder (record h {
                  receiver = record h.receiver { own = record h.receiver.own { shared = m } };
                }))
                (sym o.linked.memory) o,
            omega arith,
          ),
        )
      ]

  pub receive-IsInOrder :
      (h : History)
      → IsInOrder h
      → Returns (event callbacks memory out h receive) (λ h'.
        IsInOrder h'
        × (h'.sender.own.tx_seq ≡ h.sender.own.tx_seq)
        × (waiting h' ≡ waiting h - 1)
        × (h'.accepted ≡ h.accepted))
  unfolding event IsPlain
  receive-IsInOrder h o =
      let tx = h.sender.own in
      let q = h.receiver in
      elim (Bool-cases (ltb q.own.rx_seq tx.tx_seq)) [
        | inr none_left ↦
            rw (round_none callbacks memory 0 q out (can_recv_lem o.linked ∙ ap done none_left)) (
              _,
              refl,
              (
                subst
                    (λ m. IsInOrder (record h {
                      sender = record h.sender { own = record h.sender.own { shared = m } };
                    }))
                    o.linked.memory o,
                refl,
                ground arith,
                refl,
              ),
            )
        | inl some_left ↦
            let lt : q.own.rx_seq < tx.tx_seq = ground arith in
            let can = can_recv_lem o.linked ∙ ap done some_left in
            let d = desc tx.shared tx.tx_descs q.own.rx_seq in
            let (plain, rest_plain) : IsPlain
                (d ∷ in_flight (told tx (popped q.own)) (popped q.own)) =
              subst IsPlain (in_flight-pop o.linked lt) o.plain in
            let first : (tail_of q).cmd == 0 ≡ true = rw (tail_lem o.linked, plain) refl in
            rw (round_data callbacks memory 0 q out can first, acknowledge_lem o.linked lt)
              (
                _,
                refl,
                (
                  record {
                    linked = pop-Linked o.linked lt;
                    plain = rest_plain;
                    order =
                        rw (tail_lem o.linked, append_assoc h.delivered (d.buf ∷ []))
                          (o.order
                            ∙ ap (λ ds. h.delivered ++ map (λ d. d.buf) ds)
                                (in_flight-pop o.linked lt));
                  },
                  refl,
                  omega arith,
                  refl,
                ),
              )
      ]
