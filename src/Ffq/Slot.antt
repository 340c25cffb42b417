-- ===== src/Ffq/Slot.antt =====
-- The slot of a channel of cleanq/backends/ff/ffq_impl.h against a buffer of one message.
use cleanq_linux.Base.{
  ℕ, ◌<◌, ◌≡◌, ◌≢◌, ap, true, false, not, inl, inr, ◌⊎◌, List, [], ◌∷◌, done, Bool, arith, ◌==◌,
  if◌then◌else◌, Bool-cases,
}
use native.Mathlib.Nat.{mod-eq_of_lt}
use cleanq_linux.Types.{ok, queue_full}
use cleanq_linux.Fifo
use cleanq_linux.Shared.{Mem, store}
use cleanq_linux.Ffq.Channel.{
  Chan, Direction, is_send, send, recv, Message, slot_empty, word, bump, write_message,
  read_message, ffq_impl_get_slot, ffq_impl_can_send, ffq_impl_send, ffq_impl_can_recv,
  ffq_impl_recv,
}

-- the messages that stand in the slot of a channel: at most one
abbrev pub pending : Chan → Mem → List Message
pending q m =
    let s = ffq_impl_get_slot q in if m (word s 0) == slot_empty then [] else read_message m s ∷ []

pub record IsEnd (d : Direction) (q : Chan) : Type 0 where
  pub facing : q.direction ≡ d
  pub pos_in : q.pos < q.size

-- The position stays where it is.
bump_lem : (q : Chan) → q.pos < q.size → bump q ≡ done q
unfolding bump
bump_lem q h = ground (arith, mod-eq_of_lt h)

read-write : (m : Mem) (s : ℕ) (a : Message) → read_message (write_message m s a) s ≡ a
unfolding read_message write_message
read-write m s a = ground arith

write-head : (m : Mem) (s : ℕ) (a : Message) → write_message m s a (word s 0) ≡ a.arg1
unfolding write_message
write-head m s a = ground arith

-- `ffq_impl_send` at a sending end ends for a message whose first word is not the empty mark: it
-- sends exactly if the slot is empty, the message then is what is pending, and the end stays.
pub ffq_impl_send_refines :
    (q : Chan) (a : Message) (m : Mem)
    → IsEnd send q
    → a.arg1 ≢ slot_empty
    → (sent : Bool) × (m' : Mem) × (ffq_impl_send q a m ≡ done (sent, q, m'))
      × ((if sent then ok else queue_full, pending q m') ≡ Fifo.push 1 (pending q m) a)
unfolding ffq_impl_send ffq_impl_can_send Fifo.push
ffq_impl_send_refines q a m e ne =
    let facing = ap is_send e.facing in
    let s = ffq_impl_get_slot q in
    elim (Bool-cases (m (word s 0) == slot_empty)) [
      | inl h ↦
          let fits : not (a.arg1 == slot_empty) ≡ true = ground arith in
          let full : write_message m s a (word s 0) == slot_empty ≡ false =
            rw write-head (ground arith) in
          (
            true,
            write_message m s a,
            rw (facing, h, fits, bump_lem q e.pos_in),
            rw (h, full, read-write),
          )
      | inr h ↦ (false, m, rw (facing, h), rw h)
    ]

-- There is at most one message.
pub pending-cases :
    (q : Chan) (m : Mem) → (pending q m ≡ []) ⊎ ((a : Message) × (pending q m ≡ a ∷ []))
pending-cases q m =
    let s = ffq_impl_get_slot q in
    elim (Bool-cases (m (word s 0) == slot_empty)) [
      | inl h ↦ inl (rw h)
      | inr h ↦ inr (read_message m s, rw h)
    ]

pub recv_none :
    (q : Chan) (out : Message) (m : Mem)
    → IsEnd recv q
    → pending q m ≡ []
    → ffq_impl_recv q out m ≡ done (false, out, q, m)
unfolding ffq_impl_recv ffq_impl_can_recv
recv_none q out m e none_left =
    let facing = ap is_send e.facing in
    elim (Bool-cases (m (word (ffq_impl_get_slot q) 0) == slot_empty)) [
      | inl h ↦ rw (facing, h)
      | inr h ↦ cc (rw h at none_left)
    ]

-- the memory after a receive
abbrev pub emptied : Chan → Mem → Mem
emptied q m = store m (word (ffq_impl_get_slot q) 0) slot_empty

pub pending-emptied : (q : Chan) (m : Mem) → pending q (emptied q m) ≡ []
pending-emptied q m = ground arith

pub recv_one :
    (q : Chan) (out a : Message) (m : Mem)
    → IsEnd recv q
    → pending q m ≡ a ∷ []
    → ffq_impl_recv q out m ≡ done (true, a, q, emptied q m)
unfolding ffq_impl_recv ffq_impl_can_recv
recv_one q out a m e one =
    let facing = ap is_send e.facing in
    elim (Bool-cases (m (word (ffq_impl_get_slot q) 0) == slot_empty)) [
      | inl h ↦ cc (rw h at one)
      | inr h ↦
          let same : read_message m (ffq_impl_get_slot q) ≡ a = cc (rw h at one) in
          rw (facing, h, bump_lem q e.pos_in, same)
    ]
