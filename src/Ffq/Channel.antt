-- ===== src/Ffq/Channel.antt =====
-- cleanq/backends/ff/ffq_impl.h, the one-directional channel.
use cleanq_linux.Base.{
  ℕ, zero, suc, ◌+◌, ◌-◌, ◌*◌, ◌%◌, ◌^◌, bit_and, Bool, true, false, not, Run, done, crash, ◌>>=◌,
  ◌>>◌, assert, ◌==◌, if◌then◌else◌,
}
use cleanq_linux.Shared.{Mem, store}

abbrev pub cacheline_size : ℕ
cacheline_size = 64

-- `FFQ_SLOT_EMPTY`, -1 as a 64-bit word
abbrev pub slot_empty : ℕ
slot_empty = 2 ^ 64 - 1

abbrev pub msg_bytes : ℕ
msg_bytes = cacheline_size

-- `ffq_direction_t`
pub data Direction : Type 0 where
  send recv : Direction

abbrev pub is_send : Direction → Bool
is_send send = true
is_send recv = false

-- `struct ffq_chan`; `slots` is the address of the first slot
pub record Chan : Type 0 where
  pub slots : ℕ
  pub size : ℕ
  pub pos : ℕ
  pub direction : Direction

-- the six words of a message
pub record Message : Type 0 where
  pub arg1 : ℕ
  pub arg2 : ℕ
  pub arg3 : ℕ
  pub arg4 : ℕ
  pub arg5 : ℕ
  pub arg6 : ℕ

-- the address of `data[i]` of a slot
abbrev pub word : ℕ → ℕ → ℕ
word slot i = slot + 8 * i

-- the initialisation loop, `n` slots from the one at address `slot` on
unfoldable pub empty_slots : ℕ → ℕ → Mem → Mem
empty_slots zero slot m = m
empty_slots (suc n) slot m = empty_slots n (slot + msg_bytes) (store m (word slot 0) slot_empty)

abbrev pub fresh_chan : Direction → ℕ → ℕ → Chan
fresh_chan d buf slots = record { slots = buf; size = slots; pos = 0; direction = d }

abbrev pub aligned : ℕ → Bool
aligned buf = bit_and buf (cacheline_size - 1) == 0

unfoldable pub ffq_impl_init_tx : ℕ → ℕ → Bool → Mem → Run (Chan × Mem)
unfolding empty_slots
ffq_impl_init_tx buf slots init m = do
  assert (aligned buf)
  done (fresh_chan send buf slots, if init then empty_slots slots buf m else m)

unfoldable pub ffq_impl_init_rx : ℕ → ℕ → Bool → Mem → Run (Chan × Mem)
unfolding empty_slots
ffq_impl_init_rx buf slots init m = do
  assert (aligned buf)
  done (fresh_chan recv buf slots, if init then empty_slots slots buf m else m)

abbrev pub ffq_impl_get_slot : Chan → ℕ
ffq_impl_get_slot q = q.slots + msg_bytes * q.pos

unfoldable pub ffq_impl_can_send : Chan → Mem → Run Bool
ffq_impl_can_send q m = do
  assert (is_send q.direction)
  done (m (word (ffq_impl_get_slot q) 0) == slot_empty)

-- `q->pos = q->pos % q->size`; a remainder by 0 is undefined behaviour
unfoldable pub bump : Chan → Run Chan
bump q = if q.size == 0 then crash else done (record q { pos = q.pos % q.size })

-- the stores into the slot, `data[0]` last
unfoldable pub write_message : Mem → ℕ → Message → Mem
write_message m s a =
    store
      (store
        (store (store (store (store m (word s 1) a.arg2) (word s 2) a.arg3) (word s 3) a.arg4)
          (word s 4) a.arg5)
        (word s 5) a.arg6)
      (word s 0) a.arg1

-- The Boolean says whether the message was sent.
unfoldable pub ffq_impl_send : Chan → Message → Mem → Run (Bool × Chan × Mem)
unfolding ffq_impl_can_send
ffq_impl_send q a m = do
  can ← ffq_impl_can_send q m
  if not can then done (false, q, m) else (do
    assert (not (a.arg1 == slot_empty))
    q' ← bump q
    done (true, q', write_message m (ffq_impl_get_slot q) a))

unfoldable pub ffq_impl_can_recv : Chan → Mem → Run Bool
ffq_impl_can_recv q m = do
  assert (not (is_send q.direction))
  done (not (m (word (ffq_impl_get_slot q) 0) == slot_empty))

unfoldable pub read_message : Mem → ℕ → Message
read_message m s = record {
  arg1 = m (word s 0);
  arg2 = m (word s 1);
  arg3 = m (word s 2);
  arg4 = m (word s 3);
  arg5 = m (word s 4);
  arg6 = m (word s 5);
}

-- what a receive returns: whether there was a message, the six variables, the channel, the memory
abbrev pub Received : Type 0
Received = Bool × Message × Chan × Mem

-- `out` is what the caller's variables hold before.
unfoldable pub ffq_impl_recv : Chan → Message → Mem → Run Received
unfolding ffq_impl_can_recv
ffq_impl_recv q out m = do
  can ← ffq_impl_can_recv q m
  if not can then done (false, out, q, m) else (do
    let s = ffq_impl_get_slot q
    q' ← bump q
    done (true, read_message m s, q', store m (word s 0) slot_empty))
