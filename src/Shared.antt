-- ===== src/Shared.antt =====
-- Memory that two processes share, as the 64-bit words at their byte addresses, and what creating
-- a queue over it asks of the operating system (`shm_open`, `ftruncate`, `mmap`).
pub mod Acquire
use cleanq_linux.Base.{ℕ, ◌+◌, Bool, true, ◌&&◌, Option, List, ltb, leb, ◌==◌, if◌then◌else◌}
use cleanq_linux.Types.{Errval}
use cleanq_linux.Cleanq.{Cleanq}

-- Fields never overlap: a word is read at the address at which it was written.
abbrev pub Mem : Type 0
Mem = ℕ → ℕ

abbrev pub store : Mem → ℕ → ℕ → Mem
store m a v = λ x. if x == a then v else m x

-- `memset(buf, 0, size)`
abbrev pub clear_bytes : Mem → ℕ → ℕ → Mem
clear_bytes m buf size = λ x. if leb buf x && ltb x (buf + size) then 0 else m x

-- What the calls made by a creation function answer. `mapped` is what `mmap` returns, `none` for
-- MAP_FAILED, and `found` the memory as the mapping shows it.
pub record System : Type 0 where
  pub calloc_ok : Bool
  pub strdup : Option ℕ
  pub exclusive_ok : Bool
  pub open_ok : Bool
  pub truncate_ok : Bool
  pub mapped : Option ℕ
  pub found : Mem
  pub pool_ok : Bool
  pub slots_ok : Bool
  pub random : ℕ

-- What a creation function acquires, and its cleanup code releases. The descriptor that `shm_open`
-- returns is not among them: no code closes it.
pub data Resource : Type 0 where
  queue_memory queue_name shm_object mapping : Resource

-- A creation function's result, the queue that goes through `q`, what it has released, in order, and
-- whether it has left a descriptor of `shm_open` open.
pub record Creation (S : Type 0) : Type 0 where
  pub err : Errval
  pub queue : Option (Cleanq S)
  pub released : List Resource
  pub descriptor : Bool

-- `shm_open` succeeded before: its descriptor is open, and stays so.
abbrev pub with_descriptor : {S : Type 0} → Creation S → Creation S
with_descriptor c = record c { descriptor = true }
