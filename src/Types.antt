-- ===== src/Types.antt =====
-- The public types of cleanq/include/cleanq/cleanq.h.
use cleanq_linux.Base.{ℕ, ◌^◌, ◌%◌, Bool, true, false, not}

-- `uint16_t`, `uint32_t` and `uint64_t` arithmetic keeps its remainder.
abbrev pub u16 : ℕ → ℕ
u16 x = x % 2 ^ 16

abbrev pub u32 : ℕ → ℕ
u32 x = x % 2 ^ 32

abbrev pub u64 : ℕ → ℕ
u64 x = x % 2 ^ 64

-- `errval_t`, in the order of the header
pub data Errval : Type 0 where
  ok init_queue buffer_id buffer_not_in_region buffer_already_in_use : Errval
  invalid_buffer_args invalid_region_id region_destroy invalid_region_args : Errval
  queue_empty queue_full buffer_not_in_use malloc_fail : Errval

abbrev pub err_is_ok : Errval → Bool
err_is_ok ok = true
err_is_ok _ = false

abbrev pub err_is_fail : Errval → Bool
err_is_fail err = not (err_is_ok err)

-- `struct capref`
pub record Capref : Type 0 where
  pub vaddr : ℕ
  pub paddr : ℕ
  pub len : ℕ

-- `struct cleanq_buf`; the six arguments of an enqueue and the six results of a dequeue
pub record Buf : Type 0 where
  pub offset : ℕ
  pub length : ℕ
  pub valid_data : ℕ
  pub valid_length : ℕ
  pub flags : ℕ
  pub rid : ℕ
