-- ===== src/Slab.antt =====
-- cleanq/slab.c, the allocator of fixed-size blocks. A pointer is its address. What `malloc`
-- would return is an argument of the calls that may reach it, `none` for a null pointer.
pub mod Invariant
pub mod Blocks
pub mod Alloc
mod Tests
use cleanq_linux.Base.{
  ℕ, zero, suc, ◌+◌, ◌-◌, ◌*◌, ◌/◌, ◌^◌, Bool, true, false, ◌&&◌, Option, none, some, List, [], ◌∷◌,
  Run, done, crash, ◌>>=◌, ◌>>◌, assert, ltb, leb, ◌==◌, if◌then◌else◌,
}
use cleanq_linux.Types.{u32}

-- `struct slab_head` at its address. The list of free blocks, which the code links through the
-- blocks themselves, is the list of their addresses, top first.
pub record SlabHead : Type 0 where
  pub addr : ℕ
  pub total : ℕ
  pub free : ℕ
  pub blocks : List ℕ

-- `slab_refill_func_t`: a null pointer, or the one refill function of the library
pub data Refill : Type 0 where
  no_refill default_refill : Refill

-- `struct slab_allocator`
pub record SlabAllocator : Type 0 where
  pub slabs : List SlabHead
  pub blocksize : ℕ
  pub refill_func : Refill

abbrev pub block_hdrsize : ℕ
block_hdrsize = 8

abbrev pub slab_head_size : ℕ
slab_head_size = 24

abbrev pub default_refill_size : ℕ
default_refill_size = 16 * 1024

-- `SLAB_REAL_BLOCKSIZE`
abbrev pub real_blocksize : ℕ → ℕ
real_blocksize blocksize = if ltb block_hdrsize blocksize then blocksize else block_hdrsize

unfoldable pub slab_init : ℕ → Refill → SlabAllocator
slab_init blocksize refill = record {
  slabs = [];
  blocksize = real_blocksize blocksize;
  refill_func = refill;
}

-- the free list that `slab_grow` links through the buffer
unfoldable pub enqueue_blocks : ℕ → ℕ → ℕ → List ℕ
enqueue_blocks zero buf blocksize = []
enqueue_blocks (suc n) buf blocksize = buf ∷ enqueue_blocks n (buf + blocksize) blocksize

unfoldable pub slab_grow : SlabAllocator → ℕ → ℕ → Run SlabAllocator
unfolding enqueue_blocks
slab_grow s buf buflen = do
  assert (ltb slab_head_size buflen)
  let total = (buflen - slab_head_size) / s.blocksize
  assert (leb total (2 ^ 32 - 1))
  assert (ltb 0 total)
  let head : SlabHead = record {
    addr = buf;
    total = total;
    free = total;
    blocks = enqueue_blocks total (buf + slab_head_size) s.blocksize;
  }
  done (record s { slabs = head ∷ s.slabs })

-- The Boolean says whether the call failed, that is whether its result is not 0.
unfoldable pub slab_default_refill : Option ℕ → SlabAllocator → Run (Bool × SlabAllocator)
unfolding slab_grow
slab_default_refill none s = done (true, s)
slab_default_refill (some buf) s = do s' ← slab_grow s buf default_refill_size; done (false, s')

-- what was found in the later slabs, with the slab before them put back
abbrev pub behind : SlabHead → Option (ℕ × List SlabHead) → Option (ℕ × List SlabHead)
behind sh none = none
behind sh (some (bh, shs)) = some (bh, sh ∷ shs)

-- the top block of the first slab with `free != 0`; `none` if there is no such slab
pub dequeue_block : List SlabHead → Run (Option (ℕ × List SlabHead))
dequeue_block [] = done none
dequeue_block (sh ∷ shs) =
    let later = dequeue_block shs >>= λ r. done (behind sh r) in
    if sh.free == 0 then later else elim sh.blocks [
      | [] ↦ crash
      | bh ∷ rest ↦ done (some (bh, record sh { blocks = rest; free = sh.free - 1 } ∷ shs))
    ]

-- `slab_alloc`'s second search, after a refill
pub alloc_refilled : Bool → SlabAllocator → Run (Option ℕ × SlabAllocator)
unfolding dequeue_block
alloc_refilled true s = done (none, s)
alloc_refilled false s = do
  r ← dequeue_block s.slabs
  elim r [ none ↦ done (none, s) | some (bh, shs) ↦ done (some bh, record s { slabs = shs }) ]

pub alloc_refill : Refill → Option ℕ → SlabAllocator → Run (Option ℕ × SlabAllocator)
unfolding alloc_refilled slab_default_refill
alloc_refill no_refill buf s = done (none, s)
alloc_refill default_refill buf s = do
  (failed, s') ← slab_default_refill buf s
  alloc_refilled failed s'

unfoldable pub slab_alloc : Option ℕ → SlabAllocator → Run (Option ℕ × SlabAllocator)
unfolding dequeue_block alloc_refill
slab_alloc buf s = do
  r ← dequeue_block s.slabs
  elim r [
    | some (bh, shs) ↦ done (some bh, record s { slabs = shs })
    | none ↦ alloc_refill s.refill_func buf s
  ]

-- whether the block falls inside the slab
abbrev pub in_slab : ℕ → ℕ → SlabHead → Bool
in_slab bh blocksize sh = ltb sh.addr bh && ltb bh (sh.addr + slab_head_size + blocksize * sh.total)

-- the block goes back on top of its slab's free list; no slab that matches fails the assertion
unfoldable pub enqueue_block : ℕ → ℕ → List SlabHead → Run (List SlabHead)
enqueue_block bh blocksize [] = crash
enqueue_block bh blocksize (sh ∷ shs) =
    let later = enqueue_block bh blocksize shs >>= λ shs'. done (sh ∷ shs') in
    if in_slab bh blocksize sh
    then (assert (leb (u32 (sh.free + 1)) sh.total)
        >> done (record sh { blocks = bh ∷ sh.blocks; free = u32 (sh.free + 1) } ∷ shs))
    else later

unfoldable pub slab_free : SlabAllocator → Option ℕ → Run SlabAllocator
unfolding enqueue_block
slab_free s none = done s
slab_free s (some bh) = do
  shs ← enqueue_block bh s.blocksize s.slabs
  done (record s { slabs = shs })
