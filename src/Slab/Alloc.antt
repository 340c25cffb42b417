-- ===== src/Slab/Alloc.antt =====
-- `slab_grow`, `slab_alloc` and `slab_free` (cleanq/slab.c) with the default refill function.
use cleanq_linux.Base.{
  ℕ, zero, suc, ◌+◌, ◌-◌, ◌*◌, ◌/◌, ◌^◌, ◌<◌, ◌≤◌, ◌≡◌, refl, sym, ◌∙◌, ap, ◌⊎◌, inl, inr, List,
  ◌∷◌, length, true, Option, none, some, done, ◌>>=◌, arith, leb, ltb, Option-cases,
}
use native.Mathlib.Nat.{div-add-mod, le-div_iff_mul-le, div-le_self}
use cleanq_linux.Slab.{
  SlabHead, SlabAllocator, default_refill, enqueue_blocks, slab_head_size, default_refill_size,
  slab_grow, slab_default_refill, alloc_refill, slab_alloc, slab_free, dequeue_block,
}
use cleanq_linux.Slab.Invariant.{AllInside, Outside, IsValid}
use cleanq_linux.Slab.Blocks.{Taken, AllUsed, dequeue_block-cases}

length-enqueue_blocks : (n buf blocksize : ℕ) → length (enqueue_blocks n buf blocksize) ≡ n
unfolding enqueue_blocks
length-enqueue_blocks zero buf blocksize = refl
length-enqueue_blocks (suc n) buf blocksize =
    ap suc (length-enqueue_blocks n (buf + blocksize) blocksize)

enqueue_blocks-inside :
    (sh : SlabHead) (blocksize n buf : ℕ)
    → sh.addr < buf
    → 0 < blocksize
    → buf + blocksize * n ≤ sh.addr + slab_head_size + blocksize * sh.total
    → AllInside blocksize sh (enqueue_blocks n buf blocksize)
unfolding enqueue_blocks
enqueue_blocks-inside sh blocksize zero buf h pos fits = tt
enqueue_blocks-inside sh blocksize (suc n) buf h pos fits =
    let one : blocksize * suc n ≡ blocksize + blocksize * n = grind arith in
    (
      ground arith,
      enqueue_blocks-inside sh blocksize n (buf + blocksize) (omega arith) pos (omega arith),
    )

-- the slab that a refill at `buf` adds
unfoldable pub new_head : ℕ → ℕ → SlabHead
new_head blocksize buf =
    let total = (default_refill_size - slab_head_size) / blocksize in
    record {
      addr = buf;
      total = total;
      free = total;
      blocks = enqueue_blocks total (buf + slab_head_size) blocksize;
    }

abbrev pub grown : SlabAllocator → ℕ → SlabAllocator
grown s buf = record s { slabs = new_head s.blocksize buf ∷ s.slabs }

-- The memory at `buf` falls inside none of the slabs.
abbrev pub Fresh : ℕ → List SlabHead → ℕ → Type 0
Fresh blocksize shs buf =
    (x : ℕ) → buf < x → x < buf + default_refill_size → Outside blocksize x shs

module _ (s : SlabAllocator) (v : IsValid s) (pos : 0 < s.blocksize)
    (small : s.blocksize ≤ 16360) where
  abbrev total : ℕ
  total = 16360 / s.blocksize

  total_fits : s.blocksize * total ≤ 16360
  total_fits = omega (arith, div-add-mod 16360 s.blocksize)

  total_pos : 0 < total
  total_pos = (le-div_iff_mul-le {x = 1} pos).1 (omega arith)

  total_small : total ≤ 16360
  total_small = div-le_self 16360 s.blocksize

  slab_grow_lem : (buf : ℕ) → slab_grow s buf default_refill_size ≡ done (grown s buf)
  unfolding slab_grow new_head
  slab_grow_lem buf =
      let narrow : leb total (2 ^ 32 - 1) ≡ true = ground (arith, total_small) in
      let some_total : ltb 0 total ≡ true = ground (arith, total_pos) in rw (narrow, some_total)

  grown-IsValid : (buf : ℕ) → Fresh s.blocksize s.slabs buf → IsValid (grown s buf)
  unfolding new_head
  grown-IsValid buf fresh = (
    record {
      counted = sym (length-enqueue_blocks total (buf + 24) s.blocksize);
      bounded = omega arith;
      width = omega (arith, total_small);
      inside =
          enqueue_blocks-inside (new_head s.blocksize buf) s.blocksize total (buf + 24)
            (omega arith) pos (omega arith);
    },
    (λ x here. fresh x (ground (arith, here)) (ground (arith, here, total_fits))),
    v,
  )

  free_back :
      (slabs slabs' : List SlabHead) (b : ℕ)
      → Taken s.blocksize slabs b slabs'
      → slab_free (record s { slabs = slabs' }) (some b) ≡ done (record s { slabs = slabs })
  unfolding slab_free
  free_back slabs slabs' b t = rw (t.back)

  take_free :
      (memory : Option ℕ) (slabs' : List SlabHead) (b : ℕ)
      → Taken s.blocksize s.slabs b slabs'
      → slab_alloc memory s ≡ done (some b, record s { slabs = slabs' })
  unfolding slab_alloc
  take_free memory slabs' b t = rw (t.run)

  refill-Taken :
      (buf : ℕ) (slabs' : List SlabHead) (b : ℕ)
      → Taken s.blocksize (grown s buf).slabs b slabs'
      → alloc_refill default_refill (some buf) s ≡ done (some b, record s { slabs = slabs' })
  unfolding alloc_refill slab_default_refill
  refill-Taken buf slabs' b t = rw (slab_grow_lem buf, ◌>>=◌, t.run)

  take_refilled :
      (buf : ℕ) (slabs' : List SlabHead) (b : ℕ)
      → s.refill_func ≡ default_refill
      → dequeue_block s.slabs ≡ done none
      → Taken s.blocksize (grown s buf).slabs b slabs'
      → slab_alloc (some buf) s ≡ done (some b, record s { slabs = slabs' })
  unfolding slab_alloc
  take_refilled buf slabs' b default none_free t =
      rw none_free (ap (λ f. alloc_refill f (some buf) s) default ∙ refill-Taken buf slabs' b t)

  refuse :
      s.refill_func ≡ default_refill
      → dequeue_block s.slabs ≡ done none
      → slab_alloc none s ≡ done (none, s)
  unfolding slab_alloc alloc_refill slab_default_refill
  refuse default none_free = rw none_free (ap (λ f. alloc_refill f none s) default)

  new_block : (buf : ℕ) → ¬ AllUsed (grown s buf).slabs
  unfolding new_head
  new_block buf used = omega (arith, used.0, total_pos)

  -- what `slab_alloc` may return
  pub record Allocates (memory : Option ℕ) (from : SlabAllocator) : Type 0 where
    pub block : ℕ
    pub left : SlabAllocator
    pub run : slab_alloc memory s ≡ done (some block, left)
    pub valid : IsValid left
    pub back : slab_free left (some block) ≡ done from

  allocates :
      (memory : Option ℕ) (from : SlabAllocator) (b : ℕ) (slabs' : List SlabHead)
      → from ≡ record s { slabs = from.slabs }
      → slab_alloc memory s ≡ done (some b, record s { slabs = slabs' })
      → Taken s.blocksize from.slabs b slabs'
      → Allocates memory from
  allocates memory from b slabs' same run t = record {
    block = b;
    left = record s { slabs = slabs' };
    run = run;
    valid = t.valid;
    back = free_back from.slabs slabs' b t ∙ ap done (sym same);
  }

  -- `slab_alloc` of a valid allocator with the default refill function and blocks of at least one
  -- byte that fit into a refill ends. If there is a free block, it returns one, and freeing that
  -- block at once gives the allocator back as it was. If there is none, it asks for memory:
  -- without any it returns a null pointer and changes nothing; from memory that no slab covers it
  -- adds a slab, returns a block of it, and freeing that block at once gives back the allocator
  -- with the unused slab. What is left after an allocation is valid.
  pub slab_alloc-free :
      (memory : Option ℕ)
      → s.refill_func ≡ default_refill
      → ((buf : ℕ) → memory ≡ some buf → Fresh s.blocksize s.slabs buf)
      → (¬ AllUsed s.slabs × Allocates memory s)
        ⊎ (AllUsed s.slabs
            × (((memory ≡ none) × (slab_alloc memory s ≡ done (none, s)))
                ⊎ ((buf : ℕ) × (memory ≡ some buf) × Allocates memory (grown s buf))))
  slab_alloc-free memory default fresh = elim (dequeue_block-cases s.blocksize s.slabs v) [
    | inr (b, slabs', t) ↦
        inl (t.free, allocates memory s b slabs' refl (take_free memory slabs' b t) t)
    | inl (used, run) ↦ inr (
      used,
      elim (Option-cases memory) [
        | inl without ↦ inl (without, rw without (refuse default run))
        | inr (buf, given) ↦ inr (buf, given, refilled buf given run)
      ],
    )
  ]
    where
      refilled :
          (buf : ℕ)
          → memory ≡ some buf
          → dequeue_block s.slabs ≡ done none
          → Allocates memory (grown s buf)
      refilled buf given run =
          elim (dequeue_block-cases s.blocksize (grown s buf).slabs
            (grown-IsValid buf (fresh buf given))) [
              | inl (used, again) ↦ absurd (new_block buf used)
              | inr (b, slabs', t) ↦
                  allocates memory (grown s buf) b slabs' refl
                    (ap (λ m. slab_alloc m s) given ∙ take_refilled buf slabs' b default run t) t
            ]
