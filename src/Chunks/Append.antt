-- ===== src/Chunks/Append.antt =====
-- `insert_merge_buffer` of debug_queue.c behind the last chunk.
use cleanq_linux.Base.{
  ℕ, ◌+◌, ◌<◌, ◌≤◌, ◌^◌, ◌≡◌, refl, inl, inr, true, Option, [], ◌∷◌, ◌++◌, Returns, arith, ◌==◌,
  Bool-cases, if◌then◌else◌,
}
use cleanq_linux.Types.{u64}
use cleanq_linux.Slab.{SlabAllocator}
use cleanq_linux.Chunks.{Tracked, write}
use cleanq_linux.Chunks.Join.{starts_at, merge_after, insert_apart, insert_after}
use cleanq_linux.Chunks.Linked.{chunk, Chunks, load-done}
use cleanq_linux.Chunks.Relink.{At, put_in}
use cleanq_linux.Chunks.Edit.{At-write}
use cleanq_linux.Chunks.Split.{Becomes, Gives}
use cleanq_linux.Chunks.Insert.{insert_behind-Becomes}

-- what the last chunk, at `p`, becomes when a buffer behind it comes back
abbrev pub longer_end : ℕ → ℕ → ℕ → ℕ → ℕ → ℕ → Chunks
longer_end p o l offset length b =
    if o + l == offset
    then chunk p o (l + length) ∷ []
    else chunk p o l ∷ chunk b offset length ∷ []

module _ {s : Tracked} {xs : Chunks} {p o l : ℕ} (a : At s xs p o l []) where
  insert_apart-Becomes :
      (memory : Option ℕ) (b : ℕ) (alloc : SlabAllocator) (offset length : ℕ)
      → o + l ≤ offset
      → offset + length < 2 ^ 64
      → (o + l < offset → Gives memory s b alloc)
      → Returns
          (insert_apart memory s p offset length)
          (Becomes xs p [] s (xs ++ longer_end p o l offset length b))
  unfolding insert_apart starts_at write
  insert_apart-Becomes memory b alloc offset length behind fits gives =
      let end : u64 (o + l) ≡ o + l = omega arith in
      let sum : u64 (l + length) ≡ l + length = omega arith in
      elim (Bool-cases (o + l == offset)) [
        | inl meets ↦
            rw (load-done (a.here), end, sum, meets)
              (_, refl, (put_in xs (At-write o (l + length) a), ground arith))
        | inr apart ↦
            rw (load-done (a.here), end, apart)
              (insert_behind-Becomes memory b alloc a (gives (ground arith)) offset length)
      ]

  -- A length of the buffer with `o + length ≡ offset` is taken for a buffer that meets the chunk.
  pub insert_after-Becomes :
      (memory : Option ℕ) (b : ℕ) (alloc : SlabAllocator) (offset length : ℕ)
      → o + l ≤ offset
      → offset + length < 2 ^ 64
      → (o + length ≡ offset → l ≡ length)
      → (o + l < offset → Gives memory s b alloc)
      → Returns
          (insert_after memory s p offset length)
          (Becomes xs p [] s (xs ++ longer_end p o l offset length b))
  unfolding insert_after merge_after starts_at write
  insert_after-Becomes memory b alloc offset length behind fits right gives =
      let sum : u64 (l + length) ≡ l + length = omega arith in
      let test : u64 (o + length) ≡ o + length = omega arith in
      elim (Bool-cases (o + length == offset)) [
        | inl taken ↦
            let meets : (o + l == offset) ≡ true = ground (arith, right) in
            rw (load-done (a.here), test, taken, sum, meets)
              (_, refl, (put_in xs (At-write o (l + length) a), ground arith))
        | inr other ↦
            rw (load-done (a.here), test, other)
              (insert_apart-Becomes memory b alloc offset length behind fits gives)
      ]
