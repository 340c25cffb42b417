-- ===== src/Chunks/Merge.antt =====
-- `insert_merge_buffer` of debug_queue.c: the buffer that came back joins the chunks.
use cleanq_linux.Base.{
  ℕ, ◌+◌, ◌<◌, ◌≤◌, ◌^◌, ◌≡◌, ◌⊎◌, inl, inr, true, false, Option, some, [], ◌∷◌, ◌++◌, done,
  Returns, weaken_Returns, arith, leb,
}
use cleanq_linux.Types.{u64}
use cleanq_linux.Slab.{SlabAllocator, slab_free}
use cleanq_linux.Chunks.{Tracked}
use cleanq_linux.Chunks.Join.{insert_merge_buffer}
use cleanq_linux.Chunks.Linked.{chunk, Chunks, load-done}
use cleanq_linux.Chunks.Relink.{Holds, take_out}
use cleanq_linux.Chunks.Split.{Gives}
use cleanq_linux.Chunks.Append.{longer_end, insert_after-Becomes}
use cleanq_linux.Chunks.Owns.{end}
use cleanq_linux.Chunks.Gain.{Within, Within-chunk, longer_end-Gains}
use cleanq_linux.Chunks.Grown.{Grown, reuse_end, grown}
use cleanq_linux.Chunks.Before.{insert_before-Grown}

-- The new buffer joins the list before the chunk at `p`, or behind it where that is the last one.
-- In the second case, a buffer that lies as far behind the beginning of the chunk as it is long is
-- taken to meet the chunk, which holds only if the chunk has the same length.
abbrev pub Fits : ℕ → ℕ → ℕ → ℕ → Chunks → Chunks → Type 0
Fits o l offset length xs ys =
    ((end 0 xs ≤ offset) × (offset + length ≤ o))
    ⊎ ((ys ≡ []) × (o + l ≤ offset) × (o + length ≡ offset → l ≡ length))

module _ (bound : ℕ) (narrow : bound < 2 ^ 64) (memory : Option ℕ) (b : ℕ)
    (alloc alloc' : SlabAllocator) (s : Tracked) (p o l offset length : ℕ) where
  insert_last :
      (xs : Chunks)
      → offset + length ≤ bound
      → Holds s (xs ++ chunk p o l ∷ [])
      → Within bound (xs ++ chunk p o l ∷ [])
      → Gives memory s b alloc
      → o + l ≤ offset
      → (o + length ≡ offset → l ≡ length)
      → Returns
          (insert_merge_buffer memory s p offset length)
          (Grown bound s (xs ++ chunk p o l ∷ []) offset length)
  unfolding insert_merge_buffer
  insert_last xs fits holds within gives behind right =
      let a = take_out xs holds in
      let sum : u64 (o + l) ≡ o + l = omega arith in
      let later : leb (o + l) offset ≡ true = ground arith in
      rw (load-done (a.here), sum, later)
        (weaken_Returns
          (insert_after-Becomes a memory b alloc offset length behind (omega arith) right
            λ _. gives)
          (λ s' r.
            grown bound s xs [] p o l offset length (xs ++ longer_end p o l offset length b) s'
              (longer_end-Gains bound xs p o l offset length b within behind fits)
              (reuse_end s xs p o l offset length b (gives.unused)) r))

  insert_earlier :
      (xs ys : Chunks)
      → 0 < length
      → Holds s (xs ++ chunk p o l ∷ ys)
      → Within bound (xs ++ chunk p o l ∷ ys)
      → Gives memory s b alloc
      → slab_free s.alloc (some p) ≡ done alloc'
      → end 0 xs ≤ offset
      → offset + length ≤ o
      → Returns
          (insert_merge_buffer memory s p offset length)
          (Grown bound s (xs ++ chunk p o l ∷ ys) offset length)
  unfolding insert_merge_buffer
  insert_earlier xs ys pos holds within gives freed first before =
      let a = take_out xs holds in
      let (low, high) = Within-chunk bound xs ys p o l within in
      let sum : u64 (o + l) ≡ o + l = omega arith in
      let earlier : leb (o + l) offset ≡ false = ground arith in
      rw (load-done (a.here), sum, earlier)
        (insert_before-Grown bound narrow memory b alloc alloc' s p o l offset length pos xs ys
          holds within gives freed first before)

  pub insert_merge_buffer-Grown :
      (xs ys : Chunks)
      → 0 < length
      → offset + length ≤ bound
      → Holds s (xs ++ chunk p o l ∷ ys)
      → Within bound (xs ++ chunk p o l ∷ ys)
      → Gives memory s b alloc
      → slab_free s.alloc (some p) ≡ done alloc'
      → Fits o l offset length xs ys
      → Returns
          (insert_merge_buffer memory s p offset length)
          (Grown bound s (xs ++ chunk p o l ∷ ys) offset length)
  insert_merge_buffer-Grown xs ys pos fits holds within gives freed (inl (first, before)) =
      insert_earlier xs ys pos holds within gives freed first before
  insert_merge_buffer-Grown xs [] pos fits holds within gives freed (inr (e, behind, right)) =
      insert_last xs fits holds within gives behind right
  insert_merge_buffer-Grown xs (y ∷ ys) pos fits holds within gives freed (inr (e, behind, right)) =
      absurd (ground arith)
