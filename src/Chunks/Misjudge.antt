-- ===== src/Chunks/Misjudge.antt =====
-- `insert_merge_buffer` of debug_queue.c where its test on the lower boundary is wrong: it adds the
-- length of the buffer to the beginning of the chunk, in place of the length of the chunk.
use cleanq_linux.Base.{
  ℕ, ◌+◌, ◌<◌, ◌≤◌, ◌^◌, ◌≡◌, refl, true, false, Option, [], ◌∷◌, ◌++◌, Returns, arith, leb, ◌==◌,
}
use cleanq_linux.Types.{u64}
use cleanq_linux.Chunks.{Tracked, write}
use cleanq_linux.Chunks.Join.{starts_at, merge_after, insert_after, insert_merge_buffer}
use cleanq_linux.Chunks.Linked.{chunk, Chunks, load-done}
use cleanq_linux.Chunks.Relink.{Holds, take_out, put_in}
use cleanq_linux.Chunks.Edit.{At-write}
use cleanq_linux.Chunks.Owns.{covers, owns, end, owns-append, owns-behind, end-append}
use cleanq_linux.Chunks.Gain.{Within}

module _ (s : Tracked) (xs : Chunks) (p o l : ℕ) where
  -- Behind the last chunk, which is shorter than the buffer, of a sorted list in a region of
  -- 64-bit length, a buffer that lies as far behind the beginning of the chunk as it is long is
  -- taken to meet the chunk. `insert_merge_buffer` ends, the chunk grows by the length of the
  -- buffer, and the byte behind it, which was not owned and is not in the buffer, is owned.
  pub insert_merge_buffer-misjudges :
      (memory : Option ℕ) (bound offset length : ℕ)
      → Holds s (xs ++ chunk p o l ∷ [])
      → Within bound (xs ++ chunk p o l ∷ [])
      → bound < 2 ^ 64
      → offset + length ≤ bound
      → l < length
      → o + length ≡ offset
      → Returns (insert_merge_buffer memory s p offset length) λ s'.
        Holds s' (xs ++ chunk p o (l + length) ∷ [])
        × (owns (xs ++ chunk p o l ∷ []) (o + l) ≡ false)
        × (covers offset length (o + l) ≡ false)
        × (owns (xs ++ chunk p o (l + length) ∷ []) (o + l) ≡ true)
  unfolding insert_merge_buffer insert_after merge_after starts_at write owns end
  insert_merge_buffer-misjudges memory bound offset length holds within narrow fits shorter wrong =
      let a = take_out xs holds in
      let end₁ : u64 (o + l) ≡ o + l = omega arith in
      let later : leb (o + l) offset ≡ true = ground arith in
      let sum : u64 (l + length) ≡ l + length = omega arith in
      let test : u64 (o + length) ≡ o + length = omega arith in
      let taken : (o + length == offset) ≡ true = ground arith in
      rw (load-done (a.here), end₁, later, test, taken, sum)
        (
          _,
          refl,
          (
            put_in xs (At-write o (l + length) a),
            owns-behind 0 (xs ++ chunk p o l ∷ []) (o + l) (within.sorted)
                (omega (arith, end-append 0 xs (chunk p o l ∷ []))),
            ground arith,
            rw (owns-append xs (chunk p o (l + length) ∷ []) (o + l)) (ground arith),
          ),
        )
