-- ===== src/Chunks/Before.antt =====
-- `insert_merge_buffer` of debug_queue.c where the buffer lies before a chunk.
use cleanq_linux.Base.{
  ℕ, ◌+◌, ◌<◌, ◌≤◌, ◌^◌, ◌≡◌, refl, sym, ◌∙◌, ap, inl, inr, true, false, Option, some, [], ◌∷◌,
  ◌++◌, done, Returns, weaken_Returns, arith, ◌==◌, Bool-cases,
}
use cleanq_linux.Types.{u64}
use cleanq_linux.Slab.{SlabAllocator, slab_free}
use cleanq_linux.Chunks.{Tracked}
use cleanq_linux.Chunks.Join.{ends_at, insert_before}
use cleanq_linux.Chunks.Linked.{Chunk, chunk, Chunks, cons, not_null, load-done}
use cleanq_linux.Chunks.Carve.{u64_small}
use cleanq_linux.Chunks.Relink.{Holds, take_out}
use cleanq_linux.Chunks.Split.{Gives}
use cleanq_linux.Chunks.Insert.{
  ends, ends_at-ends, extend_prev-Becomes, merge_before-alone, insert_in_front-Becomes,
}
use cleanq_linux.Chunks.Swallow.{merge_before-both}
use cleanq_linux.Chunks.Owns.{end}
use cleanq_linux.Chunks.Gain.{
  Within, Within-chunk, extend_down-Gains, in_front-Gains, extend_up-Gains, both-Gains,
}
use cleanq_linux.Chunks.Grown.{Grown, reuse, grown}

snoc-append : (ws : Chunks) (d : Chunk) (ys : Chunks) → (ws ++ d ∷ []) ++ ys ≡ ws ++ d ∷ ys
snoc-append [] d ys = refl
snoc-append (w ∷ ws) d ys = ap (λ t. w ∷ t) (snoc-append ws d ys)

-- the last chunk, where one ends at `v`
split_last :
    (xs : Chunks) (v : ℕ)
    → ends xs v ≡ true
    → (ws : Chunks) × (d : Chunk) × (xs ≡ ws ++ d ∷ []) × (u64 (d.offset + d.length) ≡ v)
unfolding ends
split_last [] v h = absurd (ground arith)
split_last (c ∷ []) v h = ([], c, refl, ground arith)
split_last (c ∷ d ∷ ds) v h =
    let (ws, e, same, meets) = split_last (d ∷ ds) v h in (c ∷ ws, e, ap (λ t. c ∷ t) same, meets)

module _ (bound : ℕ) (narrow : bound < 2 ^ 64) (memory : Option ℕ) (b : ℕ)
    (alloc alloc' : SlabAllocator) (s : Tracked) (p o l offset length : ℕ) (pos : 0 < length) where
  insert_alone :
      (xs ys : Chunks)
      → Holds s (xs ++ chunk p o l ∷ ys)
      → Within bound (xs ++ chunk p o l ∷ ys)
      → Gives memory s b alloc
      → end 0 xs ≤ offset
      → offset + length ≤ o
      → ends xs offset ≡ false
      → Returns
          (insert_before memory s p offset length)
          (Grown bound s (xs ++ chunk p o l ∷ ys) offset length)
  unfolding insert_before
  insert_alone xs ys holds within gives first before apart =
      let a = take_out xs holds in
      let (after, range) = Within-chunk bound xs ys p o l within in
      let sum : u64 (offset + length) ≡ offset + length = omega arith in
      elim (Bool-cases (o == offset + length)) [
        | inl meets ↦
            rw (load-done (a.here), sum, meets)
              (weaken_Returns (merge_before-alone a offset length (omega arith) apart) (λ s' r.
                grown bound s xs ys p o l offset length (xs ++ chunk p offset (l + length) ∷ ys) s'
                  (extend_down-Gains bound xs ys p o l offset length first within (ground arith))
                  (reuse s xs ys (chunk p o l ∷ []) (chunk p offset (l + length) ∷ [])
                    (λ a i o. ground arith))
                  r))
        | inr other ↦
            rw (load-done (a.here), sum, other, ends_at-ends xs offset (a.around.front), apart)
              (weaken_Returns (insert_in_front-Becomes memory b alloc a gives offset length)
                (λ s' r.
                  grown bound s xs ys p o l offset length
                    (xs ++ chunk b offset length ∷ chunk p o l ∷ ys) s'
                    (in_front-Gains bound xs ys p o l offset length first b within before)
                    (reuse s xs ys (chunk p o l ∷ []) (chunk b offset length ∷ chunk p o l ∷ [])
                      (λ a i o. ground (arith, gives.unused)))
                    r))
      ]

  insert_joined :
      (ws ys : Chunks) (pd od ld : ℕ)
      → Holds s (ws ++ chunk pd od ld ∷ chunk p o l ∷ ys)
      → Within bound (ws ++ chunk pd od ld ∷ chunk p o l ∷ ys)
      → slab_free s.alloc (some p) ≡ done alloc'
      → od + ld ≡ offset
      → offset + length ≤ o
      → o + l ≤ bound
      → Returns
          (insert_before memory s p offset length)
          (Grown bound s (ws ++ chunk pd od ld ∷ chunk p o l ∷ ys) offset length)
  unfolding insert_before ends_at
  insert_joined ws ys pd od ld holds within freed joins before range =
      let a = take_out ws holds in
      let sum : u64 (offset + length) ≡ offset + length = omega arith in
      let plain : u64 (od + ld) ≡ offset = omega arith in
      let met : (u64 (od + ld) == offset) ≡ true = ground arith in
      elim (a.around.back) [
        | cons e out back ↦ elim (Bool-cases (o == offset + length)) [
          | inl meets ↦
              rw (load-done e, sum, meets)
                (weaken_Returns (merge_before-both a alloc' freed offset length plain (omega arith))
                  (λ s' r.
                    grown bound s ws (chunk p o l ∷ ys) pd od ld offset length
                      (ws ++ chunk pd od (ld + (l + length)) ∷ ys) s'
                      (both-Gains bound ws ys pd od ld p o l offset length joins within
                        (ground arith))
                      (reuse s ws ys (chunk pd od ld ∷ chunk p o l ∷ [])
                        (chunk pd od (ld + (l + length)) ∷ []) (λ a i o. ground arith))
                      r))
          | inr other ↦
              rw (load-done e, sum, other, not_null (a.here), load-done (a.here), met)
                (weaken_Returns (extend_prev-Becomes a length pos (omega arith)) (λ s' r.
                  grown bound s ws (chunk p o l ∷ ys) pd od ld offset length
                    (ws ++ chunk pd od (ld + length) ∷ chunk p o l ∷ ys) s'
                    (extend_up-Gains bound ws ys pd od ld p o l offset length joins within before)
                    (reuse s ws ys (chunk pd od ld ∷ chunk p o l ∷ [])
                      (chunk pd od (ld + length) ∷ chunk p o l ∷ []) (λ a i o. ground arith))
                    r))
        ]
      ]

  pub insert_before-Grown :
      (xs ys : Chunks)
      → Holds s (xs ++ chunk p o l ∷ ys)
      → Within bound (xs ++ chunk p o l ∷ ys)
      → Gives memory s b alloc
      → slab_free s.alloc (some p) ≡ done alloc'
      → end 0 xs ≤ offset
      → offset + length ≤ o
      → Returns
          (insert_before memory s p offset length)
          (Grown bound s (xs ++ chunk p o l ∷ ys) offset length)
  insert_before-Grown xs ys holds within gives freed first before =
      elim (Bool-cases (ends xs offset)) [
        | inr apart ↦ insert_alone xs ys holds within gives first before apart
        | inl joined ↦
            let (ws, d, same, met) = split_last xs offset joined in
            let moved : xs ++ chunk p o l ∷ ys ≡ ws ++ d ∷ chunk p o l ∷ ys =
              ap (λ t. t ++ chunk p o l ∷ ys) same ∙ snoc-append ws d (chunk p o l ∷ ys) in
            let within' = rw moved at within in
            let (low, high) =
              Within-chunk bound ws (chunk p o l ∷ ys) d.addr d.offset d.length within' in
            let (low', high') = Within-chunk bound xs ys p o l within in
            rw moved (
              insert_joined ws ys d.addr d.offset d.length (rw moved at holds) within' freed
                (sym (u64_small (omega arith)) ∙ met) before high')
      ]
