-- ===== src/Chunks/Gain.antt =====
-- What the chunks of debug_queue.c cover after a buffer has come back.
use cleanq_linux.Base.{
  ℕ, ◌+◌, ◌≤◌, ◌≡◌, refl, inl, inr, ◌||◌, [], ◌∷◌, ◌++◌, arith, ◌==◌, Bool-cases,
}
use cleanq_linux.Chunks.Linked.{chunk, Chunks}
use cleanq_linux.Chunks.Append.{longer_end}
use cleanq_linux.Chunks.Owns.{
  covers, owns, Sorted, end, owns-append, Sorted-append, end-append, end-le,
}

-- The chunks are sorted and lie in the first `bound` bytes.
pub record Within (bound : ℕ) (cs : Chunks) : Type 0 where
  pub sorted : Sorted 0 cs
  pub bounded : end 0 cs ≤ bound

-- `cs'` are sorted chunks that cover what `cs` cover and the buffer, and no other byte.
pub record Gains (bound : ℕ) (cs : Chunks) (offset length : ℕ) (cs' : Chunks) : Type 0 where
  pub within : Within bound cs'
  pub gained : (x : ℕ) → owns cs' x ≡ (owns cs x || covers offset length x)

pub Within-chunk :
    (bound : ℕ) (xs ys : Chunks) (p o l : ℕ)
    → Within bound (xs ++ chunk p o l ∷ ys)
    → (end 0 xs ≤ o) × (o + l ≤ bound)
unfolding Sorted end
Within-chunk bound xs ys p o l w =
    let parts = (Sorted-append 0 xs (chunk p o l ∷ ys)).0 (w.sorted) in
    (
      parts.1.0,
      omega (arith, w.bounded, end-append 0 xs (chunk p o l ∷ ys), end-le (o + l) ys (parts.1.1)),
    )

-- `new` covers what `old` does and the buffer, in the same place
record Replaces (from offset length : ℕ) (old new : Chunks) : Type 0 where
  sorted : Sorted from old → Sorted from new
  same_end : end from new ≡ end from old
  gained : (x : ℕ) → owns new x ≡ (owns old x || covers offset length x)

owns-replace :
    (xs ys old new : Chunks) (offset length x : ℕ)
    → owns new x ≡ (owns old x || covers offset length x)
    → owns (xs ++ (new ++ ys)) x ≡ (owns (xs ++ (old ++ ys)) x || covers offset length x)
owns-replace xs ys old new offset length x h =
    rw
      (
        owns-append xs (new ++ ys) x,
        owns-append new ys x,
        owns-append xs (old ++ ys) x,
        owns-append old ys x,
        h,
      )
      (ground arith)

module _ (bound : ℕ) (xs ys : Chunks) where
  replace-Gains :
      (old new : Chunks) (offset length : ℕ)
      → Within bound (xs ++ (old ++ ys))
      → Replaces (end 0 xs) offset length old new
      → Gains bound (xs ++ (old ++ ys)) offset length (xs ++ (new ++ ys))
  replace-Gains old new offset length w r =
      let parts = (Sorted-append 0 xs (old ++ ys)).0 (w.sorted) in
      let parts' = (Sorted-append (end 0 xs) old ys).0 (parts.1) in
      let same : end 0 (xs ++ (new ++ ys)) ≡ end 0 (xs ++ (old ++ ys)) = rw (
        end-append 0 xs (new ++ ys),
        end-append 0 xs (old ++ ys),
        end-append (end 0 xs) new ys,
        end-append (end 0 xs) old ys,
        r.same_end,
      ) in
      record {
        within = record {
          sorted = (Sorted-append 0 xs (new ++ ys)).1 (
            parts.0,
            (Sorted-append (end 0 xs) new ys).1 (r.sorted (parts'.0), rw (r.same_end) (parts'.1)),
          );
          bounded = omega (arith, w.bounded, same);
        };
        gained = λ x. owns-replace xs ys old new offset length x (r.gained x);
      }

  module _ (p o l offset length : ℕ) (first : end 0 xs ≤ offset) where
    pub extend_down-Gains :
        Within bound (xs ++ chunk p o l ∷ ys)
        → offset + length ≡ o
        → Gains bound
            (xs ++ chunk p o l ∷ ys)
            offset
            length
            (xs ++ chunk p offset (l + length) ∷ ys)
    unfolding Sorted end owns
    extend_down-Gains w meets =
        replace-Gains (chunk p o l ∷ []) (chunk p offset (l + length) ∷ []) offset length w
          (record { sorted = λ s. (first, tt); same_end = omega arith; gained = ground arith })

    pub in_front-Gains :
        (b : ℕ)
        → Within bound (xs ++ chunk p o l ∷ ys)
        → offset + length ≤ o
        → Gains bound
            (xs ++ chunk p o l ∷ ys)
            offset
            length
            (xs ++ chunk b offset length ∷ chunk p o l ∷ ys)
    unfolding Sorted end owns
    in_front-Gains b w before =
        replace-Gains (chunk p o l ∷ []) (chunk b offset length ∷ chunk p o l ∷ []) offset length w
          (record { sorted = λ s. (first, (before, tt)); same_end = refl; gained = ground arith })

  module _ (pd od ld p o l offset length : ℕ) (meets : od + ld ≡ offset) where
    pub extend_up-Gains :
        Within bound (xs ++ chunk pd od ld ∷ chunk p o l ∷ ys)
        → offset + length ≤ o
        → Gains bound
            (xs ++ chunk pd od ld ∷ chunk p o l ∷ ys)
            offset
            length
            (xs ++ chunk pd od (ld + length) ∷ chunk p o l ∷ ys)
    unfolding Sorted end owns
    extend_up-Gains w before =
        replace-Gains (chunk pd od ld ∷ chunk p o l ∷ [])
          (chunk pd od (ld + length) ∷ chunk p o l ∷ []) offset length w
          (record {
            sorted = λ s. (s.0, (omega arith, tt));
            same_end = refl;
            gained = ground arith;
          })

    pub both-Gains :
        Within bound (xs ++ chunk pd od ld ∷ chunk p o l ∷ ys)
        → offset + length ≡ o
        → Gains bound
            (xs ++ chunk pd od ld ∷ chunk p o l ∷ ys)
            offset
            length
            (xs ++ chunk pd od (ld + (l + length)) ∷ ys)
    unfolding Sorted end owns
    both-Gains w closes =
        replace-Gains (chunk pd od ld ∷ chunk p o l ∷ []) (chunk pd od (ld + (l + length)) ∷ [])
          offset length w
          (record { sorted = λ s. (s.0, tt); same_end = omega arith; gained = ground arith })

pub longer_end-Gains :
    (bound : ℕ) (xs : Chunks) (p o l offset length b : ℕ)
    → Within bound (xs ++ chunk p o l ∷ [])
    → o + l ≤ offset
    → offset + length ≤ bound
    → Gains bound (xs ++ chunk p o l ∷ []) offset length (xs ++ longer_end p o l offset length b)
unfolding Sorted end owns
longer_end-Gains bound xs p o l offset length b w behind fits =
    let parts = (Sorted-append 0 xs (chunk p o l ∷ [])).0 (w.sorted) in
    elim (Bool-cases (o + l == offset)) [
      | inl meets ↦ rw meets (record {
        within = record {
          sorted = (Sorted-append 0 xs (chunk p o (l + length) ∷ [])).1 (parts.0, (parts.1.0, tt));
          bounded = omega (arith, end-append 0 xs (chunk p o (l + length) ∷ []));
        };
        gained = λ x.
            rw (owns-append xs (chunk p o (l + length) ∷ []) x, owns-append xs (chunk p o l ∷ []) x)
              (ground arith);
      })
      | inr apart ↦ rw apart (record {
        within = record {
          sorted =
              (Sorted-append 0 xs (chunk p o l ∷ chunk b offset length ∷ [])).1
                (parts.0, (parts.1.0, (behind, tt)));
          bounded = omega (arith, end-append 0 xs (chunk p o l ∷ chunk b offset length ∷ []));
        };
        gained = λ x.
            rw
              (
                owns-append xs (chunk p o l ∷ chunk b offset length ∷ []) x,
                owns-append xs (chunk p o l ∷ []) x,
              )
              (ground arith);
      })
    ]
