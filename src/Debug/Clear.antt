-- ===== src/Debug/Clear.antt =====
-- Buffers that overlap no chunk of their region (cleanq/backends/debug/debug_queue.c).
use cleanq_linux.Base.{
  ℕ, ◌+◌, ◌<◌, ◌≤◌, ◌≡◌, ◌⊎◌, inl, inr, [], ◌∷◌, ◌++◌, arith, ltb, length, Bool-cases,
}
use cleanq_linux.Chunks.Linked.{Chunk, chunk, Chunks, first}
use cleanq_linux.Chunks.Carve.{Inside, carve}
use cleanq_linux.Chunks.Owns.{Sorted, end, end-le, Sorted-append}
use cleanq_linux.Chunks.Merge.{Fits}
use cleanq_linux.Debug.Walk.{Starts}

-- no chunk overlaps the buffer
unfoldable pub Clear : ℕ → ℕ → Chunks → Type 0
Clear offset length [] = Unit {0}
Clear offset length (c ∷ cs) =
    ((c.offset + c.length ≤ offset) ⊎ (offset + length ≤ c.offset)) × Clear offset length cs

-- The test of `insert_merge_buffer` for a buffer behind the last chunk, which adds the length of the
-- buffer to the beginning of the chunk, is right about it.
unfoldable pub Judged : ℕ → ℕ → Chunks → Type 0
Judged offset length [] = Unit {0}
Judged offset length (c ∷ []) = c.offset + length ≡ offset → c.length ≡ length
Judged offset length (c ∷ d ∷ ds) = Judged offset length (d ∷ ds)

Clear-append :
    (offset length : ℕ) (xs ys : Chunks)
    → Clear offset length (xs ++ ys)
    → Clear offset length xs × Clear offset length ys
unfolding Clear
Clear-append offset length [] ys clear = (tt, clear)
Clear-append offset length (x ∷ xs) ys (here, clear) =
    let rest = Clear-append offset length xs ys clear in ((here, rest.0), rest.1)

Judged-last :
    (offset length : ℕ) (xs : Chunks) (c : Chunk)
    → Judged offset length (xs ++ c ∷ [])
    → c.offset + length ≡ offset
    → c.length ≡ length
unfolding Judged
Judged-last offset length [] c judged = judged
Judged-last offset length (x ∷ []) c judged = judged
Judged-last offset length (x ∷ y ∷ ys) c judged = Judged-last offset length (y ∷ ys) c judged

-- Chunks that begin at the offset or before, and do not overlap the buffer, end at the offset.
ends_before :
    (from offset length : ℕ) (cs : Chunks)
    → 0 < length
    → from ≤ offset
    → Starts offset cs
    → Clear offset length cs
    → end from cs ≤ offset
unfolding Starts Clear end
ends_before from offset length [] pos low starts clear = low
ends_before from offset length (c ∷ cs) pos low (first, starts) (here, clear) =
    ends_before (c.offset + c.length) offset length cs pos (ground arith) starts clear

-- The buffer fits where the walk stops.
pub Stops-Fits :
    (offset length : ℕ) (xs : Chunks) (c : Chunk) (ys : Chunks)
    → 0 < length
    → Clear offset length (xs ++ c ∷ ys)
    → Judged offset length (xs ++ c ∷ ys)
    → Starts offset xs
    → (ys ≡ []) ⊎ (offset < c.offset)
    → Fits c.offset c.length offset length xs ys
unfolding Clear
Stops-Fits offset length xs c ys pos clear judged starts later =
    let parts = Clear-append offset length xs (c ∷ ys) clear in
    let low = ends_before 0 offset length xs pos (omega arith) starts (parts.0) in
    elim (parts.1.0) [
      | inr before ↦ inl (low, before)
      | inl behind ↦ elim later [
        | inr ahead ↦ absurd (omega arith)
        | inl none_left ↦
            inr (none_left, behind, Judged-last offset length xs c (rw none_left at judged))
      ]
    ]

front_Clear :
    (from offset length : ℕ) (cs : Chunks)
    → Sorted from cs
    → end from cs ≤ offset
    → Clear offset length cs
unfolding Clear Sorted end
front_Clear from offset length [] s low = tt
front_Clear from offset length (c ∷ cs) s low = (
  inl (omega (arith, end-le (c.offset + c.length) cs (s.1))),
  front_Clear (c.offset + c.length) offset length cs (s.1) low,
)

back_Clear :
    (from offset length : ℕ) (cs : Chunks)
    → Sorted from cs
    → offset + length ≤ from
    → Clear offset length cs
unfolding Clear Sorted
back_Clear from offset length [] s high = tt
back_Clear from offset length (c ∷ cs) s high = (
  inr (omega (arith, s.0)),
  back_Clear (c.offset + c.length) offset length cs (s.1) (omega (arith, s.0)),
)

join_Clear :
    (offset length : ℕ) (xs ys : Chunks)
    → Clear offset length xs
    → Clear offset length ys
    → Clear offset length (xs ++ ys)
unfolding Clear
join_Clear offset length [] ys front back = back
join_Clear offset length (x ∷ xs) ys (here, front) back =
    (here, join_Clear offset length xs ys front back)

-- What is left of a chunk does not overlap the buffer that was cut out.
Clear-carve :
    (p o l offset length b : ℕ)
    → Inside o l offset length
    → Clear offset length (carve p o l offset length b)
unfolding Clear carve
Clear-carve p o l offset length b i = elim (Bool-cases (ltb o offset)) [
  | inl left ↦ elim (Bool-cases (ltb (offset + length) (o + l))) [
    | inl right ↦ rw (left, right) (inl (ground arith), (inr (omega arith), tt))
    | inr all ↦ rw (left, all) (inl (ground arith), tt)
  ]
  | inr first ↦ elim (Bool-cases (ltb (offset + length) (o + l))) [
    | inl right ↦ rw (first, right) (inr (omega arith), tt)
    | inr all ↦ rw (first, all) tt
  ]
]

pub Clear-cut :
    (xs ys : Chunks) (p o l offset length b : ℕ)
    → Inside o l offset length
    → Sorted 0 (xs ++ chunk p o l ∷ ys)
    → Clear offset length (xs ++ (carve p o l offset length b ++ ys))
unfolding Sorted
Clear-cut xs ys p o l offset length b i s =
    let parts = (Sorted-append 0 xs (chunk p o l ∷ ys)).0 s in
    join_Clear offset length xs (carve p o l offset length b ++ ys)
      (front_Clear 0 offset length xs (parts.0) (omega (arith, parts.1.0, i.from)))
      (join_Clear offset length (carve p o l offset length b) ys
        (Clear-carve p o l offset length b i)
        (back_Clear (o + l) offset length ys (parts.1.1) (i.to)))
