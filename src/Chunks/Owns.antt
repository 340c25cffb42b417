-- ===== src/Chunks/Owns.antt =====
-- Which bytes of a region the chunks of debug_queue.c cover.
use cleanq_linux.Base.{
  ℕ, ◌+◌, ◌<◌, ◌≤◌, ◌≡◌, refl, ◌↔◌, inl, inr, Bool, true, false, not, ◌&&◌, ◌||◌, [], ◌∷◌, ◌++◌,
  arith, ltb, leb, Bool-cases,
}
use cleanq_linux.Chunks.Linked.{chunk, Chunks}
use cleanq_linux.Chunks.Carve.{Inside, carve}

ltb_lt : (a b : ℕ) → ltb a b ≡ true → a < b
ltb_lt a b h = ground arith

-- whether `x` is one of the `length` bytes from `offset`
abbrev pub covers : ℕ → ℕ → ℕ → Bool
covers offset length x = leb offset x && ltb x (offset + length)

unfoldable pub owns : Chunks → ℕ → Bool
owns [] x = false
owns (c ∷ cs) x = covers c.offset c.length x || owns cs x

-- The chunks stand in the order of their offsets, from `from` on, and do not overlap.
unfoldable pub Sorted : ℕ → Chunks → Type 0
Sorted from [] = Unit {0}
Sorted from (c ∷ cs) = (from ≤ c.offset) × Sorted (c.offset + c.length) cs

pub owns-append : (cs ds : Chunks) (x : ℕ) → owns (cs ++ ds) x ≡ (owns cs x || owns ds x)
unfolding owns
owns-append [] ds x = refl
owns-append (c ∷ cs) ds x = ground (arith, owns-append cs ds x)

-- the end of the list
unfoldable pub end : ℕ → Chunks → ℕ
end from [] = from
end from (c ∷ cs) = end (c.offset + c.length) cs

pub Sorted-append :
    (from : ℕ) (cs ds : Chunks)
    → Sorted from (cs ++ ds) ↔ (Sorted from cs × Sorted (end from cs) ds)
unfolding Sorted end
Sorted-append from [] ds = (λ s. (tt, s), λ s. s.1)
Sorted-append from (c ∷ cs) ds =
    let rest = Sorted-append (c.offset + c.length) cs ds in
    (λ s. let r = rest.0 (s.1) in ((s.0, r.0), r.1), λ s. (s.0.0, rest.1 (s.0.1, s.1)))

pub Sorted-weaken : {from lower : ℕ} (cs : Chunks) → lower ≤ from → Sorted from cs → Sorted lower cs
unfolding Sorted
Sorted-weaken [] h s = tt
Sorted-weaken (c ∷ cs) h s = (omega (arith, s.0), s.1)

pub end-le : (from : ℕ) (cs : Chunks) → Sorted from cs → from ≤ end from cs
unfolding Sorted end
end-le from [] s = omega arith
end-le from (c ∷ cs) s = omega (arith, s.0, end-le (c.offset + c.length) cs (s.1))

-- no byte below the beginning of a sorted list belongs to it, none behind its end
owns-below : (from : ℕ) (cs : Chunks) (x : ℕ) → Sorted from cs → x < from → owns cs x ≡ false
unfolding Sorted owns
owns-below from [] x s h = refl
owns-below from (c ∷ cs) x s h =
    let later : x < c.offset + c.length = omega (arith, s.0) in
    ground (arith, owns-below (c.offset + c.length) cs x (s.1) later, s.0)

pub owns-behind :
    (from : ℕ) (cs : Chunks) (x : ℕ) → Sorted from cs → end from cs ≤ x → owns cs x ≡ false
unfolding Sorted owns end
owns-behind from [] x s h = refl
owns-behind from (c ∷ cs) x s h =
    let here : c.offset + c.length ≤ x = omega (arith, end-le (c.offset + c.length) cs (s.1)) in
    ground (arith, owns-behind (c.offset + c.length) cs x (s.1) h)

-- A byte of a chunk of a sorted list belongs to no other chunk.
pub owns-elsewhere :
    (from : ℕ) (xs ys : Chunks) (p o l x : ℕ)
    → Sorted from (xs ++ chunk p o l ∷ ys)
    → o ≤ x
    → x < o + l
    → (owns xs x ≡ false) × (owns ys x ≡ false)
unfolding Sorted
owns-elsewhere from xs ys p o l x s h k =
    let parts = (Sorted-append from xs (chunk p o l ∷ ys)).0 s in
    (
      owns-behind from xs x (parts.0) (omega (arith, parts.1.0)),
      owns-below (o + l) ys x (parts.1.1) k,
    )

module _ (xs ys : Chunks) (p o l b offset length : ℕ) (i : Inside o l offset length) where
  owns-carve :
      (x : ℕ)
      → owns (carve p o l offset length b) x ≡ (covers o l x && not (covers offset length x))
  unfolding owns carve
  owns-carve x = ground (arith, i.from, i.to)

  -- Cutting a buffer out of a chunk takes the bytes of the buffer from those owned, and no other.
  pub owns-cut :
      (from x : ℕ)
      → Sorted from (xs ++ chunk p o l ∷ ys)
      → owns (xs ++ (carve p o l offset length b ++ ys)) x
        ≡ (owns (xs ++ chunk p o l ∷ ys) x && not (covers offset length x))
  unfolding owns
  owns-cut from x s =
      rw
        (
          owns-append xs (carve p o l offset length b ++ ys) x,
          owns-append (carve p o l offset length b) ys x,
          owns-append xs (chunk p o l ∷ ys) x,
          owns-carve x,
        )
        (elim (Bool-cases (covers offset length x)) [
          | inl cut ↦
              let e =
                owns-elsewhere from xs ys p o l x s (ground (arith, i.from))
                  (ground (arith, i.to)) in
              rw (cut, e.0, e.1) (ground arith)
          | inr kept ↦ rw kept (ground arith)
        ])

  -- What is left is sorted.
  pub Sorted-cut :
      (from : ℕ)
      → Sorted from (xs ++ chunk p o l ∷ ys)
      → Sorted from (xs ++ (carve p o l offset length b ++ ys))
  unfolding Sorted carve end
  Sorted-cut from s =
      let parts = (Sorted-append from xs (chunk p o l ∷ ys)).0 s in
      (Sorted-append from xs (carve p o l offset length b ++ ys)).1 (parts.0, rest (parts.1))
    where
      rest : {f : ℕ} → Sorted f (chunk p o l ∷ ys) → Sorted f (carve p o l offset length b ++ ys)
      rest s = elim (Bool-cases (ltb o offset)) [
        | inl left ↦ elim (Bool-cases (ltb (offset + length) (o + l))) [
          | inl right ↦
              rw (left, right) (s.0, (ground arith, Sorted-weaken ys (ground (arith, i.to)) (s.1)))
          | inr all ↦ rw (left, all) (s.0, Sorted-weaken ys (ground (arith, i.to)) (s.1))
        ]
        | inr none ↦ elim (Bool-cases (ltb (offset + length) (o + l))) [
          | inl right ↦
              rw (none, right)
                (ground (arith, s.0, i.from), Sorted-weaken ys (ground (arith, i.to)) (s.1))
          | inr all ↦ rw (none, all) (Sorted-weaken ys (omega (arith, s.0, i.range)) (s.1))
        ]
      ]

pub end-append : (from : ℕ) (cs ds : Chunks) → end from (cs ++ ds) ≡ end (end from cs) ds
unfolding end
end-append from [] ds = refl
end-append from (c ∷ cs) ds = end-append (c.offset + c.length) cs ds

end_mono : (from later : ℕ) (cs : Chunks) → from ≤ later → end from cs ≤ end later cs
unfolding end
end_mono from later [] h = h
end_mono from later (c ∷ cs) h = omega arith

end-carve :
    (p o l offset length b from : ℕ)
    → from ≤ o
    → offset + length ≤ o + l
    → end from (carve p o l offset length b) ≤ o + l
unfolding end carve
end-carve p o l offset length b from h k = elim (Bool-cases (ltb o offset)) [
  | inl left ↦ elim (Bool-cases (ltb (offset + length) (o + l))) [
    | inl right ↦ rw (left, right) (omega (arith, ltb_lt (offset + length) (o + l) right))
    | inr all ↦ rw (left, all) (omega (arith, ltb_lt o offset left))
  ]
  | inr first ↦ elim (Bool-cases (ltb (offset + length) (o + l))) [
    | inl right ↦ rw (first, right) (omega (arith, ltb_lt (offset + length) (o + l) right))
    | inr all ↦ rw (first, all) (omega arith)
  ]
]

-- The end of the list does not grow by a cut.
pub end-cut :
    (xs ys : Chunks) (p o l b offset length from : ℕ)
    → Inside o l offset length
    → Sorted from (xs ++ chunk p o l ∷ ys)
    → end from (xs ++ (carve p o l offset length b ++ ys)) ≤ end from (xs ++ chunk p o l ∷ ys)
unfolding Sorted end
end-cut xs ys p o l b offset length from i s =
    let parts = (Sorted-append from xs (chunk p o l ∷ ys)).0 s in
    rw
      (
        end-append from xs (carve p o l offset length b ++ ys),
        end-append (end from xs) (carve p o l offset length b) ys,
        end-append from xs (chunk p o l ∷ ys),
      )
      (end_mono (end (end from xs) (carve p o l offset length b)) (o + l) ys
        (end-carve p o l offset length b (end from xs) (parts.1.0) (i.to)))
