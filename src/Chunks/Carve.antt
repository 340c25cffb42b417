-- ===== src/Chunks/Carve.antt =====
-- What is left of a chunk without the buffer cut out of it, and 64-bit arithmetic inside a chunk.
use cleanq_linux.Base.{
  ℕ, ◌+◌, ◌-◌, ◌<◌, ◌≤◌, ◌^◌, ◌≡◌, true, false, [], ◌∷◌, ◌++◌, arith, ltb, ◌↔◌, if◌then◌else◌,
}
use cleanq_linux.Types.{u64}
use cleanq_linux.Chunks.{sub64, buffer_in_bounds}
use cleanq_linux.Chunks.Linked.{chunk, Chunks}

pub u64_small : {x : ℕ} → x < 2 ^ 64 → u64 x ≡ x
u64_small h = omega arith

pub sub64_small : {a b : ℕ} → b ≤ a → a < 2 ^ 64 → sub64 a b ≡ a - b
sub64_small h k = omega arith

-- the buffer lies in the chunk, and the chunk in the 64-bit range
pub record Inside (o l offset length : ℕ) : Type 0 where
  pub from : o ≤ offset
  pub to : offset + length ≤ o + l
  pub some_byte : 0 < length
  pub range : o + l < 2 ^ 64

-- the part before the buffer stays at `p`; the part behind it is at `b` if there are both
abbrev pub left_part : ℕ → ℕ → ℕ → Chunks
left_part p o offset = if ltb o offset then chunk p o (offset - o) ∷ [] else []

abbrev pub right_part : ℕ → ℕ → ℕ → Chunks
right_part q end stop = if ltb end stop then chunk q end (stop - end) ∷ [] else []

unfoldable pub carve : ℕ → ℕ → ℕ → ℕ → ℕ → ℕ → Chunks
carve p o l offset length b =
    left_part p o offset ++ right_part (if ltb o offset then b else p) (offset + length) (o + l)

-- Without wrap-around, the code's test says that the buffer lies in the chunk.
pub buffer_in_bounds_iff :
    (o l offset length : ℕ)
    → o + l < 2 ^ 64
    → offset + length < 2 ^ 64
    → (buffer_in_bounds offset length o l ≡ true) ↔ ((o ≤ offset) × (offset + length ≤ o + l))
unfolding buffer_in_bounds
buffer_in_bounds_iff o l offset length h k = ground arith

module _ (p o l offset length b : ℕ) where
  pub carve_all : offset ≡ o → length ≡ l → carve p o l offset length b ≡ []
  unfolding carve
  carve_all h k =
      let no_left : ltb o offset ≡ false = ground arith in
      let no_right : ltb (offset + length) (o + l) ≡ false = ground arith in rw (no_left, no_right)

  pub carve_beginning :
      offset ≡ o → length < l → carve p o l offset length b ≡ chunk p (o + length) (l - length) ∷ []
  unfolding carve
  carve_beginning h k =
      let no_left : ltb o offset ≡ false = ground arith in
      let right : ltb (offset + length) (o + l) ≡ true = ground arith in
      let end : offset + length ≡ o + length = omega arith in
      let rest : o + l - (offset + length) ≡ l - length = omega arith in
      rw (no_left, right, rest, end)

  pub carve_end :
      o < offset
      → offset + length ≡ o + l
      → carve p o l offset length b ≡ chunk p o (l - length) ∷ []
  unfolding carve
  carve_end h k =
      let left : ltb o offset ≡ true = ground arith in
      let no_right : ltb (offset + length) (o + l) ≡ false = ground arith in
      let rest : offset - o ≡ l - length = omega arith in rw (left, no_right, rest)

  pub carve_middle :
      o < offset
      → offset + length < o + l
      → carve p o l offset length b
        ≡ chunk p o (offset - o) ∷ chunk b (offset + length) (o + l - (offset + length)) ∷ []
  unfolding carve
  carve_middle h k =
      let left : ltb o offset ≡ true = ground arith in
      let right : ltb (offset + length) (o + l) ≡ true = ground arith in rw (left, right)
