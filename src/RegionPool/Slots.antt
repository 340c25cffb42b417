-- ===== src/RegionPool/Slots.antt =====
-- Counting the entries of a region pool's table.
use cleanq_linux.Base.{
  ℕ, zero, suc, ◌<◌, ◌≤◌, ◌≡◌, refl, ◌≢◌, ap, [], ◌∷◌, Option, none, some, length, get_elem?, set,
  replicate, arith, ltb, done, true, sym, ◌∙◌, ◌⊎◌, inl, inr, ◌==◌, Bool-cases, get_elem?-set_self,
  get_elem?-set_ne,
}
use cleanq_linux.RegionPool.{RegionRef, Slots, store_slot}

unfoldable pub occupied : Slots → ℕ
occupied [] = 0
occupied (none ∷ slots) = occupied slots
occupied (some r ∷ slots) = suc (occupied slots)

pub occupied-le : (slots : Slots) → occupied slots ≤ length slots
unfolding occupied
occupied-le [] = omega arith
occupied-le (none ∷ slots) = omega (arith, occupied-le slots)
occupied-le (some r ∷ slots) = omega (arith, occupied-le slots)

pub occupied-replicate : (n : ℕ) → occupied (replicate n none) ≡ 0
unfolding occupied
occupied-replicate zero = refl
occupied-replicate (suc n) = occupied-replicate n

-- A table that is not full has an empty slot.
pub empty_slot :
    (slots : Slots)
    → occupied slots < length slots
    → (i : ℕ) × (i < length slots) × (get_elem? slots i ≡ some none)
unfolding occupied
empty_slot [] h = absurd (omega arith)
empty_slot (none ∷ slots) h = (0, omega arith, refl)
empty_slot (some r ∷ slots) h =
    let (i, lt, e) = empty_slot slots (omega arith) in (suc i, omega arith, e)

-- An empty slot shows that the table is not full.
pub not_full :
    (slots : Slots) (i : ℕ) → get_elem? slots i ≡ some none → occupied slots < length slots
unfolding occupied
not_full [] i e = cc
not_full (none ∷ slots) zero e = omega (arith, occupied-le slots)
not_full (some r ∷ slots) zero e = cc
not_full (none ∷ slots) (suc i) e = omega (arith, not_full slots i e)
not_full (some r ∷ slots) (suc i) e = omega (arith, not_full slots i e)

pub occupied-set-some :
    (slots : Slots) (i : ℕ) (r : RegionRef)
    → get_elem? slots i ≡ some none
    → occupied (set slots i (some r)) ≡ suc (occupied slots)
unfolding occupied
occupied-set-some [] i r e = cc
occupied-set-some (none ∷ slots) zero r e = refl
occupied-set-some (some x ∷ slots) zero r e = cc
occupied-set-some (none ∷ slots) (suc i) r e = occupied-set-some slots i r e
occupied-set-some (some x ∷ slots) (suc i) r e = ap suc (occupied-set-some slots i r e)

pub occupied-set-none :
    (slots : Slots) (i : ℕ) (r : RegionRef)
    → get_elem? slots i ≡ some (some r)
    → suc (occupied (set slots i none)) ≡ occupied slots
unfolding occupied
occupied-set-none [] i r e = cc
occupied-set-none (none ∷ slots) zero r e = cc
occupied-set-none (some x ∷ slots) zero r e = refl
occupied-set-none (none ∷ slots) (suc i) r e = occupied-set-none slots i r e
occupied-set-none (some x ∷ slots) (suc i) r e = ap suc (occupied-set-none slots i r e)

pub store_slot-lt :
    (slots : Slots) (i : ℕ) (r : Option RegionRef)
    → i < length slots
    → store_slot slots i r ≡ done (set slots i r)
unfolding store_slot
store_slot-lt slots i r h = let inside : ltb i (length slots) ≡ true = ground arith in rw inside

-- What stands in a table after a region was stored: that region, or what stood there before.
pub set-some-cases :
    (slots : Slots) (j k : ℕ) (r s : RegionRef)
    → j < length slots
    → get_elem? (set slots j (some r)) k ≡ some (some s)
    → ((j ≡ k) × (r ≡ s)) ⊎ ((j ≢ k) × (get_elem? slots k ≡ some (some s)))
set-some-cases slots j k r s inside e = elim (Bool-cases (j == k)) [
  | inl same ↦
      let slot : j ≡ k = ground arith in
      let found = rw slot at (get_elem?-set_self slots j (some r) inside) in inl (slot, cc)
  | inr differ ↦
      let apart : j ≢ k = ground arith in
      inr (apart, sym (get_elem?-set_ne slots j k (some r) apart) ∙ e)
]

-- The region stands somewhere in the table.
abbrev pub Held : Slots → RegionRef → Type 0
Held slots r = (i : ℕ) × (get_elem? slots i ≡ some (some r))
