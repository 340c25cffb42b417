-- ===== src/Fifo.antt =====
-- What a queue backend promises: a bounded first-in, first-out queue, oldest element first; and
-- the view of a ring as the elements between two positions.
use cleanq_linux.Base.{
  ℕ, zero, suc, ◌+◌, ◌<◌, ◌≡◌, refl, ap, ap₂, ◌∙◌, List, [], ◌∷◌, ◌++◌, length, Option, none, some,
  arith, ◌==◌, if◌then◌else◌,
}
use cleanq_linux.Types.{Errval, ok, queue_empty, queue_full}

module _ {ℓ} {A : Type ℓ} where
  unfoldable pub push : ℕ → List A → A → Errval × List A
  push capacity q x = if length q == capacity then (queue_full, q) else (ok, q ++ (x ∷ []))

  unfoldable pub pop : List A → Errval × Option A × List A
  pop [] = (queue_empty, none, [])
  pop (x ∷ q) = (ok, some x, q)

  -- what a dequeue's caller finds in its variables: the element, or what stood there before
  abbrev pub delivered : A → Option A → A
  delivered out none = out
  delivered out (some x) = x

  -- the `n` elements that stand at the positions from `t` on
  abbrev pub window : (ℕ → A) → ℕ → ℕ → List A
  window at t zero = []
  window at t (suc n) = at t ∷ window at (t + 1) n

  pub length-window : (at : ℕ → A) (t n : ℕ) → length (window at t n) ≡ n
  length-window at t zero = refl
  length-window at t (suc n) = ap suc (length-window at (t + 1) n)

  pub window_snoc :
      (at : ℕ → A) (t n : ℕ) → window at t (suc n) ≡ window at t n ++ (at (t + n) ∷ [])
  window_snoc at t zero = ap (λ k. at k ∷ []) (omega arith)
  window_snoc at t (suc n) =
      ap (λ l. at t ∷ l)
        (window_snoc at (t + 1) n ∙ ap (λ k. window at (t + 1) n ++ (at k ∷ [])) (omega arith))

  pub window_congr :
      (at at' : ℕ → A) (t t' n : ℕ)
      → ((k : ℕ) → k < n → at (t + k) ≡ at' (t' + k))
      → window at t n ≡ window at' t' n
  window_congr at at' t t' zero h = refl
  window_congr at at' t t' (suc n) h =
      ap₂ ◌∷◌ (ap at (omega arith) ∙ h 0 (omega arith) ∙ ap at' (omega arith)) (
        window_congr at at' (t + 1) (t' + 1) n
          (λ k lt. ap at (omega arith) ∙ h (suc k) (omega arith) ∙ ap at' (omega arith)))
