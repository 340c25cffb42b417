-- ===== src/Base/Outcome.antt =====
-- How a C function ends. `crash` stands for a failed `assert` and for an access through a null
-- pointer or outside an array; `hang` for a loop or a recursion that used up its fuel.

use mathlib.Core.Path.{◌≡◌}
use mathlib.Core.Bool.{Bool, true, false}
use mathlib.Core.Option.{Option, none, some}

pub data Run {ℓ} (A : Type ℓ) : Type ℓ where
  done : A → Run A
  crash : Run A
  hang : Run A

infixl 5 ◌>>=◌ ◌>>◌
abbrev pub ◌>>=◌ {ℓ κ} : {A : Type ℓ} {B : Type κ} → Run A → (A → Run B) → Run B
done a >>= f = f a
crash >>= f = crash
hang >>= f = hang

abbrev pub ◌>>◌ {ℓ} : {B : Type ℓ} → Run (Unit {0}) → Run B → Run B
m >> k = m >>= λ _. k

-- `assert(b)`
abbrev pub assert : Bool → Run (Unit {0})
assert true = done tt
assert false = crash

-- an access that finds nothing behind the pointer or the index
abbrev pub or_crash {ℓ} : {A : Type ℓ} → Option A → Run A
or_crash none = crash
or_crash (some a) = done a

-- the run ends, in a value that satisfies `P`
abbrev pub Returns {ℓ κ} : {A : Type ℓ} → Run A → (A → Type κ) → Type (ℓ ⊔ κ)
Returns {A} r P = (a : A) × (r ≡ done a) × P a

pub weaken_Returns {ℓ κ μ} :
    {A : Type ℓ} {r : Run A} {P : A → Type κ} {Q : A → Type μ}
    → Returns r P
    → ((a : A) → P a → Q a)
    → Returns r Q
weaken_Returns (a, run, p) f = (a, run, f a p)
