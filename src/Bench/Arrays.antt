-- ===== src/Bench/Arrays.antt =====
-- The arrays of cleanq/utils/bench.c: copying a run behind the others, and reading one dimension.
use mathlib.Core.List.{append_assoc}
use cleanq_linux.Base.{
  ℕ, zero, suc, ◌+◌, ◌*◌, ◌<◌, ◌≤◌, ◌^◌, ◌≡◌, refl, sym, ap, ◌∙◌, true, some, List, [], ◌∷◌, ◌++◌,
  map, length, get_elem?, set, replicate, done, Returns, arith, ltb, length-append, get_elem?-of_lt,
}
use cleanq_linux.Types.{u64}
use cleanq_linux.Bench.{memcpy, column}

set-append :
    (xs : List ℕ) (y : ℕ) (ys : List ℕ) (v : ℕ) → set (xs ++ y ∷ ys) (length xs) v ≡ xs ++ v ∷ ys
set-append [] y ys v = refl
set-append (x ∷ xs) y ys v = ap (λ t. x ∷ t) (set-append xs y ys v)

get_elem?-behind : (xs ys : List ℕ) (k : ℕ) → get_elem? (xs ++ ys) (length xs + k) ≡ get_elem? ys k
get_elem?-behind [] ys k = let start : 0 + k ≡ k = omega arith in ap (get_elem? ys) start
get_elem?-behind (x ∷ xs) ys k =
    let next : suc (length xs) + k ≡ suc (length xs + k) = omega arith in
    ap (get_elem? (x ∷ (xs ++ ys))) next ∙ get_elem?-behind xs ys k

get_elem?-front : (xs ys : List ℕ) (k : ℕ) → k < length xs → get_elem? (xs ++ ys) k ≡ get_elem? xs k
get_elem?-front [] ys k h = absurd (omega arith)
get_elem?-front (x ∷ xs) ys zero h = refl
get_elem?-front (x ∷ xs) ys (suc k) h = get_elem?-front xs ys k (omega arith)

-- the values of `vs` take the place of as many others
pub memcpy-append :
    (xs vs : List ℕ) (m : ℕ)
    → memcpy (xs ++ replicate (length vs + m) 0) (length xs) vs (length vs)
      ≡ done (xs ++ (vs ++ replicate m 0))
unfolding memcpy
memcpy-append xs [] m =
    let start : 0 + m ≡ m = omega arith in ap (λ n. done (xs ++ replicate n 0)) start
memcpy-append xs (v ∷ vs) m =
    let inside : ltb (length xs) (length (xs ++ 0 ∷ replicate (length vs + m) 0)) ≡ true =
      ground (arith, length-append xs (0 ∷ replicate (length vs + m) 0)) in
    let more : suc (length vs) + m ≡ suc (length vs + m) = omega arith in
    let next : length (xs ++ v ∷ []) ≡ suc (length xs) = omega (arith, length-append xs (v ∷ [])) in
    let rest : memcpy (xs ++ v ∷ replicate (length vs + m) 0) (suc (length xs)) vs (length vs)
        ≡ done (xs ++ v ∷ (vs ++ replicate m 0)) =
      rw
        (
          sym next,
          sym (append_assoc xs (v ∷ []) (replicate (length vs + m) 0)),
          memcpy-append (xs ++ v ∷ []) vs m,
          append_assoc xs (v ∷ []) (vs ++ replicate m 0),
        )
        refl in
    rw (more, inside, set-append xs 0 (replicate (length vs + m) 0) v) rest

-- the runs one after another
unfoldable pub side_by_side : List (List ℕ) → List ℕ
side_by_side [] = []
side_by_side (r ∷ rs) = r ++ side_by_side rs

-- every run has a value for each dimension
unfoldable pub IsUniform : ℕ → List (List ℕ) → Type 0
IsUniform dims [] = Unit
IsUniform dims (r ∷ rs) = (length r ≡ dims) × IsUniform dims rs

pub length-side_by_side :
    (dims : ℕ) (rs : List (List ℕ))
    → IsUniform dims rs
    → length (side_by_side rs) ≡ length rs * dims
unfolding side_by_side IsUniform
length-side_by_side dims [] all = omega arith
length-side_by_side dims (r ∷ rs) (r_dims, all) =
    omega (arith, length-append r (side_by_side rs), r_dims, length-side_by_side dims rs all)

-- The values of a dimension, read behind `i` runs.
pub column-side_by_side :
    (dims d i : ℕ) (xs tail : List ℕ) (rs : List (List ℕ))
    → d < dims
    → IsUniform dims rs
    → length xs ≡ dims * i
    → length xs + length rs * dims ≤ 2 ^ 64
    → Returns
        (column (xs ++ (side_by_side rs ++ tail)) dims d i (length rs))
        (λ vs. map some vs ≡ map (λ r. get_elem? r d) rs)
unfolding side_by_side IsUniform column
column-side_by_side dims d i xs tail [] small all start bound = ([], refl, refl)
column-side_by_side dims d i xs tail (r ∷ rs) small (r_dims, all) start bound =
    let (x, found) = get_elem?-of_lt r d (omega (arith, r_dims, small)) in
    let apart : (xs ++ r) ++ (side_by_side rs ++ tail) ≡ xs ++ ((r ++ side_by_side rs) ++ tail) =
      append_assoc xs r (side_by_side rs ++ tail)
      ∙ ap (λ t. xs ++ t) (sym (append_assoc r (side_by_side rs) tail)) in
    let (vs, rest, same) =
      column-side_by_side dims d (suc i) (xs ++ r) tail rs small all
        (omega (arith, length-append xs r, r_dims, start))
        (omega (arith, length-append xs r, r_dims, bound)) in
    let index : u64 (dims * i + d) ≡ length xs + d = omega (arith, start, bound, small) in
    let there : get_elem? (xs ++ ((r ++ side_by_side rs) ++ tail)) (u64 (dims * i + d)) ≡ some x =
      rw
        (
          index,
          get_elem?-behind xs ((r ++ side_by_side rs) ++ tail) d,
          append_assoc r (side_by_side rs) tail,
          get_elem?-front r (side_by_side rs ++ tail) d (omega (arith, r_dims, small)),
        )
        found in
    let onward : column (xs ++ ((r ++ side_by_side rs) ++ tail)) dims d (suc i) (length rs)
        ≡ done vs =
      ap (λ array. column array dims d (suc i) (length rs)) (sym apart) ∙ rest in
    (x ∷ vs, rw (there, onward) refl, rw (found, same) refl)
