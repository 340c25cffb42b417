-- ===== src/Bench/Runs.antt =====
-- Benchmark runs are stored side by side, and read back by dimension (cleanq/utils/bench.c).
use mathlib.Core.Path.{subst}
use mathlib.Core.List.{append_assoc, append-nil}
use cleanq_linux.Base.{
  ℕ, suc, ◌+◌, ◌-◌, ◌*◌, ◌<◌, ◌≤◌, ◌^◌, ◌≡◌, refl, sym, ap, ◌∙◌, true, false, some, List, [], ◌∷◌,
  ◌++◌, map, length, get_elem?, replicate, Run, done, ◌>>=◌, Returns, arith, ◌==◌, length-append,
}
use cleanq_linux.Types.{u64}
use cleanq_linux.Bench.{BenchCtl, memcpy, bench_ctl_add_run, bench_ctl_init, get_array}
use cleanq_linux.Bench.Arrays.{
  memcpy-append, side_by_side, IsUniform, length-side_by_side, column-side_by_side,
}

-- the runs `rs` are in the control block, and there is space for `left` more
pub record IsStored (dims left : ℕ) (rs : List (List ℕ)) (ctl : BenchCtl) : Type 0 where
  dimensions : ctl.result_dimensions ≡ dims
  count : ctl.result_count ≡ length rs
  runs : ctl.min_runs ≡ length rs + left
  uniform : IsUniform dims rs
  stored : ctl.result_data ≡ side_by_side rs ++ replicate (left * dims) 0

side_by_side-snoc :
    (rs : List (List ℕ)) (r : List ℕ) → side_by_side (rs ++ r ∷ []) ≡ side_by_side rs ++ (r ++ [])
unfolding side_by_side
side_by_side-snoc [] r = refl
side_by_side-snoc (x ∷ rs) r =
    ap (λ t. x ++ t) (side_by_side-snoc rs r) ∙ sym (append_assoc x (side_by_side rs) (r ++ []))

snoc-IsUniform :
    (dims : ℕ) (rs : List (List ℕ)) (r : List ℕ)
    → IsUniform dims rs
    → length r ≡ dims
    → IsUniform dims (rs ++ r ∷ [])
unfolding IsUniform
snoc-IsUniform dims [] r all r_dims = (r_dims, tt)
snoc-IsUniform dims (x ∷ rs) r (x_dims, all) r_dims = (x_dims, snoc-IsUniform dims rs r all r_dims)

pub bench_ctl_init-IsStored :
    (dims runs : ℕ)
    → runs * dims < 2 ^ 64
    → (ctl : BenchCtl) × (bench_ctl_init true true dims runs ≡ some ctl) × IsStored dims runs [] ctl
unfolding bench_ctl_init side_by_side IsUniform
bench_ctl_init-IsStored dims runs small =
    let whole : u64 (runs * dims) ≡ runs * dims = omega (arith, small) in
    (
      _,
      refl,
      record {
        dimensions = refl;
        count = refl;
        runs = omega arith;
        uniform = tt;
        stored = ap (λ n. replicate n 0) whole;
      },
    )

-- A run goes behind the ones before it; the answer is whether it was the last.
pub bench_ctl_add_run-IsStored :
    (dims left : ℕ) (rs : List (List ℕ)) (r : List ℕ) (ctl : BenchCtl)
    → IsStored dims (suc left) rs ctl
    → length r ≡ dims
    → length rs + suc left < 2 ^ 64
    → (length rs + suc left) * dims < 2 ^ 64
    → Returns
        (bench_ctl_add_run ctl r)
        (λ (last, ctl'). (last ≡ left == 0) × IsStored dims left (rs ++ r ∷ []) ctl')
unfolding bench_ctl_add_run
bench_ctl_add_run-IsStored dims left rs r ctl here r_dims few small =
    let more : (ctl.result_count == ctl.min_runs) ≡ false = ground (arith, here.count, here.runs) in
    let place : u64 (ctl.result_count * ctl.result_dimensions) ≡ length (side_by_side rs) =
      rw (here.count, here.dimensions, length-side_by_side dims rs here.uniform)
        (omega (arith, small)) in
    let room : suc left * dims ≡ length r + left * dims = omega (arith, r_dims) in
    let copied : memcpy ctl.result_data (u64 (ctl.result_count * ctl.result_dimensions)) r
          ctl.result_dimensions
        ≡ done (side_by_side rs ++ (r ++ replicate (left * dims) 0)) =
      rw (place, here.stored, here.dimensions, room, sym r_dims)
        (memcpy-append (side_by_side rs) r (left * length r)) in
    let ctl' : BenchCtl = record ctl {
      result_data = side_by_side rs ++ (r ++ replicate (left * dims) 0);
      result_count = u64 (ctl.result_count + 1);
    } in
    let counted : u64 (ctl.result_count + 1) ≡ length (rs ++ r ∷ []) =
      omega (arith, here.count, few, length-append rs (r ∷ [])) in
    (
      (u64 (ctl.result_count + 1) == ctl.min_runs, ctl'),
      rw (more, copied) refl,
      (
        ground (arith, here.runs, counted, length-append rs (r ∷ [])),
        record {
          dimensions = here.dimensions;
          count = counted;
          runs = omega (arith, here.runs, length-append rs (r ∷ []));
          uniform = snoc-IsUniform dims rs r here.uniform r_dims;
          stored =
              rw
                (
                  side_by_side-snoc rs r,
                  append_assoc (side_by_side rs) (r ++ []) (replicate (left * dims) 0),
                  append_assoc r [] (replicate (left * dims) 0),
                )
                refl;
        },
      ),
    )

-- The runs are added one after the other.
unfoldable pub add_runs : BenchCtl → List (List ℕ) → Run BenchCtl
add_runs ctl [] = done ctl
add_runs ctl (r ∷ rs) = do (last, ctl') ← bench_ctl_add_run ctl r; add_runs ctl' rs

pub add_runs-IsStored :
    (dims left : ℕ) (before rs : List (List ℕ)) (ctl : BenchCtl)
    → IsStored dims (length rs + left) before ctl
    → IsUniform dims rs
    → length before + (length rs + left) < 2 ^ 64
    → (length before + (length rs + left)) * dims < 2 ^ 64
    → Returns (add_runs ctl rs) (IsStored dims left (before ++ rs))
unfolding add_runs IsUniform
add_runs-IsStored dims left before [] ctl here all few small =
    let none_left : 0 + left ≡ left = omega arith in
    (
      ctl,
      refl,
      subst (λ rs. IsStored dims left rs ctl) (sym (append-nil before))
          (subst (λ n. IsStored dims n before ctl) none_left here),
    )
add_runs-IsStored dims left before (r ∷ rs) ctl here (r_dims, all) few small =
    let one : length (r ∷ rs) + left ≡ suc (length rs + left) = omega arith in
    let same : length (before ++ r ∷ []) + (length rs + left)
        ≡ length before + (length (r ∷ rs) + left) =
      omega (arith, length-append before (r ∷ [])) in
    let here' = subst (λ n. IsStored dims n before ctl) one here in
    let ((last, ctl'), added, (was_last, there)) =
      bench_ctl_add_run-IsStored dims (length rs + left) before r ctl here' r_dims
        (omega (arith, few)) (rw (sym one) small) in
    let (end, run, all_there) =
      add_runs-IsStored dims left (before ++ r ∷ []) rs ctl' there all (rw same few)
        (rw same small) in
    (
      end,
      rw (added, run) refl,
      subst (λ rs'. IsStored dims left rs' end) (append_assoc before (r ∷ []) rs) all_there,
    )

-- Every run's value of a dimension is read back.
pub get_array-IsStored :
    (dims left d : ℕ) (rs : List (List ℕ)) (ctl : BenchCtl)
    → IsStored dims left rs ctl
    → d < dims
    → length rs * dims ≤ 2 ^ 64
    → Returns (get_array true ctl d) (λ vs. map some vs ≡ map (λ r. get_elem? r d) rs)
unfolding get_array
get_array-IsStored dims left d rs ctl here d_dims small =
    rw (here.count, here.dimensions, here.stored)
      (column-side_by_side dims d 0 [] (replicate (left * dims) 0) rs d_dims here.uniform
        (omega arith) (omega (arith, small)))

-- `bench_ctl_init`, given memory for a number of runs that is below 2 ^ 64, as is their number of
-- values, returns a control block. It takes up to that many runs with a value for each dimension,
-- without a store outside its array, and counts them. `get_array` of any dimension, given memory,
-- then returns the values of the dimension in the order in which the runs were added.
pub bench_ctl_add_run-get_array :
    (dims runs : ℕ) (rs : List (List ℕ))
    → IsUniform dims rs
    → length rs ≤ runs
    → runs < 2 ^ 64
    → runs * dims < 2 ^ 64
    → (ctl : BenchCtl) × (bench_ctl_init true true dims runs ≡ some ctl)
      × Returns (add_runs ctl rs) (λ ctl'.
        (ctl'.result_count ≡ length rs)
        × ((d : ℕ)
            → d < dims
            → Returns (get_array true ctl' d) (λ vs. map some vs ≡ map (λ r. get_elem? r d) rs)))
bench_ctl_add_run-get_array dims runs rs all fit few small =
    let (ctl, made, fresh) = bench_ctl_init-IsStored dims runs small in
    let split : runs ≡ length rs + (runs - length rs) = omega (arith, fit) in
    let all_runs : 0 + (length rs + (runs - length rs)) ≡ runs = omega (arith, fit) in
    let fresh' = subst (λ n. IsStored dims n [] ctl) split fresh in
    let (ctl', added, there) =
      add_runs-IsStored dims (runs - length rs) [] rs ctl fresh' all (rw all_runs few)
        (rw all_runs small) in
    let bound : length rs * dims ≤ runs * dims = grind (arith, fit) in
    (
      ctl,
      made,
      (
        ctl',
        added,
        (
          there.count,
          λ d d_dims.
              get_array-IsStored dims (runs - length rs) d rs ctl' there d_dims
                (omega (arith, bound, small)),
        ),
      ),
    )
