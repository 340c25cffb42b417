-- ===== src/Bench/Tests.antt =====
-- Runs of cleanq/utils/bench.c.
use cleanq_linux.Base.{
  ℕ, ◌≡◌, ◌<◌, refl, true, false, some, List, [], ◌∷◌, map, length, get_elem?, done, crash, Returns,
  arith,
}
use cleanq_linux.Bench.{
  BenchCtl, Clock, bench_init, bench_tscoverhead, bench_avg, bench_stddev, bench_ctl_init,
  bench_ctl_add_run, get_array, cycles_comparator, memcpy, column, div, sum_from, squares,
  measure_tsc,
}
use cleanq_linux.Bench.Arrays.{IsUniform}
use cleanq_linux.Bench.Runs.{add_runs, bench_ctl_add_run-get_array}
use Prim.Native.Nat.{Ordering}

abbrev two_runs : List (List ℕ)
two_runs = (5 ∷ 6 ∷ []) ∷ (7 ∷ 8 ∷ []) ∷ []

abbrev with_two : BenchCtl
with_two = record {
  result_dimensions = 2;
  min_runs = 3;
  result_count = 2;
  result_data = 5 ∷ 6 ∷ 7 ∷ 8 ∷ 0 ∷ 0 ∷ [];
}

last_run :
    bench_ctl_add_run with_two (9 ∷ 10 ∷ [])
    ≡ done (true, record with_two { result_count = 3; result_data = 5 ∷ 6 ∷ 7 ∷ 8 ∷ 9 ∷ 10 ∷ [] })
unfolding bench_ctl_add_run memcpy
last_run = refl

second_column : get_array true with_two 1 ≡ done (6 ∷ 8 ∷ [])
unfolding get_array column
second_column = refl

-- the first of the eight values is left out
average : bench_avg (100 ∷ 2 ∷ 4 ∷ 6 ∷ 8 ∷ 10 ∷ 12 ∷ 14 ∷ []) ≡ done 8
unfolding bench_avg div sum_from
average = refl

average_of_nothing : bench_avg [] ≡ crash
unfolding bench_avg div sum_from
average_of_nothing = refl

deviation : bench_stddev (2 ∷ 4 ∷ 6 ∷ []) false ≡ done (4, 2)
unfolding bench_stddev bench_avg div sum_from squares
deviation = refl

corrected : bench_stddev (2 ∷ 4 ∷ 6 ∷ []) true ≡ done (4, 4)
unfolding bench_stddev bench_avg div sum_from squares
corrected = refl

abbrev not_initialized : Clock
not_initialized = record { tsc_overhead = 0; bench_is_initialized = false }

-- measured once
overhead :
    bench_tscoverhead 0 9000 (bench_init 500 25500 not_initialized)
    ≡ (25, record { tsc_overhead = 25; bench_is_initialized = true })
unfolding bench_tscoverhead bench_init measure_tsc
overhead = refl

smaller : cycles_comparator 3 4 ≡ Ordering.lt
unfolding cycles_comparator
smaller = refl

bench_ctl_add_run-get_array_example :
    (ctl : BenchCtl) × (bench_ctl_init true true 2 3 ≡ some ctl)
    × Returns (add_runs ctl two_runs) (λ ctl'.
      (ctl'.result_count ≡ length two_runs)
      × ((d : ℕ)
          → d < 2
          → Returns
              (get_array true ctl' d)
              (λ vs. map some vs ≡ map (λ r. get_elem? r d) two_runs)))
unfolding IsUniform
bench_ctl_add_run-get_array_example =
    bench_ctl_add_run-get_array 2 3 two_runs (refl, (refl, tt)) (omega arith) (omega arith)
      (omega arith)
