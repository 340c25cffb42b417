-- ===== src/Bench.antt =====
-- cleanq/utils/bench.c: the results of benchmark runs. `calloc`'s outcomes and the values of the
-- cycle counter are arguments. `bench_ctl_dump_analysis`, which prints floating-point numbers, is
-- left out.
mod Arrays
pub mod Runs
mod Tests
use Prim.Native.Nat.{Ordering}
use cleanq_linux.Base.{
  ℕ, zero, suc, ◌+◌, ◌-◌, ◌*◌, ◌/◌, ◌^◌, Bool, true, false, ◌&&◌, Option, none, some, List, [], ◌∷◌,
  length, get_elem?, set, replicate, Run, done, crash, ◌>>=◌, ◌>>◌, assert, or_crash, ltb, ◌==◌,
  if◌then◌else◌,
}
use cleanq_linux.Types.{u64}

-- `bench_ctl_t`; `result_data` is its field `data`
pub record BenchCtl : Type 0 where
  pub result_dimensions : ℕ
  pub min_runs : ℕ
  pub result_count : ℕ
  pub result_data : List ℕ

-- The variables of the file: `tsc_overhead`, and `bench_is_initialized`.
pub record Clock : Type 0 where
  pub tsc_overhead : ℕ
  pub bench_is_initialized : Bool

-- the first and the last of the 1001 values that are read
unfoldable pub measure_tsc : ℕ → ℕ → ℕ
measure_tsc begin end = u64 (end + (2 ^ 64 - u64 begin)) / 1000

unfoldable pub bench_init : ℕ → ℕ → Clock → Clock
bench_init begin end c =
    if c.bench_is_initialized
    then c
    else record { tsc_overhead = measure_tsc begin end; bench_is_initialized = true }

unfoldable pub bench_tscoverhead : ℕ → ℕ → Clock → ℕ × Clock
bench_tscoverhead begin end c = let c' = bench_init begin end c in (c'.tsc_overhead, c')

-- the sum and the number of the values from index `i` on
unfoldable pub sum_from : List ℕ → ℕ → ℕ × ℕ
sum_from [] i = (0, 0)
sum_from (x ∷ xs) zero = let (sum, count) = sum_from xs zero in (u64 (x + sum), suc count)
sum_from (x ∷ xs) (suc i) = sum_from xs i

-- a division by 0 traps
unfoldable pub div : ℕ → ℕ → Run ℕ
div a b = if b == 0 then crash else done (a / b)

unfoldable pub bench_avg : List ℕ → Run ℕ
bench_avg array = let (sum, count) = sum_from array (length array / 8) in div sum count

-- the 64-bit squares of the distances from the average
unfoldable pub squares : ℕ → List ℕ → List ℕ
squares avg [] = []
squares avg (x ∷ xs) =
    let subsum = u64 (x + (2 ^ 64 - u64 avg)) in u64 (subsum * subsum) ∷ squares avg xs

-- the average and the square of the deviation
unfoldable pub bench_stddev : List ℕ → Bool → Run (ℕ × ℕ)
bench_stddev array correction = do
  avg ← bench_avg array
  let (sum, count) = sum_from (squares avg array) (length array / 8)
  std_dev ← div sum (if correction && ltb 1 count then count - 1 else count)
  done (avg, std_dev)

-- the values of one dimension, from run `i` on
unfoldable pub column : List ℕ → ℕ → ℕ → ℕ → ℕ → Run (List ℕ)
column array dims dimension i zero = done []
column array dims dimension i (suc n) = do
  x ← or_crash (get_elem? array (u64 (dims * i + dimension)))
  xs ← column array dims dimension (suc i) n
  done (x ∷ xs)

unfoldable pub get_array : Bool → BenchCtl → ℕ → Run (List ℕ)
get_array calloc_ok ctl dimension =
    assert calloc_ok >> column ctl.result_data ctl.result_dimensions dimension 0 ctl.result_count

-- -1, 0 and 1
unfoldable pub cycles_comparator : ℕ → ℕ → Ordering
cycles_comparator a b = if a == b then Ordering.eq else if ltb a b then Ordering.lt else Ordering.gt

unfoldable pub bench_ctl_init : Bool → Bool → ℕ → ℕ → Option BenchCtl
bench_ctl_init false data_ok dimensions min_runs = none
bench_ctl_init true false dimensions min_runs = none
bench_ctl_init true true dimensions min_runs = some (record {
  result_dimensions = dimensions;
  min_runs = min_runs;
  result_count = 0;
  result_data = replicate (u64 (min_runs * dimensions)) 0;
})

-- `n` values of `result` are copied to the array from index `dst` on
unfoldable pub memcpy : List ℕ → ℕ → List ℕ → ℕ → Run (List ℕ)
memcpy array dst result zero = done array
memcpy array dst [] (suc n) = crash
memcpy array dst (x ∷ xs) (suc n) =
    let rest = memcpy (set array dst x) (suc dst) xs n in
    if ltb dst (length array) then rest else crash

unfoldable pub bench_ctl_add_run : BenchCtl → List ℕ → Run (Bool × BenchCtl)
bench_ctl_add_run ctl result = if ctl.result_count == ctl.min_runs then done (true, ctl) else (do
  stored ←
      memcpy ctl.result_data (u64 (ctl.result_count * ctl.result_dimensions)) result
        ctl.result_dimensions
  let ctl' : BenchCtl = record ctl {
    result_data = stored;
    result_count = u64 (ctl.result_count + 1);
  }
  done (ctl'.result_count == ctl'.min_runs, ctl'))
