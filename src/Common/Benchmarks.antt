-- ===== src/Common/Benchmarks.antt =====
-- source/common/benchmarks.c: the statistics of the runs. `now` is an argument of its callers.
pub mod Laws
use ipc_bench.Prelude.{ℕ, ◌^◌, ◌-◌, ltb, if◌then◌else◌, add64, sub64, mul64}

-- `struct Benchmarks`; every field is a `bench_t`.
pub record Benchmarks : Type 0 where
  pub total_start : ℕ
  pub single_start : ℕ
  pub minimum : ℕ
  pub maximum : ℕ
  pub sum : ℕ
  pub squared_sum : ℕ

abbrev pub int32_max : ℕ
int32_max = 2 ^ 31 - 1

-- All fields but `single_start`.
unfoldable pub setup_benchmarks : ℕ → Benchmarks → Benchmarks
setup_benchmarks now bench = record bench {
  minimum = int32_max;
  maximum = 0;
  sum = 0;
  squared_sum = 0;
  total_start = now;
}

-- The end of one measurement.
unfoldable pub benchmark : ℕ → Benchmarks → Benchmarks
benchmark now bench =
    let time = sub64 now bench.single_start in
    record bench {
      minimum = if ltb time bench.minimum then time else bench.minimum;
      maximum = if ltb bench.maximum time then time else bench.maximum;
      sum = add64 bench.sum time;
      squared_sum = add64 bench.squared_sum (mul64 time time);
    }
