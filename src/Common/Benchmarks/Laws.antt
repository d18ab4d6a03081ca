-- ===== src/Common/Benchmarks/Laws.antt =====
-- What a sequence of measurements leaves in `struct Benchmarks`.
use ipc_bench.Prelude.{
  ℕ, ◌+◌, ◌*◌, ◌%◌, ◌^◌, ◌<◌, ◌≡◌, ◌∙◌, ap, List, [], ◌∷◌, arith, min, max, sub64,
}
use ipc_bench.Common.Benchmarks.{Benchmarks, int32_max, setup_benchmarks, benchmark}

-- A measurement: the clock at `bench.single_start = now()` and in `benchmark`.
abbrev pub Sample : Type 0
Sample = ℕ × ℕ

abbrev pub elapsed : Sample → ℕ
elapsed (from, to) = sub64 to from

-- The loop of a server: `bench.single_start = now(); ...; benchmark(&bench);` for each message.
unfoldable pub measure : List Sample → Benchmarks → Benchmarks
measure [] bench = bench
measure ((from, to) ∷ samples) bench =
    measure samples (benchmark to (record bench { single_start = from }))

abbrev pub minimum_of : ℕ → List Sample → ℕ
minimum_of least [] = least
minimum_of least (s ∷ samples) = minimum_of (min least (elapsed s)) samples

abbrev pub maximum_of : List Sample → ℕ
maximum_of [] = 0
maximum_of (s ∷ samples) = max (elapsed s) (maximum_of samples)

abbrev pub sum_of : (ℕ → ℕ) → List Sample → ℕ
sum_of f [] = 0
sum_of f (s ∷ samples) = f (elapsed s) + sum_of f samples

measure_lem :
    (samples : List Sample) (bench : Benchmarks)
    → bench.sum < 2 ^ 64
    → bench.squared_sum < 2 ^ 64
    → let b = measure samples bench in
      (b.minimum ≡ minimum_of bench.minimum samples)
      × (b.maximum ≡ max bench.maximum (maximum_of samples))
      × (b.sum ≡ (bench.sum + sum_of (λ time. time) samples) % 2 ^ 64)
      × (b.squared_sum ≡ (bench.squared_sum + sum_of (λ time. time * time) samples) % 2 ^ 64)
      × (b.total_start ≡ bench.total_start)
unfolding measure benchmark
measure_lem [] bench h k = omega arith
measure_lem ((from, to) ∷ samples) bench h k =
    let b = benchmark to (record bench { single_start = from }) in
    let (e₁, e₂, e₃, e₄, e₅) = measure_lem samples b (omega arith) (omega arith) in
    let least : b.minimum ≡ min bench.minimum (elapsed (from, to)) = ground arith in
    let most : b.maximum ≡ max bench.maximum (elapsed (from, to)) = ground arith in
    (
      e₁ ∙ ap (λ m. minimum_of m samples) least,
      omega (arith, e₂, most),
      omega arith,
      omega arith,
      e₅,
    )

-- After `setup_benchmarks` and any number of measurements: the extremes are those of the samples
-- (the least one of them and INT32_MAX), the sums are theirs modulo 2 ^ 64, and the start of the
-- whole run is kept.
pub measure_from_setup :
    (now : ℕ) (samples : List Sample) (bench : Benchmarks)
    → let b = measure samples (setup_benchmarks now bench) in
      (b.minimum ≡ minimum_of int32_max samples)
      × (b.maximum ≡ maximum_of samples)
      × (b.sum ≡ sum_of (λ time. time) samples % 2 ^ 64)
      × (b.squared_sum ≡ sum_of (λ time. time * time) samples % 2 ^ 64)
      × (b.total_start ≡ now)
unfolding setup_benchmarks
measure_from_setup now samples bench =
    let (e₁, e₂, e₃, e₄, e₅) =
      measure_lem samples (setup_benchmarks now bench) (omega arith) (omega arith) in
    (e₁, omega arith, omega arith, omega arith, e₅)
