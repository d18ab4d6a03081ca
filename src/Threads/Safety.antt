-- ===== src/Threads/Safety.antt =====
-- The sum that the threads come to.
use mathlib.Core.Path.{subst}
use ipc_bench.Prelude.{
  ℕ, ◌+◌, ◌-◌, ◌*◌, ◌%◌, ◌^◌, ◌≤◌, ◌<◌, ◌≡◌, ◌⊎◌, inl, inr, refl, sym, Bool, arith,
}
use ipc_bench.Threads.{Thread, Reach, parallel_add, recursive_add}
use ipc_bench.Threads.Invariant.{inside, slice, slice_add, count_of-le, pending, Reach-Inv}
use ipc_bench.Threads.Progress.{CanStep, steps, length_of, Reach-le}

sum_at_end :
    (array : ℕ → ℕ) (sum : ℕ) (t : Thread) (total : ℕ)
    → t ≡ Thread.finished
    → (sum + pending array t) % 2 ^ 32 ≡ total % 2 ^ 32
    → sum < 2 ^ 32
    → sum ≡ total % 2 ^ 32
sum_at_end array sum t total e whole small =
    let none_left : pending array t ≡ 0 = rw e refl in omega (arith, none_left, whole, small)

recursive_total : (array : ℕ → ℕ) (n : ℕ) → pending array (recursive_add n) ≡ slice array 0 n
recursive_total array n = let e : n - 0 ≡ n = omega arith in rw e refl

parallel_total :
    (array : ℕ → ℕ) (half n : ℕ) → half ≤ n → pending array (parallel_add half n) ≡ slice array 0 n
parallel_total array half n h =
    let none_before : half - 0 ≡ half = omega arith in
    let whole : half + (n - half) ≡ n = omega arith in
    let at : 0 + half ≡ half = omega arith in
    rw none_before (
      sym (
        subst (λ m. slice array 0 m ≡ slice array 0 half + slice array half (n - half)) whole
          (subst
            (λ k. slice array 0 (half + (n - half)) ≡ slice array 0 half + slice array k (n - half))
            at (slice_add array 0 half (n - half)))))

module _ (array : ℕ → ℕ) (n : ℕ) {held : Bool} {sum : ℕ} {t : Thread} where
  -- In every interleaving of `recursive_add` at most one thread is between lock and unlock; a state in
  -- which some thread is left can go on; a run has at most 10 * n + 2 steps; and when all threads are
  -- finished the sum is that of the `n` elements (as an `int`).
  pub recursive_add-eq-sum :
      (r : Reach array (recursive_add n) held sum t)
      → (inside t ≤ 1)
        × (((t ≡ Thread.finished) × (sum ≡ slice array 0 n % 2 ^ 32)) ⊎ CanStep array held sum t)
        × (length_of r ≤ 10 * n + 2)
  recursive_add-eq-sum r =
      let (agree, fresh, whole, small) = Reach-Inv array refl r in
      (
        omega (arith, count_of-le held),
        elim (steps array held sum t agree) [
          | inl e ↦ inl (
            e,
            sum_at_end array sum t (slice array 0 n) e (rw (← recursive_total array n) whole) small,
          )
          | inr c ↦ inr c
        ],
        ground (arith, Reach-le array r),
      )

  -- The same of `parallel_add`, whose first thread gets `half` of the elements.
  pub parallel_add-eq-sum :
      (half : ℕ)
      → half ≤ n
      → (r : Reach array (parallel_add half n) held sum t)
      → (inside t ≤ 1)
        × (((t ≡ Thread.finished) × (sum ≡ slice array 0 n % 2 ^ 32)) ⊎ CanStep array held sum t)
        × (length_of r ≤ 6 * n + 3)
  parallel_add-eq-sum half h r =
      let (agree, fresh, whole, small) = Reach-Inv array refl r in
      (
        omega (arith, count_of-le held),
        elim (steps array held sum t agree) [
          | inl e ↦ inl (
            e,
            sum_at_end array sum t (slice array 0 n) e (rw (← parallel_total array half n h) whole)
                small,
          )
          | inr c ↦ inr c
        ],
        omega (arith, Reach-le array r),
      )
