-- ===== src/Threads/Tests.antt =====
-- A run of `recursive_add` on one element to its end, a state of ten elements with two threads, and the
-- theorems at them.
use ipc_bench.Prelude.{ℕ, suc, ◌+◌, ◌*◌, ◌%◌, ◌^◌, ◌≤◌, ◌≡◌, ◌⊎◌, refl, true, false}
use ipc_bench.Threads.{Thread, Step, Reach, start, next, parallel_add, recursive_add}
use ipc_bench.Threads.Invariant.{inside, slice}
use ipc_bench.Threads.Progress.{CanStep, length_of}
use ipc_bench.Threads.Safety.{recursive_add-eq-sum}

-- `int array[10] = {1, 2, ...}`
abbrev array : ℕ → ℕ
array i = suc i

one : Reach array (recursive_add 1) false 1 Thread.finished
one =
    next
      (next
        (next
          (next
            (next (next (next start (Step.few false 0 0 1 refl)) (Step.enter false 0 0 1 refl))
              (Step.lock 0 0 1))
            (Step.read true 0 0 1))
          (Step.write true 0 0 1 0))
        (Step.unlock true 1 0 1))
      (Step.leave false 1 1 1 refl)

recursive_add-eq-sum_example :
    (inside Thread.finished ≤ 1)
    × (((Thread.finished ≡ Thread.finished) × (1 ≡ slice array 0 1 % 2 ^ 32))
        ⊎ CanStep array false 1 Thread.finished)
    × (length_of one ≤ 10 * 1 + 2)
recursive_add-eq-sum_example = recursive_add-eq-sum array 1 one

halves :
    Reach array (parallel_add 5 10) true 0 (Thread.both (Thread.reading 0 5) (Thread.locking 5 10))
halves =
    next
      (next (next start (Step.first_step (Thread.loop 5 10) (Step.enter false 0 0 5 refl)))
        (Step.first_step (Thread.loop 5 10) (Step.lock 0 0 5)))
      (Step.second_step (Thread.reading 0 5) (Step.enter true 0 5 10 refl))

all_ten : slice array 0 10 ≡ 55
all_ten = refl
