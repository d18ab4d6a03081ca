-- ===== src/Threads/Interleaved/Tests.antt =====
-- Two runs on an array of two elements with one for the first thread: the broadcast that no thread
-- waits for, and the wait that returns early; and the theorem at the first.
use ipc_bench.Prelude.{ℕ, suc, ◌≤◌, ◌⊎◌, refl, true, false, arith}
use ipc_bench.Threads.Interleaved.{
  FirstPc, SecondPc, State, FirstStep, SecondStep, first_step, second_step, Reach, start, next, Run,
  stay, go_on,
}
use ipc_bench.Threads.Interleaved.Invariant.{inside}
use ipc_bench.Threads.Interleaved.Laws.{CanStep, IsDone, IsStuck, IsLate, interleaved_add_ends}

abbrev array : ℕ → ℕ
array i = suc i

abbrev stuck : State
stuck = record { held = false; sum = 1; i = 1; first = FirstPc.finished; second = SecondPc.waiting }

-- The first thread is done before the second has begun.
abbrev late : State
late = record stuck { second = SecondPc.locking }

late-Reach : Reach array 1 2 false late
late-Reach =
    next
      (next
        (next
          (next (next start (first_step (FirstStep.lock refl refl)))
            (first_step (FirstStep.add_element refl refl)))
          (first_step (FirstStep.leave refl refl)))
        (first_step (FirstStep.unlock refl)))
      (first_step (FirstStep.broadcast refl))

late-Run : Run array 1 2 false late stuck
late-Run =
    go_on (go_on stay (second_step (SecondStep.lock refl refl)))
      (second_step (SecondStep.wait refl))

stuck-IsStuck : IsStuck array 1 2 false stuck
stuck-IsStuck = (refl, refl, refl, refl)

interleaved_add_ends_example :
    (inside stuck ≤ 1)
    × (CanStep array 1 2 false stuck
        ⊎ IsDone array 1 2 false stuck
        ⊎ (IsStuck array 1 2 false stuck × IsLate array 1 2 false late))
interleaved_add_ends_example =
    interleaved_add_ends array 1 2 false (omega arith) late-Reach late-Run

-- The second thread adds both elements before the first thread adds its own again.
twice-Reach :
    Reach array 1 2 true (record {
      held = false;
      sum = 4;
      i = 1;
      first = FirstPc.finished;
      second = SecondPc.finished;
    })
twice-Reach =
    let all_of_second =
      next
        (next
          (next
            (next
              (next
                (next
                  (next (next start (second_step (SecondStep.lock refl refl)))
                    (second_step (SecondStep.wait refl)))
                  (second_step (SecondStep.wake_early refl refl)))
                (second_step (SecondStep.lock_again refl refl)))
              (second_step (SecondStep.add_element refl refl)))
            (second_step (SecondStep.add_element refl refl)))
          (second_step (SecondStep.leave refl refl)))
        (second_step (SecondStep.unlock refl)) in
    next
      (next
        (next
          (next (next all_of_second (first_step (FirstStep.lock refl refl)))
            (first_step (FirstStep.add_element refl refl)))
          (first_step (FirstStep.leave refl refl)))
        (first_step (FirstStep.unlock refl)))
      (first_step (FirstStep.broadcast refl))
