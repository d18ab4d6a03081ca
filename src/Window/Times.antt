-- ===== src/Window/Times.antt =====
-- `updateWriteTimes` and `updateReadWriteTimes`, which the three clients write out alike.
pub mod Laws
use ipc_bench.Prelude.{ℕ, zero, suc, ◌+◌, ◌-◌, List, get_or, set, ltb, if◌then◌else◌, add64, sub64}

-- `for (i = start; i < end; ++i) times[i] = f(times[i])`, with the number of rounds left.
fill_times : (ℕ → ℕ) → ℕ → ℕ → List ℕ → List ℕ
fill_times f zero i times = times
fill_times f (suc rounds) i times = fill_times f rounds (i + 1) (set times i (f (get_or times i 0)))

-- `end`, cut off at the length of the array.
abbrev pub end_index : ℕ → ℕ → ℕ → ℕ
end_index total start num = if ltb total (add64 start num) then total else add64 start num

unfoldable pub update_write_times : ℕ → List ℕ → ℕ → ℕ → ℕ → List ℕ
unfolding fill_times
update_write_times time times total start num =
    if ltb total start
    then times
    else fill_times (λ _. time) (end_index total start num - start) start times

unfoldable pub update_read_write_times : ℕ → List ℕ → ℕ → ℕ → ℕ → List ℕ
unfolding fill_times
update_read_write_times time times total start num =
    if ltb total start
    then times
    else fill_times (λ sent. sub64 time sent) (end_index total start num - start) start times
