-- ===== src/Common/Clock.antt =====
-- `now` of source/common/benchmarks.c (the branch that is not for macOS): the nanoseconds go through a
-- `double`.
pub mod Laws
use ipc_bench.Prelude.{ℕ, zero, suc, ◌+◌, ◌*◌, ◌/◌, ◌%◌, ◌^◌, ltb, ◌==◌, if◌then◌else◌}

-- The distance of two neighbours among the doubles around `n`: the least power of 2 of which there are
-- fewer than 2 ^ 53 up to `n`. A `uint64_t` needs 11 doublings at most.
unfoldable pub unit_of : ℕ → ℕ → ℕ → ℕ
unit_of zero unit n = unit
unit_of (suc doublings) unit n =
    let rest = unit_of doublings (2 * unit) n in if ltb n (2 ^ 53 * unit) then unit else rest

-- To the nearest multiple of the unit, and to the even one of two.
unfoldable pub nearest : ℕ → ℕ → ℕ
nearest unit n =
    let low = n / unit in
    let rest = n % unit in
    if ltb (2 * rest) unit
    then low * unit
    else if ltb unit (2 * rest)
    then (low + 1) * unit
    else if low % 2 == 0
    then low * unit
    else (low + 1) * unit

-- The double of a number, which is a whole number again.
unfoldable pub to_double : ℕ → ℕ
unfolding unit_of nearest
to_double n = nearest (unit_of 11 1 n) n

-- `ts.tv_sec * 1e9 + ts.tv_nsec`: both operations round.
unfoldable pub now : ℕ → ℕ → ℕ
unfolding to_double
now seconds nanoseconds = to_double (to_double (seconds * 10 ^ 9) + nanoseconds)
