-- ===== src/Prelude/Words.antt =====
-- `size_t`, `bench_t` and the bit patterns of `ssize_t`: numbers below 2 ^ 64, with the wrap-around
-- of the machine written out.
use Prim.Native.Nat.{ℕ, ◌+◌, ◌-◌, ◌*◌, ◌%◌, ◌^◌, ◌<◌}
use mathlib.Core.Path.{◌≡◌}
use mathlib.Core.Bool.{Bool}
use native.Mathlib.Omega.{arith}
use ipc_bench.Prelude.Tests.{ltb}

abbrev pub add64 : ℕ → ℕ → ℕ
add64 a b = (a + b) % 2 ^ 64

-- `-` on ℕ stops at 0, so the modulus is added first.
abbrev pub sub64 : ℕ → ℕ → ℕ
sub64 a b = (a + 2 ^ 64 - b) % 2 ^ 64

abbrev pub mul64 : ℕ → ℕ → ℕ
mul64 a b = (a * b) % 2 ^ 64

-- `a < b` between two `ssize_t` given by their bit patterns.
abbrev pub ltb_ssize : ℕ → ℕ → Bool
ltb_ssize a b = ltb ((a + 2 ^ 63) % 2 ^ 64) ((b + 2 ^ 63) % 2 ^ 64)

-- On patterns of numbers that are not negative the order is that of ℕ.
pub ltb_ssize-eq-ltb : (a b : ℕ) → a < 2 ^ 63 → b < 2 ^ 63 → ltb_ssize a b ≡ ltb a b
ltb_ssize-eq-ltb a b ha hb = ground arith
