-- ===== src/Prelude/Int.antt =====
-- C's `int`, as an integer over the native numbers, under the library's names.
use Prim.Native.Nat.{ℕ, zero, suc, ◌+◌, ◌-◌, ◌%◌, ◌^◌, ◌<◌}
use native.Mathlib.Omega.{arith}
use mathlib.Core.Bool.{Bool, true, false}
use ipc_bench.Prelude.Tests.{ltb, if◌then◌else◌}

-- `negsuc n` is -(n + 1).
pub data ℤ : Type 0 where
  pos : ℕ → ℤ
  negsuc : ℕ → ℤ

-- The conversion of an `int` to `size_t` repeats its sign bit.
abbrev pub to_size : ℤ → ℕ
to_size (pos n) = n % 2 ^ 64
to_size (negsuc n) = (2 ^ 64 - 1 - n) % 2 ^ 64

-- The conversion to `int` of a 64-bit pattern keeps the low 32 bits.
abbrev pub to_int : ℕ → ℤ
to_int w = let low = w % 2 ^ 32 in if ltb low (2 ^ 31) then pos low else negsuc (2 ^ 32 - 1 - low)

abbrev pub is_negative : ℤ → Bool
is_negative (pos n) = false
is_negative (negsuc n) = true

abbrev pub is_positive : ℤ → Bool
is_positive (pos n) = ltb 0 n
is_positive (negsuc n) = false

pub to_size-lt : (z : ℤ) → to_size z < 2 ^ 64
to_size-lt (pos n) = omega arith
to_size-lt (negsuc n) = omega arith

-- `1 + n`, with the wrap-around of an `int`.
abbrev pub one_more : ℤ → ℤ
one_more (pos n) = to_int (n + 1)
one_more (negsuc zero) = pos 0
one_more (negsuc (suc n)) = negsuc n
