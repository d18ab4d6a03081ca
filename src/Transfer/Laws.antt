-- ===== src/Transfer/Laws.antt =====
-- The transfer loop: bounds, its end, and the memory that its calls touch.
use ipc_bench.Prelude.{ℕ, zero, suc, ◌+◌, ◌^◌, ◌≤◌, ◌<◌, ◌≡◌, refl, ◌⊎◌, inl, true, arith}
use ipc_bench.Transfer.{Call, next_size, transfer_loop, summarize}
use ipc_bench.Transfer.Spec.{Fits, is_stop, IsTransfer}

transfer_loop-bounds :
    (call : Call) (chunk num fuel total : ℕ)
    → Fits call
    → num < 2 ^ 64
    → total ≤ num
    → (total ≤ transfer_loop call chunk num fuel total)
      × (transfer_loop call chunk num fuel total ≤ num)
unfolding transfer_loop
transfer_loop-bounds call chunk num zero total fits h le = omega arith
transfer_loop-bounds call chunk num (suc fuel) total fits h le =
    grind (arith, fits, transfer_loop-bounds call chunk num fuel)

-- The loop ends by itself: it moved all, or the call for the next bytes would not go on.
transfer_loop-ends :
    (call : Call) (chunk num fuel total : ℕ)
    → Fits call
    → num < 2 ^ 64
    → total ≤ num
    → num ≤ total + fuel
    → let last = transfer_loop call chunk num fuel total in
      (last ≡ num) ⊎ (is_stop (call last (next_size chunk num last)) ≡ true)
unfolding transfer_loop
transfer_loop-ends call chunk num zero total fits h le enough = inl (omega arith)
transfer_loop-ends call chunk num (suc fuel) total fits h le enough =
    grind (arith, fits, transfer_loop-ends call chunk num fuel)

-- The loop makes no call outside the first `num` bytes of the buffer, and none for more than a
-- chunk: it cannot tell apart two calls that agree there.
pub transfer_loop-in_range :
    (f g : Call) (chunk num fuel total : ℕ)
    → Fits f
    → num < 2 ^ 64
    → total ≤ num
    → ((offset size : ℕ) → offset + size ≤ num → size ≤ chunk → f offset size ≡ g offset size)
    → transfer_loop f chunk num fuel total ≡ transfer_loop g chunk num fuel total
unfolding transfer_loop
transfer_loop-in_range f g chunk num zero total fits h le same = refl
transfer_loop-in_range f g chunk num (suc fuel) total fits h le same = grind (
  arith,
  fits total (next_size chunk num total),
  same total (next_size chunk num total),
  (λ (total' : ℕ).
      λ (le' : total' ≤ num). transfer_loop-in_range f g chunk num fuel total' fits h le' same),
)

pub summarize-IsTransfer :
    (call : Call) (chunk num : ℕ)
    → Fits call
    → num < 2 ^ 64
    → 0 < chunk
    → IsTransfer call chunk num (summarize chunk (transfer_loop call chunk num num 0))
summarize-IsTransfer call chunk num fits h pos = record {
  bounded = (transfer_loop-bounds call chunk num num 0 fits h (omega arith)).1;
  split = grind arith;
  spare_lt = omega arith;
  ended = transfer_loop-ends call chunk num num 0 fits h (omega arith) (omega arith);
}
