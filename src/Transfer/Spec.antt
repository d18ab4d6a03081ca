-- ===== src/Transfer/Spec.antt =====
-- What a transfer promises, whichever call it makes.
use ipc_bench.Prelude.{ℕ, zero, suc, ◌+◌, ◌*◌, ◌≤◌, ◌<◌, ◌≡◌, ◌⊎◌, Bool, true, false}
use ipc_bench.Transfer.{Ret, failed, done, Call, MetaData, next_size}

-- POSIX: the calls never return more than they were asked for.
abbrev pub Fits : Call → Type 0
Fits call = (offset size n : ℕ) → call offset size ≡ done n → n ≤ size

-- The loop breaks on this result.
abbrev pub is_stop : Ret → Bool
is_stop failed = true
is_stop (done zero) = true
is_stop (done (suc n)) = false

-- The result of a transfer of `num` bytes in chunks: no more than asked for, split into whole
-- requests and a rest, and short of `num` only if the call for the next bytes would not go on.
pub record IsTransfer (call : Call) (chunk num : ℕ) (m : MetaData) : Type 0 where
  pub bounded : m.total_bytes ≤ num
  pub split : m.whole_reqs * chunk + m.spare_bytes ≡ m.total_bytes
  pub spare_lt : m.spare_bytes < chunk
  pub ended :
      (m.total_bytes ≡ num)
      ⊎ (is_stop (call m.total_bytes (next_size chunk num m.total_bytes)) ≡ true)
