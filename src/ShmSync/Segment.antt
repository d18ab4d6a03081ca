-- ===== src/ShmSync/Segment.antt =====
-- Where source/shm-sync/shm-sync-common.c puts the mutex and the condition variable: `create_segment`
-- and `create_sync`, for sizes at which no `int` wraps.
use ipc_bench.Prelude.{ℕ, zero, suc, ◌+◌, ◌*◌, ◌≤◌, ◌<◌, ◌≡◌, ◌↔◌, arith}

-- `sync_size` is the size of `struct Sync`, which the C library settles.
abbrev pub segment_size : (sync_size size : ℕ) → ℕ
segment_size sync_size size = size + sync_size

-- The offset of the object: the sum is one of a `struct Sync *`.
abbrev pub sync_offset : (sync_size size : ℕ) → ℕ
sync_offset sync_size size = sync_size * size

-- The object lies within the bytes asked for.
abbrev pub IsInside : (sync_size size : ℕ) → Type 0
IsInside sync_size size = sync_offset sync_size size + sync_size ≤ segment_size sync_size size

double_le_mul : (s n : ℕ) → 1 < s → n + n ≤ s * n
double_le_mul s zero large = omega arith
double_le_mul s (suc n) large = omega (arith, double_le_mul s n large)

-- For a `struct Sync` of more than one byte the mutex and the condition variable lie within the bytes
-- that were asked for only if the messages are empty.
pub sync_offset-IsInside :
    (sync_size size : ℕ) → 1 < sync_size → IsInside sync_size size ↔ (size ≡ 0)
sync_offset-IsInside sync_size size large =
    (λ inside. omega (arith, double_le_mul sync_size size large), λ e. inside_of_empty e)
  where
    inside_of_empty : size ≡ 0 → IsInside sync_size size
    inside_of_empty e = rw e (omega arith)
