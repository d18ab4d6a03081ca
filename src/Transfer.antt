-- ===== src/Transfer.antt =====
-- The chunked transfer loop that source/fifo/helper.c, source/tcp/helper.c and
-- source/domain/helper.c each write out twice, and the metadata that they return.
pub mod Spec
pub mod Laws
pub mod Socket
use ipc_bench.Prelude.{ℕ, zero, suc, ◌/◌, ◌%◌, true, false, ltb, if◌then◌else◌, add64, sub64}

-- What `read`, `write`, `recv` or `send` returns: -1, or a count of bytes (0 at the end of file).
pub data Ret : Type 0 where
  failed : Ret
  done : ℕ → Ret

-- The system call of the loop: what it returns for `buffer + offset` and a number of bytes.
-- The offset grows from call to call, so a function covers whatever the kernel may answer.
abbrev pub Call : Type 0
Call = (offset size : ℕ) → Ret

-- `struct pipeMetaData`
pub record MetaData : Type 0 where
  pub whole_reqs : ℕ
  pub spare_bytes : ℕ
  pub total_bytes : ℕ

abbrev pub no_data : MetaData
no_data = record { whole_reqs = 0; spare_bytes = 0; total_bytes = 0 }

-- `canRead`, `canWrite`: a chunk, or the rest if that is smaller.
abbrev pub next_size : ℕ → ℕ → ℕ → ℕ
next_size chunk num total = if ltb (sub64 num total) chunk then sub64 num total else chunk

-- The `while` loop from `total` bytes on. Each round that goes on moves at least one byte, so
-- `num` rounds are enough (`Transfer.Laws.transfer_loop-ends`).
unfoldable pub transfer_loop : Call → ℕ → ℕ → ℕ → ℕ → ℕ
transfer_loop call chunk num zero total = total
transfer_loop call chunk num (suc fuel) total = elim (ltb total num) [
  | false ↦ total
  | true ↦ elim (call total (next_size chunk num total)) [
    | failed ↦ total
    | done zero ↦ total
    | done (suc n) ↦ transfer_loop call chunk num fuel (add64 total (suc n))
  ]
]

-- The three assignments to `toReturn`. Callers pass a chunk of at least one byte.
abbrev pub summarize : ℕ → ℕ → MetaData
summarize chunk total = record {
  whole_reqs = total / chunk;
  spare_bytes = total % chunk;
  total_bytes = total;
}
