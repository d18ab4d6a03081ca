-- ===== src/Fifo.antt =====
-- source/fifo/helper.c: the transfers over the named pipes.
pub mod Rounds
pub mod Client
pub mod Server
pub mod Open
mod Tests
pub mod Helpers
use ipc_bench.Prelude.{ℕ, ◌^◌, ◌<◌, ltb, ◌==◌, if◌then◌else◌, arith}
use ipc_bench.Transfer.{Call, MetaData, no_data, transfer_loop, summarize}
use ipc_bench.Transfer.Spec.{Fits, IsTransfer}
use ipc_bench.Transfer.Laws.{summarize-IsTransfer}

-- `chunk`, then `numBytesToRead`. A `size_t` is never below 0, so the second test never returns.
unfoldable pub read_from_pipe : Call → ℕ → ℕ → MetaData
read_from_pipe read chunk num =
    if num == 0
    then no_data
    else if ltb num 0
    then no_data
    else summarize chunk (transfer_loop read chunk num num 0)

unfoldable pub write_to_pipe : Call → ℕ → ℕ → MetaData
write_to_pipe write chunk num =
    if num == 0
    then no_data
    else if ltb num 0
    then no_data
    else summarize chunk (transfer_loop write chunk num num 0)

read_from_pipe-IsTransfer :
    (read : Call) (chunk num : ℕ)
    → Fits read
    → num < 2 ^ 64
    → 0 < chunk
    → IsTransfer read chunk num (read_from_pipe read chunk num)
unfolding read_from_pipe
read_from_pipe-IsTransfer read chunk num fits h pos =
    ground (arith, summarize-IsTransfer read chunk num fits h pos)

write_to_pipe-IsTransfer :
    (write : Call) (chunk num : ℕ)
    → Fits write
    → num < 2 ^ 64
    → 0 < chunk
    → IsTransfer write chunk num (write_to_pipe write chunk num)
unfolding write_to_pipe
write_to_pipe-IsTransfer write chunk num fits h pos =
    ground (arith, summarize-IsTransfer write chunk num fits h pos)

-- Reads of the pipe and writes to it keep the contract of a transfer: for calls that move no more than
-- they are asked for, fewer than 2 ^ 64 bytes and chunks of at least one byte.
pub pipe_helpers-IsTransfer :
    (read write : Call) (chunk num : ℕ)
    → Fits read
    → Fits write
    → num < 2 ^ 64
    → 0 < chunk
    → IsTransfer read chunk num (read_from_pipe read chunk num)
      × IsTransfer write chunk num (write_to_pipe write chunk num)
pipe_helpers-IsTransfer read write chunk num fits fits' h pos = (
  read_from_pipe-IsTransfer read chunk num fits h pos,
  write_to_pipe-IsTransfer write chunk num fits' h pos,
)
