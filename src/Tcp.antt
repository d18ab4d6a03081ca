-- ===== src/Tcp.antt =====
-- source/tcp/helper.c: the transfers over TCP sockets.
pub mod Rounds
pub mod Client
pub mod Server
pub mod Connect
pub mod Listen
use ipc_bench.Prelude.{ℕ, ◌^◌, ◌<◌, ◌≡◌, Bool, ltb, ◌==◌, if◌then◌else◌, arith}
use ipc_bench.Transfer.{transfer_loop, summarize}
use ipc_bench.Transfer.Spec.{Fits, IsTransfer}
use ipc_bench.Transfer.Laws.{summarize-IsTransfer}
use ipc_bench.Transfer.Socket.{
  Flag, msg_dontwait, msg_waitall, SocketCall, SocketMetaData, no_socket_data,
}
use ipc_bench.Fifo.{read_from_pipe, write_to_pipe}

abbrev pub flag_of : Bool → Flag
flag_of non_block = if non_block then msg_dontwait else msg_waitall

unfoldable pub read_from_socket : SocketCall → ℕ → ℕ → Bool → SocketMetaData
read_from_socket recv chunk num non_block =
    if num == 0 then no_socket_data else if ltb num 0 then no_socket_data else record {
      meta = summarize chunk (transfer_loop (recv (flag_of non_block)) chunk num num 0);
      error = 0;
    }

unfoldable pub write_to_socket : SocketCall → ℕ → ℕ → Bool → SocketMetaData
write_to_socket send chunk num non_block =
    if num == 0 then no_socket_data else if ltb num 0 then no_socket_data else record {
      meta = summarize chunk (transfer_loop (send (flag_of non_block)) chunk num num 0);
      error = 0;
    }

-- A read of the socket keeps the contract of a transfer, in both modes.
pub read_from_socket-IsTransfer :
    (recv : SocketCall) (chunk num : ℕ) (non_block : Bool)
    → Fits (recv (flag_of non_block))
    → num < 2 ^ 64
    → 0 < chunk
    → IsTransfer
        (recv (flag_of non_block))
        chunk
        num
        (read_from_socket recv chunk num non_block).meta
unfolding read_from_socket
read_from_socket-IsTransfer recv chunk num non_block fits h pos =
    ground (arith, summarize-IsTransfer (recv (flag_of non_block)) chunk num fits h pos)

-- A write to the socket keeps the contract of a transfer, in both modes.
pub write_to_socket-IsTransfer :
    (send : SocketCall) (chunk num : ℕ) (non_block : Bool)
    → Fits (send (flag_of non_block))
    → num < 2 ^ 64
    → 0 < chunk
    → IsTransfer
        (send (flag_of non_block))
        chunk
        num
        (write_to_socket send chunk num non_block).meta
unfolding write_to_socket
write_to_socket-IsTransfer send chunk num non_block fits h pos =
    ground (arith, summarize-IsTransfer (send (flag_of non_block)) chunk num fits h pos)

-- The socket helpers are the pipe helpers with the flag of the mode, and never report an error.
pub tcp_helpers-eq-pipe_helpers :
    (call : SocketCall) (chunk num : ℕ) (non_block : Bool)
    → (read_from_socket call chunk num non_block
        ≡ record { meta = read_from_pipe (call (flag_of non_block)) chunk num; error = 0 })
      × (write_to_socket call chunk num non_block
          ≡ record { meta = write_to_pipe (call (flag_of non_block)) chunk num; error = 0 })
unfolding read_from_socket write_to_socket read_from_pipe write_to_pipe
tcp_helpers-eq-pipe_helpers call chunk num non_block = (ground arith, ground arith)
