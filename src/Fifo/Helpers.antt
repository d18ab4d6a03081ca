-- ===== src/Fifo/Helpers.antt =====
-- The helpers of source/tcp and source/domain beside those of source/fifo.
use ipc_bench.Prelude.{ℕ, ◌≡◌, Bool}
use ipc_bench.Transfer.Socket.{SocketCall}
use ipc_bench.Fifo.{read_from_pipe, write_to_pipe}
use ipc_bench.Tcp
use ipc_bench.Tcp.{tcp_helpers-eq-pipe_helpers}
use ipc_bench.Domain
use ipc_bench.Domain.{domain_helpers-eq-pipe_helpers}

-- The helpers of both kinds of sockets are the pipe helpers with the flag of the mode, and never report
-- an error.
pub socket_helpers-eq-pipe_helpers :
    (call : SocketCall) (chunk num : ℕ) (non_block : Bool)
    → ((Tcp.read_from_socket call chunk num non_block
          ≡ record { meta = read_from_pipe (call (Tcp.flag_of non_block)) chunk num; error = 0 })
        × (Tcp.write_to_socket call chunk num non_block
            ≡ record { meta = write_to_pipe (call (Tcp.flag_of non_block)) chunk num; error = 0 }))
      × ((Domain.read_from_socket call chunk num non_block ≡ record {
        meta = read_from_pipe (call (Domain.flag_of non_block)) chunk num;
        error = 0;
      })
          × (Domain.write_to_socket call chunk num non_block ≡ record {
            meta = write_to_pipe (call (Domain.flag_of non_block)) chunk num;
            error = 0;
          }))
socket_helpers-eq-pipe_helpers call chunk num non_block = (
  tcp_helpers-eq-pipe_helpers call chunk num non_block,
  domain_helpers-eq-pipe_helpers call chunk num non_block,
)
