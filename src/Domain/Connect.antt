-- ===== src/Domain/Connect.antt =====
-- source/domain/client.c: how the client reaches the server, up to `communicate`; and `open_fifo` of
-- source/domain/helper.c.
pub mod Laws
use ipc_bench.Prelude.{ℕ, none, some}
use ipc_bench.Common.Sockets.{set_socket_both_buffer_sizes}
use ipc_bench.Setup.{
  Descriptor, Kernel, M, ◌>>=◌, ◌>>◌, pure, exit, call, with_options, retry, finish_setup,
  socket_fifo, read_write, open_file, read_byte, socket, connect,
}

unfoldable pub setup_socket : Kernel → Descriptor → M (Unit {0})
setup_socket kernel fd = do
  with_options kernel fd set_socket_both_buffer_sizes
  code ← call kernel (connect fd 0)
  elim code [ none ↦ exit | some _ ↦ pure tt ]

unfoldable pub create_connection : Kernel → M Descriptor
unfolding setup_socket
create_connection kernel = do
  fd ← call kernel (socket 0)
  elim fd [ none ↦ pure none | some n ↦ do setup_socket kernel (some n); pure (some n) ]

-- The pipe by which the server says that it listens.
abbrev pub open_fifo : Kernel → M Descriptor
open_fifo kernel = call kernel (open_file socket_fifo read_write)

-- The main function behind `setup_client_signals`. Unlike in source/tcp, a read of no bytes is taken
-- for a signal.
unfoldable pub main : Kernel → ℕ → M ℕ
unfolding create_connection
main kernel rounds = do
  fifo ← open_fifo kernel
  count ← call kernel (read_byte fifo)
  elim count [
    | none ↦ exit
    | some _ ↦ do
      connection ← retry rounds (create_connection kernel)
      finish_setup kernel connection
  ]
