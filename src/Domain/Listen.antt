-- ===== src/Domain/Listen.antt =====
-- source/domain/server.c: how the server comes to its connection, up to `communicate`.
pub mod Laws
use ipc_bench.Prelude.{ℕ, true, false, none, some}
use ipc_bench.Common.Sockets.{set_socket_both_buffer_sizes}
use ipc_bench.Setup.{
  Descriptor, Kernel, M, ◌>>=◌, ◌>>◌, pure, exit, call, with_options, retry, is_empty, finish_setup,
  write_byte, socket, remove_path, bind, listen, accept, close,
}
use ipc_bench.Domain.Connect.{open_fifo}

-- What a socket of an earlier run left is removed; whether there was one does not matter.
unfoldable pub setup_socket : Kernel → Descriptor → M (Unit {0})
setup_socket kernel fd = do
  call kernel remove_path
  code ← call kernel (bind fd 0)
  elim code [
    | none ↦ exit
    | some _ ↦ do code' ← call kernel (listen fd); elim code' [ none ↦ exit | some _ ↦ pure tt ]
  ]

unfoldable pub create_socket : Kernel → M Descriptor
unfolding setup_socket
create_socket kernel = do
  fd ← call kernel (socket 0)
  elim fd [ none ↦ exit | some n ↦ do setup_socket kernel (some n); pure (some n) ]

unfoldable pub accept_connection : Kernel → ℕ → M Descriptor
accept_connection kernel listening = do
  connection ← call kernel (accept (some listening))
  elim connection [
    | none ↦ pure none
    | some n ↦ do
      with_options kernel (some n) set_socket_both_buffer_sizes
      call kernel (close (some listening))
      pure (some n)
  ]

-- The main function behind `setup_server_signals`.
unfoldable pub main : Kernel → ℕ → M ℕ
unfolding create_socket accept_connection
main kernel rounds = do
  listening ← retry rounds (create_socket kernel)
  fifo ← open_fifo kernel
  count ← call kernel (write_byte fifo)
  elim (is_empty count) [
    | true ↦ exit
    | false ↦ do
      connection ← retry rounds (accept_connection kernel listening)
      finish_setup kernel connection
  ]
