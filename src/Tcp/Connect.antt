-- ===== src/Tcp/Connect.antt =====
-- source/tcp/client.c: how the client reaches the server, up to `communicate`; and `open_fifo` of
-- source/tcp/helper.c.
pub mod Laws
use ipc_bench.Prelude.{ℕ, true, false, none, some, List, [], ◌∷◌, if◌then◌else◌}
use ipc_bench.Common.Sockets.{set_socket_both_buffer_sizes, set_io_flag}
use ipc_bench.Setup.{
  Descriptor, Kernel, M, ◌>>=◌, ◌>>◌, pure, exit, call, with_options, retry, is_one, is_empty,
  finish_setup, tcp_fifo, read_write, open_file, read_byte, socket, connect, close,
}

-- The loop over the addresses, at the value of `socket_descriptor`.
unfoldable pub get_address : Kernel → Descriptor → List ℕ → M Descriptor
get_address kernel fd [] = do call kernel (close fd); pure none
get_address kernel fd (address ∷ addresses) = do
  fd' ← call kernel (socket address)
  elim fd' [
    | none ↦ get_address kernel none addresses
    | some n ↦ do
      code ← call kernel (connect (some n) address)
      elim code [ none ↦ do call kernel (close (some n)); pure none | some _ ↦ pure (some n) ]
  ]

unfoldable pub setup_socket : Kernel → Descriptor → M (Unit {0})
setup_socket kernel fd = do
  with_options kernel fd set_socket_both_buffer_sizes
  ok ← with_options kernel fd set_io_flag
  if ok then pure tt else exit

-- A `getaddrinfo` that fails ends the process.
unfoldable pub get_server_information : Kernel → M (List ℕ)
get_server_information kernel h = elim (kernel.addresses h) [
  | none ↦ exit h
  | some addresses ↦ pure addresses h
]

-- `garbage` is the uninitialised `socket_descriptor` of `get_address`.
unfoldable pub create_socket : Kernel → Descriptor → M Descriptor
unfolding get_address setup_socket get_server_information
create_socket kernel garbage = do
  addresses ← get_server_information kernel
  fd ← get_address kernel garbage addresses
  elim (is_one fd) [ true ↦ pure none | false ↦ do setup_socket kernel fd; pure fd ]

-- The pipe by which the server says that it listens.
abbrev pub open_fifo : Kernel → M Descriptor
open_fifo kernel = call kernel (open_file tcp_fifo read_write)

-- The main function behind `setup_client_signals`: the descriptor for `communicate`.
unfoldable pub main : Kernel → Descriptor → ℕ → M ℕ
unfolding create_socket
main kernel garbage rounds = do
  fifo ← open_fifo kernel
  count ← call kernel (read_byte fifo)
  elim (is_empty count) [
    | true ↦ exit
    | false ↦ do
      connection ← retry rounds (create_socket kernel garbage)
      finish_setup kernel connection
  ]
