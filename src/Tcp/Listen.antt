-- ===== src/Tcp/Listen.antt =====
-- source/tcp/server.c: how the server comes to its connection, up to `communicate`.
pub mod Laws
use ipc_bench.Prelude.{ℕ, true, false, Option, none, some, List, [], ◌∷◌, if◌then◌else◌}
use ipc_bench.Setup.{
  Descriptor, Kernel, M, ◌>>=◌, ◌>>◌, pure, exit, call, retry, is_one, is_empty, finish_setup,
  write_byte, socket, reuse_address, bind, listen, accept, close,
}
use ipc_bench.Tcp.Connect.{setup_socket, get_server_information, open_fifo}

unfoldable pub handle_blocking : Kernel → Descriptor → M (Unit {0})
handle_blocking kernel fd = do
  code ← call kernel (reuse_address fd)
  elim code [ none ↦ exit | some _ ↦ pure tt ]

-- The loop over the addresses: the address at which it stops (if it does), and the descriptor.
unfoldable pub get_address : Kernel → Descriptor → List ℕ → M (Option ℕ × Descriptor)
unfolding handle_blocking
get_address kernel fd [] = pure (none, fd)
get_address kernel fd (address ∷ addresses) = do
  fd' ← call kernel (socket address)
  elim fd' [
    | none ↦ get_address kernel none addresses
    | some n ↦ do
      handle_blocking kernel (some n)
      code ← call kernel (bind (some n) address)
      elim (is_one code) [
        | true ↦ do call kernel (close (some n)); pure (some address, some n)
        | false ↦ pure (some address, some n)
      ]
  ]

-- `garbage` is the uninitialised `socket_descriptor`.
unfoldable pub create_socket : Kernel → Descriptor → M Descriptor
unfolding get_address
create_socket kernel garbage = do
  addresses ← get_server_information kernel
  (valid_address, fd) ← get_address kernel garbage addresses
  elim valid_address [
    | none ↦ pure none
    | some _ ↦ do code ← call kernel (listen fd); if is_one code then pure none else pure fd
  ]

unfoldable pub accept_communication : Kernel → ℕ → M Descriptor
accept_communication kernel listening = do
  connection ← call kernel (accept (some listening))
  elim connection [ none ↦ pure none | some n ↦ do setup_socket kernel (some n); pure (some n) ]

-- The main function behind `setup_server_signals`: the descriptor for `communicate`.
unfoldable pub main : Kernel → Descriptor → ℕ → M ℕ
unfolding create_socket accept_communication
main kernel garbage rounds = do
  listening ← retry rounds (create_socket kernel garbage)
  fifo ← open_fifo kernel
  count ← call kernel (write_byte fifo)
  elim (is_empty count) [
    | true ↦ exit
    | false ↦ do
      connection ← retry rounds (accept_communication kernel listening)
      call kernel (close (some listening))
      finish_setup kernel connection
  ]
