-- ===== src/Zeromq/Main.antt =====
-- The main functions of source/zeromq/server.c and source/zeromq/client.c, behind parse_arguments. `ends`
-- is how `communicate` ends, whose calls are those of the module above.
pub mod Laws
use ipc_bench.Prelude.{ℕ, Bool, none, some, List, if◌then◌else◌}
use ipc_bench.Common.Arguments.{check_flag}
use ipc_bench.Setup.{
  Kernel, Result, M, ◌>>=◌, ◌>>◌, pure, exit, call, Endpoint, any_interface, local_host, ipc_file,
  reply_kind, request_kind, new_context, new_socket, bind_socket, connect_socket, close_socket,
  destroy_context, zeromq,
}

unfoldable pub create_context : Kernel → M ℕ
create_context kernel = do
  context ← call kernel (zeromq new_context)
  elim context [ none ↦ exit | some c ↦ pure c ]

-- The first letter of "tcp", as `check_flag` looks for it.
abbrev pub tcp : ℕ
tcp = 0x74

abbrev pub server_address : Bool → Endpoint
server_address use_tcp = if use_tcp then any_interface 6969 else ipc_file

abbrev pub client_address : Bool → Endpoint
client_address use_tcp = if use_tcp then local_host 6969 else ipc_file

-- The two `create_socket`.
unfoldable pub create_server_socket : Kernel → ℕ → Bool → M ℕ
create_server_socket kernel context use_tcp = do
  socket ← call kernel (zeromq (new_socket context reply_kind))
  elim socket [
    | none ↦ exit
    | some s ↦ do
      code ← call kernel (zeromq (bind_socket s (server_address use_tcp)))
      elim code [ none ↦ exit | some _ ↦ pure s ]
  ]

unfoldable pub create_client_socket : Kernel → ℕ → Bool → M ℕ
create_client_socket kernel context use_tcp = do
  socket ← call kernel (zeromq (new_socket context request_kind))
  elim socket [
    | none ↦ exit
    | some s ↦ do
      code ← call kernel (zeromq (connect_socket s (client_address use_tcp)))
      elim code [ none ↦ exit | some _ ↦ pure s ]
  ]

unfoldable pub cleanup : Kernel → ℕ → ℕ → M (Unit {0})
cleanup kernel context socket = do
  call kernel (zeromq (close_socket socket))
  call kernel (zeromq (destroy_context context))
  pure tt

abbrev pub communicate : Result (Unit {0}) → M (Unit {0})
communicate ends h = (ends, h)

-- `options` is what `getopt_long` returns to `check_flag`.
unfoldable pub server_main : Kernel → List ℕ → Result (Unit {0}) → M (Unit {0})
unfolding create_context create_server_socket cleanup
server_main kernel options ends =
    let use_tcp = check_flag tcp options in
    do
      context ← create_context kernel
      socket ← create_server_socket kernel context use_tcp
      communicate ends
      cleanup kernel context socket

unfoldable pub client_main : Kernel → List ℕ → Result (Unit {0}) → M (Unit {0})
unfolding create_context create_client_socket cleanup
client_main kernel options ends =
    let use_tcp = check_flag tcp options in
    do
      context ← create_context kernel
      socket ← create_client_socket kernel context use_tcp
      communicate ends
      cleanup kernel context socket
