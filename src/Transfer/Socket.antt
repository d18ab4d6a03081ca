-- ===== src/Transfer/Socket.antt =====
-- What source/tcp/helper.h and source/domain/helper.h add to a transfer: flags and an error field.
use ipc_bench.Prelude.{ℕ}
use ipc_bench.Transfer.{Call, MetaData, no_data}

-- The flags that the helpers pass to `recv` and `send`.
pub data Flag : Type 0 where
  no_flag msg_dontwait msg_waitall : Flag

-- `recv` or `send` on a socket, for each flag.
abbrev pub SocketCall : Type 0
SocketCall = Flag → Call

-- `struct socketMetaData`
pub record SocketMetaData : Type 0 where
  pub meta : MetaData
  pub error : ℕ

abbrev pub no_socket_data : SocketMetaData
no_socket_data = record { meta = no_data; error = 0 }
