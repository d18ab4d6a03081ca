-- ===== src/Window/System/Progress.antt =====
-- A client and a server that run together can always go on, until the client has read all.
use ipc_bench.Prelude.{ℕ, ◌+◌, Bool, true, false, min}
use ipc_bench.Common.Arguments.{Arguments}
use ipc_bench.Transfer.{summarize}
use ipc_bench.Window.{Transfer, Turn}
use ipc_bench.Window.Client
use ipc_bench.Window.Client.{Client}
use ipc_bench.Window.Server
use ipc_bench.Window.Server.{Server}
use ipc_bench.Window.System.{System}

-- A transfer of one byte, where one is asked for.
abbrev one_byte : Transfer
one_byte chunk num = summarize chunk (min 1 num)

-- A round at the time 0 in which no signal comes and one descriptor is ready.
abbrev pub ready : (can_read can_write : Bool) → Turn
ready can_read can_write = record {
  events = record {
    quit_at_test = false;
    poll_ok = true;
    quit_after_poll = false;
    can_read = can_read;
    quit_at_read = false;
    can_write = can_write;
    quit_at_write = false;
    now_first = 0;
    now_second = 0;
  };
  read_from = one_byte;
  write_to = one_byte;
}

-- The bytes that the two have read and written.
abbrev pub moved : System → ℕ
moved s =
    s.client.total_bytes_written + s.server.total_bytes_read + s.server.total_bytes_written
    + s.client.total_bytes_read
