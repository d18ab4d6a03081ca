-- ===== src/Window/Server.antt =====
-- The `communicate` loop of the servers. source/fifo/server.c, source/tcp/server.c and
-- source/domain/server.c differ in what they do on reading the first bytes: `note_read`.
pub mod Bytes
pub mod Elapsed
pub mod Report
use ipc_bench.Prelude.{
  ℕ, Bool, true, false, not, ◌&&◌, ◌||◌, ltb_ssize, ◌==◌, if◌then◌else◌, add64, sub64,
}
use ipc_bench.Common.Arguments.{Arguments}
use ipc_bench.Common.Benchmarks.{Benchmarks, setup_benchmarks}
use ipc_bench.Transfer.{MetaData}
use ipc_bench.Window.{Turn, Round, leave, again, req_size, max_bytes, max_outstanding_bytes}

-- The local variables of the loop; the totals and `outstanding_bytes` are `ssize_t` here.
-- `polls_write` is whether the next `poll` asks for writes (`sizeToPoll`, or `events`).
pub record Server : Type 0 where
  pub bench : Benchmarks
  pub first_read : Bool
  pub end_time : ℕ
  pub polls_write : Bool
  pub outstanding_bytes : ℕ
  pub total_bytes_read : ℕ
  pub total_bytes_written : ℕ

-- Before the loop; `bench` is what stands there: the FIFO and domain servers leave it
-- uninitialised until the first read.
abbrev pub start : Benchmarks → Server
start bench = record {
  bench = bench;
  first_read = true;
  end_time = 0;
  polls_write = false;
  outstanding_bytes = 0;
  total_bytes_read = 0;
  total_bytes_written = 0;
}

-- source/fifo and source/domain: the measurement starts with the first bytes.
unfoldable pub note_first_read : ℕ → Server → Server
note_first_read now s =
    if s.first_read
    then record s { bench = setup_benchmarks now s.bench; polls_write = true; first_read = false }
    else s

-- source/tcp: the measurement has started before the loop.
unfoldable pub note_any_read : ℕ → Server → Server
note_any_read now s = record s { polls_write = true }

-- `toRead`, a `size_t`
abbrev pub to_read : Arguments → Server → ℕ
to_read args s =
    if ltb_ssize (max_outstanding_bytes args) s.outstanding_bytes
    then s.outstanding_bytes
    else max_outstanding_bytes args

module _ (args : Arguments) (t : Turn) where
  -- `if (canWrite && (quit == 0))`. `toWrite` is by now what is outstanding after the read.
  unfoldable pub write_phase : Server → Server
  write_phase s =
      if t.can_write && not t.quit_at_write
      then (let info = t.write_to (req_size args) s.outstanding_bytes in
          record s {
            total_bytes_written = add64 s.total_bytes_written info.total_bytes;
            outstanding_bytes = sub64 s.outstanding_bytes info.total_bytes;
          })
      else s

module _ (note_read : ℕ → Server → Server) (args : Arguments) (t : Turn) where
  -- What the loop does with the result of its read.
  unfoldable pub account_read : MetaData → Server → Server
  account_read info s =
      let s' = record s {
        total_bytes_read = add64 s.total_bytes_read info.total_bytes;
        outstanding_bytes = add64 s.outstanding_bytes info.total_bytes;
      } in
      if info.total_bytes == 0 then s' else note_read t.now_second s'

  -- `if (canRead && (quit == 0))`
  unfoldable pub read_phase : Server → Server
  read_phase s =
      if t.can_read && not t.quit_at_read
      then account_read (t.read_from (req_size args) (to_read args s)) s
      else s

  -- One round. The test of the loop compares two `ssize_t`, and the clock is read before `poll`.
  unfoldable pub server_round : Server → Round Server
  server_round s =
      if not (ltb_ssize s.total_bytes_written (max_bytes args)) || t.quit_at_test
      then leave s
      else if not t.poll_ok
      then leave (record s { end_time = t.now_first })
      else if t.quit_after_poll
      then leave (record s { end_time = t.now_first })
      else again (write_phase args t (read_phase (record s { end_time = t.now_first })))
