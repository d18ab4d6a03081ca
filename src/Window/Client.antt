-- ===== src/Window/Client.antt =====
-- The `communicate` loop of the clients: source/fifo/client.c, source/tcp/client.c and
-- source/domain/client.c differ only in the descriptors and the transfers.
pub mod Bytes
pub mod Completion
pub mod Counters
pub mod Idle
pub mod Report
pub mod Termination
use ipc_bench.Prelude.{ℕ, not, ◌&&◌, ◌||◌, List, ltb, leb, if◌then◌else◌, add64, sub64}
use ipc_bench.Prelude.Int.{to_size}
use ipc_bench.Common.Arguments.{Arguments}
use ipc_bench.Window.{
  Turn, Round, leave, again, req_size, max_bytes, max_outstanding_bytes, max_outstanding_reqs,
}
use ipc_bench.Window.Times.{update_write_times, update_read_write_times}

-- The local variables of the loop. `outstanding_*` and `num_*` are `size_t`, the totals `ssize_t`.
pub record Client : Type 0 where
  pub wait : ℕ
  pub outstanding_bytes : ℕ
  pub total_bytes_read : ℕ
  pub total_bytes_written : ℕ
  pub num_reqs_read : ℕ
  pub num_reqs_sent : ℕ
  pub outstanding_reqs : ℕ
  pub times : List ℕ

-- Before the loop; `times` is the memory that `malloc` returned.
abbrev pub start : List ℕ → Client
start times = record {
  wait = 0;
  outstanding_bytes = 0;
  total_bytes_read = 0;
  total_bytes_written = 0;
  num_reqs_read = 0;
  num_reqs_sent = 0;
  outstanding_reqs = 0;
  times = times;
}

module _ (args : Arguments) (t : Turn) where
  -- `if (canRead && (quit == 0))`
  unfoldable pub read_phase : Client → Client
  read_phase s =
      if t.can_read && not t.quit_at_read
      then (let info = t.read_from (req_size args) s.outstanding_bytes in
          let got = ltb 0 info.whole_reqs in
          let to_update_read : ℕ = if got then info.whole_reqs else 0 in
          record s {
            outstanding_bytes = sub64 s.outstanding_bytes info.total_bytes;
            total_bytes_read = add64 s.total_bytes_read info.total_bytes;
            outstanding_reqs =
                if got then sub64 s.outstanding_reqs info.whole_reqs else s.outstanding_reqs;
            times =
                update_read_write_times t.now_first s.times (to_size args.count) s.num_reqs_read
                  to_update_read;
            num_reqs_read = add64 s.num_reqs_read to_update_read;
          })
      else s

  -- `if (outstandingReqs < maxOutstandingReqs)`
  unfoldable pub stamp_phase : Client → Client
  stamp_phase s =
      if ltb s.outstanding_reqs (max_outstanding_reqs args)
      then (let room = sub64 (max_outstanding_reqs args) s.outstanding_reqs in
          record s {
            times =
                update_write_times t.now_second s.times (to_size args.count) s.num_reqs_sent room;
            num_reqs_sent = add64 s.num_reqs_sent room;
          })
      else s

  -- `if (canWrite && (outstandingBytes < maxOutstandingBytes) && (quit == 0))`
  unfoldable pub write_phase : Client → Client
  write_phase s =
      if t.can_write && ltb s.outstanding_bytes (max_outstanding_bytes args) && not t.quit_at_write
      then (let info =
            t.write_to (req_size args) (sub64 (max_outstanding_bytes args) s.outstanding_bytes) in
          record s {
            outstanding_bytes = add64 s.outstanding_bytes info.total_bytes;
            total_bytes_written = add64 s.total_bytes_written info.total_bytes;
            wait = 1000;
            outstanding_reqs =
                if ltb 0 info.whole_reqs
                then add64 s.outstanding_reqs info.whole_reqs
                else s.outstanding_reqs;
          })
      else s

  -- One round. The test of the loop compares the `ssize_t` total with a `size_t`: unsigned.
  unfoldable pub client_round : Client → Round Client
  client_round s =
      if leb (max_bytes args) s.total_bytes_read || t.quit_at_test
      then leave s
      else if not t.poll_ok
      then leave s
      else if t.quit_after_poll
      then leave s
      else again (write_phase (stamp_phase (read_phase s)))
