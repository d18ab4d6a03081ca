-- ===== src/Window/Server/Elapsed.antt =====
-- The time that the FIFO and domain servers report.
use ipc_bench.Prelude.{ℕ, ◌+◌, ◌^◌, ◌≤◌, ◌<◌, ◌≡◌, true, false, arith}
use ipc_bench.Common.Arguments.{Arguments}
use ipc_bench.Common.Benchmarks.{setup_benchmarks}
use ipc_bench.Window.{Turn, again}
use ipc_bench.Window.Server.{
  Server, note_first_read, account_read, read_phase, write_phase, server_round,
}
use ipc_bench.Window.Server.Report.{evaluate_server}

-- A report made after the round that read the first bytes, with no round behind it, takes the
-- clock before `poll` for the end and the later clock of `setup_benchmarks` for the start: if these
-- differ, by at most 2 ^ 63, the reported time has wrapped around and is at least 2 ^ 63.
pub first_round_time_wraps :
    (args : Arguments) (t : Turn) (s s' : Server) (num_reqs : ℕ)
    → server_round note_first_read args t s ≡ again s'
    → s.first_read ≡ true
    → s'.first_read ≡ false
    → t.now_first < t.now_second
    → t.now_second ≤ t.now_first + 2 ^ 63
    → t.now_second < 2 ^ 64
    → let time = (evaluate_server s'.bench num_reqs s'.end_time).total_time in
      (time + t.now_second ≡ t.now_first + 2 ^ 64) × (2 ^ 63 ≤ time)
unfolding server_round read_phase account_read write_phase note_first_read setup_benchmarks
    evaluate_server
first_round_time_wraps args t s s' num_reqs e first read lo hi small = ground arith

-- A report made after a later round gives the time from the first read to the `poll` of that
-- round, if the clock has not run backwards.
pub later_round_time :
    (args : Arguments) (t : Turn) (s s' : Server) (num_reqs : ℕ)
    → server_round note_first_read args t s ≡ again s'
    → s.first_read ≡ false
    → s.bench.total_start ≤ t.now_first
    → t.now_first < 2 ^ 64
    → (evaluate_server s'.bench num_reqs s'.end_time).total_time + s.bench.total_start ≡ t.now_first
unfolding server_round read_phase account_read write_phase note_first_read setup_benchmarks
    evaluate_server
later_round_time args t s s' num_reqs e first lo small = ground arith
