-- ===== src/Window/Server/Report.antt =====
-- The end of the servers' `communicate`, and what `evaluateServer` prints (its message rate is a
-- quotient of floating-point numbers, and left out).
use ipc_bench.Prelude.{ℕ, ◌/◌, List, sub64}
use ipc_bench.Common.Arguments.{Arguments}
use ipc_bench.Common.Benchmarks.{Benchmarks}
use ipc_bench.Window.{Turn, Run, stopped, running, run, req_size}
use ipc_bench.Window.Server.{Server, server_round}

pub record Report : Type 0 where
  pub num_reqs : ℕ
  pub total_time : ℕ

unfoldable pub evaluate_server : Benchmarks → ℕ → ℕ → Report
evaluate_server bench num_reqs end_time = record {
  num_reqs = num_reqs;
  total_time = sub64 end_time bench.total_start;
}

pub data Communication : Type 0 where
  unfinished : Server → Communication
  finished : Report → Communication

unfoldable pub conclude : Arguments → Run Server → Communication
unfolding evaluate_server
conclude args (running s) = unfinished s
conclude args (stopped s) =
    finished (evaluate_server s.bench (s.total_bytes_written / req_size args) s.end_time)

-- The whole function; `s` is the state before the loop.
unfoldable pub communicate : (ℕ → Server → Server) → Arguments → Server → List Turn → Communication
unfolding conclude
communicate note_read args s turns = conclude args (run (server_round note_read args) turns s)
