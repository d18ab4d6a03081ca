-- ===== src/Tcp/Server.antt =====
-- `communicate` of source/tcp/server.c.
use ipc_bench.Prelude.{ℕ, List, map}
use ipc_bench.Common.Arguments.{Arguments}
use ipc_bench.Common.Benchmarks.{Benchmarks, setup_benchmarks}
use ipc_bench.Window.Server.{start, note_any_read}
use ipc_bench.Window.Server.Report
use ipc_bench.Window.Server.Report.{Communication}
use ipc_bench.Tcp.Rounds.{KernelRound, turn_of}

-- `now` is the clock before the loop, where the measurement starts.
unfoldable pub communicate : ℕ → Arguments → Benchmarks → List KernelRound → Communication
communicate now args bench rounds =
    Report.communicate note_any_read args (start (setup_benchmarks now bench)) (map turn_of rounds)
