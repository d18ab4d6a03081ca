-- ===== src/Fifo/Server.antt =====
-- `communicate` of source/fifo/server.c.
use ipc_bench.Prelude.{List, map}
use ipc_bench.Common.Arguments.{Arguments}
use ipc_bench.Common.Benchmarks.{Benchmarks}
use ipc_bench.Window.Server.{start, note_first_read}
use ipc_bench.Window.Server.Report
use ipc_bench.Window.Server.Report.{Communication}
use ipc_bench.Fifo.Rounds.{KernelRound, turn_of}

-- `bench` is the uninitialised variable, which the first read sets up.
unfoldable pub communicate : Arguments → Benchmarks → List KernelRound → Communication
communicate args bench rounds =
    Report.communicate note_first_read args (start bench) (map turn_of rounds)
