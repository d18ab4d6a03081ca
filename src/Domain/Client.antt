-- ===== src/Domain/Client.antt =====
-- `communicate` of source/domain/client.c.
use ipc_bench.Prelude.{ℕ, List, map}
use ipc_bench.Common.Arguments.{Arguments}
use ipc_bench.Window.Client.Report
use ipc_bench.Window.Client.Report.{Communication}
use ipc_bench.Domain.Rounds.{KernelRound, turn_of}

-- `times` is the memory that `malloc` returned for the latencies.
unfoldable pub communicate : Arguments → List ℕ → List KernelRound → Communication
communicate args times rounds = Report.communicate args times (map turn_of rounds)
