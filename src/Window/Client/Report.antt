-- ===== src/Window/Client/Report.antt =====
-- The end of the clients' `communicate`, and `evaluateClient` up to the call of `analyze_array`.
use ipc_bench.Prelude.{ℕ, List, Option, none, some, ltb, if◌then◌else◌}
use ipc_bench.Prelude.Int.{ℤ, to_size, to_int, is_positive}
use ipc_bench.Common.Arguments.{Arguments}
use ipc_bench.Window.{Turn, Run, stopped, running, run}
use ipc_bench.Window.Client.{Client, start, client_round}

-- The arguments of `analyze_array`: the latencies, with how many of them count.
pub record Report : Type 0 where
  pub args : Arguments
  pub latencies : List ℕ

-- `args->count = numReqsRead > args->count ? args->count : numReqsRead`
abbrev pub final_count : Arguments → ℕ → ℤ
final_count args num_reqs_read =
    to_int (if ltb (to_size args.count) num_reqs_read then to_size args.count else num_reqs_read)

-- `none` when the assertion on the count fails.
unfoldable pub evaluate_client : List ℕ → Arguments → Option Report
evaluate_client diffs args =
    if is_positive args.count then some (record { args = args; latencies = diffs }) else none

pub data Communication : Type 0 where
  unfinished : Client → Communication
  finished : Option Report → Communication

unfoldable pub conclude : Arguments → Run Client → Communication
conclude args (running s) = unfinished s
conclude args (stopped s) =
    finished (evaluate_client s.times (record args { count = final_count args s.num_reqs_read }))

-- The whole function, over the rounds that it meets and the memory that `malloc` returned.
unfoldable pub communicate : Arguments → List ℕ → List Turn → Communication
unfolding conclude
communicate args times turns = conclude args (run (client_round args) turns (start times))
