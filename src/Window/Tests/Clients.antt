-- ===== src/Window/Tests/Clients.antt =====
-- The theorems on the client at the runs of Window/Tests and at runs of its own.
use native.Mathlib.Nat.{mul-mod_left}
use ipc_bench.Prelude.{
  ℕ, ◌*◌, ◌/◌, ◌≤◌, ◌<◌, ◌≡◌, refl, Bool, true, false, List, [], ◌∷◌, some, arith, length,
}
use ipc_bench.Prelude.Int.{pos}
use ipc_bench.Common.Arguments.{Arguments}
use ipc_bench.Transfer.{summarize}
use ipc_bench.Window.{Transfer, Turn, running, stopped, run}
use ipc_bench.Window.Sizes.{IsSmall}
use ipc_bench.Window.Laws.{IsLawful, Ends}
use ipc_bench.Window.Times.{update_write_times, update_read_write_times}
use ipc_bench.Window.Client
use ipc_bench.Window.Client.{Client, client_round, read_phase, stamp_phase, write_phase}
use ipc_bench.Window.Client.Bytes.{IsBalanced, client_flow_control}
use ipc_bench.Window.Client.Completion.{IsCalm, client_report_in_bounds}
use ipc_bench.Window.Client.Termination.{IsEager, eager_client_finishes}
use ipc_bench.Window.Client.Counters.{IsWhole}
use ipc_bench.Window.Client.Idle.{IsIdle}
use ipc_bench.Window.Client.Report.{Report, finished, communicate, evaluate_client}
use ipc_bench.Window.Tests.{
  args, args-IsSmall, all_of_it, at_most, all_of_it-IsLawful, events, turn, turns, turns-AllLawful,
  memory, client_after_write,
}

client_flow_control_example :
    Ends (IsBalanced args) (IsBalanced args) (run (client_round args) turns (Client.start memory))
client_flow_control_example = client_flow_control args args-IsSmall turns turns-AllLawful memory

calm : (at : ℕ) (can_read can_write : Bool) → IsCalm (turn at can_read can_write)
calm at can_read can_write = record {
  no_quit_at_test = refl;
  polled = refl;
  no_quit_after_poll = refl;
}

-- One request of one byte.
abbrev tiny : Arguments
tiny = record { size = pos 1; count = pos 1; rate = pos 1 }

tiny-IsSmall : IsSmall tiny
tiny-IsSmall = omega arith

eager : (at : ℕ) → IsEager (turn at true true)
eager at = record {
  lawful = record { reads = all_of_it-IsLawful; writes = all_of_it-IsLawful };
  calm = calm at true true;
  readable = refl;
  writable = refl;
  no_quit_at_read = refl;
  no_quit_at_write = refl;
  reads_some = λ chunk num h. h;
  writes_some = λ chunk num h. h;
}

abbrev ready_turns : List Turn
ready_turns = turn 100 true true ∷ turn 200 true true ∷ turn 300 true true ∷ []

eager_client_finishes_example :
    (s : Client) × (run (client_round tiny) ready_turns (Client.start (5 ∷ [])) ≡ stopped s)
    × (1 ≤ s.total_bytes_read)
eager_client_finishes_example =
    eager_client_finishes tiny tiny-IsSmall (omega arith) ready_turns (5 ∷ [])
      (eager 100, (eager 200, (eager 300, tt))) (omega arith)

abbrev report : Report
report = record { args = args; latencies = 93 ∷ 93 ∷ [] }

communicate_reports : communicate args memory turns ≡ finished (some report)
unfolding communicate run client_round read_phase stamp_phase write_phase update_write_times
    update_read_write_times evaluate_client
communicate_reports = refl

client_report_in_bounds_example :
    (k : ℕ) × (report.args.count ≡ pos k) × (0 < k) × (k ≤ 2) × (length report.latencies ≡ 2)
client_report_in_bounds_example =
    client_report_in_bounds args 2 memory turns refl (omega arith) refl communicate_reports

-- A transfer of the whole requests in what is asked for.
abbrev whole_only : Transfer
whole_only chunk num = summarize chunk (num / chunk * chunk)

whole_only-spare : (chunk num : ℕ) → (whole_only chunk num).spare_bytes ≡ 0
whole_only-spare chunk num = mul-mod_left (num / chunk) chunk

whole_only-IsLawful : IsLawful whole_only
whole_only-IsLawful = record {
  bounded = λ chunk num h pos. grind arith;
  split = λ chunk num h pos. grind arith;
}

abbrev whole_turn : ℕ → Bool → Bool → Turn
whole_turn at can_read can_write = record {
  events = events at can_read can_write;
  read_from = whole_only;
  write_to = whole_only;
}

whole_turn-IsWhole :
    (at : ℕ) (can_read can_write : Bool) → IsWhole (whole_turn at can_read can_write)
whole_turn-IsWhole at can_read can_write = record {
  lawful = record { reads = whole_only-IsLawful; writes = whole_only-IsLawful };
  reads = whole_only-spare;
  writes = whole_only-spare;
}

idle : (at : ℕ) → IsIdle (turn at false false)
idle at = record {
  no_quit_at_test = refl;
  polled = refl;
  no_quit_after_poll = refl;
  no_read = refl;
  no_write = refl;
}

-- Two writes of 5 and of 15 bytes fill the window with two requests, of which one is counted.
abbrev short_write : ℕ → Turn
short_write n = record {
  events = events 100 false true;
  read_from = all_of_it;
  write_to = at_most n;
}

abbrev half_counted : Client
half_counted = record client_after_write {
  num_reqs_sent = 4;
  outstanding_reqs = 1;
  times = 107 ∷ 107 ∷ [];
}

split_writes_leave_one :
    run (client_round args) (short_write 5 ∷ short_write 15 ∷ []) (Client.start memory)
    ≡ running half_counted
unfolding run client_round read_phase stamp_phase write_phase update_write_times
split_writes_leave_one = refl
