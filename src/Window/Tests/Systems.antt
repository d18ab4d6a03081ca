-- ===== src/Window/Tests/Systems.antt =====
-- The theorems on the server, on both processes and on the times at the runs of Window/Tests.
use ipc_bench.Prelude.{
  ℕ, ◌+◌, ◌-◌, ◌≤◌, ◌≡◌, refl, true, false, [], ◌∷◌, some, arith, get_elem?, sub64,
}
use ipc_bench.Prelude.Int.{pos}
use ipc_bench.Common.Arguments.{Arguments}
use ipc_bench.Common.Benchmarks.{setup_benchmarks}
use ipc_bench.Window.{leave, again}
use ipc_bench.Window.Times.{update_write_times, update_read_write_times}
use ipc_bench.Window.Times.Laws.{update_times_in_bounds, latency_lem}
use ipc_bench.Window.Server
use ipc_bench.Window.Server.{Server, server_round, note_first_read, to_read, account_read}
use ipc_bench.Window.Server.Bytes.{note_first_read-KeepsBytes}
use ipc_bench.Window.System.{System, Reach, begin, next, client_turn, server_turn}
use ipc_bench.Window.System.Safety.{
  server_stays_in_buffer, bytes_in_flight, server_leaves_with_client,
}
use ipc_bench.Window.Tests.{
  args, args-IsSmall, turn, turn-IsLawful, memory, client_after_write, client_writes, garbage,
  server_after_echo, server_echoes, client_after_read, client_reads,
}

abbrev sent : System
sent = record { client = client_after_write; server = Server.start garbage }

sent-Reach : Reach note_first_read args sent
sent-Reach =
    next (begin memory garbage)
      (client_turn (turn 100 false true) (turn-IsLawful 100 false true) client_writes (omega arith))

abbrev echoed : System
echoed = record { client = client_after_write; server = server_after_echo }

echoed-Reach : Reach note_first_read args echoed
echoed-Reach =
    next sent-Reach
      (server_turn (turn 150 true true) (turn-IsLawful 150 true true) server_echoes (omega arith))

abbrev returned : System
returned = record { client = client_after_read; server = server_after_echo }

returned-Reach : Reach note_first_read args returned
returned-Reach =
    next echoed-Reach
      (client_turn (turn 200 true false) (turn-IsLawful 200 true false) client_reads (omega arith))

server_stays_in_buffer_example :
    (to_read args (Server.start garbage) ≡ 20)
    × ((Server.read_phase note_first_read args
          (turn 150 true true)
          (Server.start garbage)).outstanding_bytes
        ≤ 20)
unfolding Server.read_phase account_read note_first_read setup_benchmarks
server_stays_in_buffer_example =
    server_stays_in_buffer note_first_read note_first_read-KeepsBytes args args-IsSmall sent-Reach
      (turn 150 true true) (turn-IsLawful 150 true true) (omega arith)

bytes_in_flight_example : ◌≡◌ {A = ℕ} 20 ((20 - 20) + 0 + (20 - 0))
bytes_in_flight_example =
    bytes_in_flight note_first_read note_first_read-KeepsBytes args args-IsSmall echoed-Reach

server_leaves_with_client_example :
    server_round note_first_read args (turn 250 true true) server_after_echo
    ≡ leave server_after_echo
server_leaves_with_client_example =
    server_leaves_with_client note_first_read note_first_read-KeepsBytes args args-IsSmall
      returned-Reach (omega arith) (turn 250 true true)

-- With a third request to come the server goes on.
abbrev longer : Arguments
longer = record { size = pos 10; count = pos 3; rate = pos 2 }

server_waits :
    server_round note_first_read longer (turn 250 false false) server_after_echo
    ≡ again (record server_after_echo { end_time = 250 })
unfolding server_round Server.read_phase Server.write_phase
server_waits = refl

update_times_in_bounds_example :
    (get_elem? (update_write_times 9 (5 ∷ 6 ∷ 7 ∷ []) 2 1 5) 2 ≡ some 7)
    × (get_elem? (update_read_write_times 9 (5 ∷ 6 ∷ 7 ∷ []) 2 1 5) 2 ≡ some 7)
update_times_in_bounds_example =
    update_times_in_bounds 9 2 1 5 2 7 (5 ∷ 6 ∷ 7 ∷ []) (omega arith) refl

latency_lem_example :
    get_elem? (update_read_write_times 130 (update_write_times 100 (5 ∷ 6 ∷ []) 2 0 2) 2 1 4) 1
    ≡ some (sub64 130 100)
latency_lem_example =
    latency_lem 100 130 2 0 2 1 4 1 6 (5 ∷ 6 ∷ []) (omega arith) (omega arith) (omega arith)
      (omega arith) (omega arith) (omega arith) refl
