-- ===== src/Window/Tests.antt =====
-- A run of the loops on small arguments: the transfers, the answers of the kernel and the states that
-- it goes through. The children have the theorems at it.
mod Clients
mod Systems
use ipc_bench.Prelude.{
  ℕ, ◌+◌, ◌-◌, ◌*◌, ◌/◌, ◌^◌, ◌≤◌, ◌<◌, ◌≡◌, ◌⊎◌, refl, Bool, true, false, List, [], ◌∷◌, arith,
  min,
}
use ipc_bench.Prelude.Int.{pos}
use ipc_bench.Common.Arguments.{Arguments}
use ipc_bench.Common.Benchmarks.{Benchmarks, setup_benchmarks}
use ipc_bench.Transfer.{summarize}
use ipc_bench.Window.{Transfer, Events, Turn, again}
use ipc_bench.Window.Sizes.{IsSmall}
use ipc_bench.Window.Laws.{IsLawful, IsLawfulTurn, AllLawful}
use ipc_bench.Window.Times.{update_write_times, update_read_write_times}
use ipc_bench.Window.Client
use ipc_bench.Window.Client.{Client, client_round, read_phase, stamp_phase, write_phase}
use ipc_bench.Window.Server
use ipc_bench.Window.Server.{Server, server_round, note_first_read, account_read}

-- Two requests of 10 bytes, both in the window.
abbrev args : Arguments
args = record { size = pos 10; count = pos 2; rate = pos 2 }

args-IsSmall : IsSmall args
args-IsSmall = omega arith

-- A transfer of all that is asked for.
abbrev all_of_it : Transfer
all_of_it chunk num = summarize chunk num

-- A transfer of `n` bytes at most.
abbrev at_most : ℕ → Transfer
at_most n chunk num = summarize chunk (min n num)

all_of_it-IsLawful : IsLawful all_of_it
all_of_it-IsLawful = record {
  bounded = λ chunk num h pos. omega arith;
  split = λ chunk num h pos. grind arith;
}

at_most-IsLawful : (n : ℕ) → IsLawful (at_most n)
at_most-IsLawful n = record {
  bounded = λ chunk num h pos. omega arith;
  split = λ chunk num h pos. grind arith;
}

abbrev events : ℕ → Bool → Bool → Events
events at can_read can_write = record {
  quit_at_test = false;
  poll_ok = true;
  quit_after_poll = false;
  can_read = can_read;
  quit_at_read = false;
  can_write = can_write;
  quit_at_write = false;
  now_first = at;
  now_second = at + 7;
}

abbrev turn : ℕ → Bool → Bool → Turn
turn at can_read can_write = record {
  events = events at can_read can_write;
  read_from = all_of_it;
  write_to = all_of_it;
}

turn-IsLawful : (at : ℕ) (can_read can_write : Bool) → IsLawfulTurn (turn at can_read can_write)
turn-IsLawful at can_read can_write = record {
  reads = all_of_it-IsLawful;
  writes = all_of_it-IsLawful;
}

abbrev turns : List Turn
turns = turn 100 false true ∷ turn 200 true false ∷ turn 300 false false ∷ []

turns-AllLawful : AllLawful turns
turns-AllLawful = (
  turn-IsLawful 100 false true,
  (turn-IsLawful 200 true false, (turn-IsLawful 300 false false, tt)),
)

abbrev memory : List ℕ
memory = 5 ∷ 6 ∷ []

abbrev client_after_write : Client
client_after_write = record {
  wait = 1000;
  outstanding_bytes = 20;
  total_bytes_read = 0;
  total_bytes_written = 20;
  num_reqs_read = 0;
  num_reqs_sent = 2;
  outstanding_reqs = 2;
  times = 107 ∷ 107 ∷ [];
}

client_writes :
    client_round args (turn 100 false true) (Client.start memory) ≡ again client_after_write
unfolding client_round read_phase stamp_phase write_phase update_write_times
client_writes = refl

abbrev garbage : Benchmarks
garbage = record {
  total_start = 1;
  single_start = 2;
  minimum = 3;
  maximum = 4;
  sum = 5;
  squared_sum = 6;
}

abbrev server_after_echo : Server
server_after_echo = record {
  bench = record {
    total_start = 157;
    single_start = 2;
    minimum = 2 ^ 31 - 1;
    maximum = 0;
    sum = 0;
    squared_sum = 0;
  };
  first_read = false;
  end_time = 150;
  polls_write = true;
  outstanding_bytes = 0;
  total_bytes_read = 20;
  total_bytes_written = 20;
}

server_echoes :
    server_round note_first_read args (turn 150 true true) (Server.start garbage)
    ≡ again server_after_echo
unfolding server_round Server.read_phase account_read Server.write_phase note_first_read
    setup_benchmarks
server_echoes = refl

abbrev client_after_read : Client
client_after_read = record client_after_write {
  outstanding_bytes = 0;
  total_bytes_read = 20;
  num_reqs_read = 2;
  num_reqs_sent = 4;
  outstanding_reqs = 0;
  times = 93 ∷ 93 ∷ [];
}

-- The new stamps would lie behind the array: the two latencies stay.
client_reads : client_round args (turn 200 true false) client_after_write ≡ again client_after_read
unfolding client_round read_phase stamp_phase write_phase update_write_times update_read_write_times
client_reads = refl
