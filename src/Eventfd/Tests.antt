-- ===== src/Eventfd/Tests.antt =====
-- A run in which the client reads its own token, and the theorems at it.
use ipc_bench.Prelude.{
  ℕ, zero, suc, ◌+◌, ◌-◌, ◌^◌, ◌≤◌, ◌<◌, ◌≡◌, ◌≢◌, ◌⊎◌, refl, Option, none, some, arith, ltb,
  if◌then◌else◌,
}
use ipc_bench.Eventfd.{
  EventFd, IsEventFd, ServerPc, ClientPc, ClientMove, State, Step, client_step, Reach, start, next,
  client_token,
}
use ipc_bench.Eventfd.Invariant.{server_left, client_left}
use ipc_bench.Eventfd.Uni
use ipc_bench.Eventfd.Uni.{late_server_never_finishes}
use ipc_bench.Common.Benchmarks.{Benchmarks, benchmark}
use ipc_bench.Eventfd.Safety.{server_adds, client_adds, IsDone, eventfd_in_step}

abbrev read : ℕ → Option (ℕ × ℕ)
read zero = none
read (suc v) = some (suc v, 0)

abbrev counter : EventFd
counter = record {
  read = read;
  write = λ n v. if ltb (v + n) (2 ^ 64 - 1) then some (v + n) else none;
}

counter-IsEventFd : IsEventFd counter
counter-IsEventFd = record {
  read_zero = refl;
  read_suc = λ v. refl;
  write_fits = λ n v h. ground arith;
}

-- The client has read the token of the server and is about to write it back.
abbrev mistaken : State
mistaken = record { value = 0; server = ServerPc.loop_test 1; client = ClientPc.putting_back 0 1 }

not_own : ◌≢◌ {A = ℕ} 1 client_token
not_own e = omega arith

mistaken-Reach : Reach counter 1 mistaken
mistaken-Reach =
    next
      (next (next start (client_step (ClientMove.enter 0)))
        (client_step (ClientMove.notify 0 refl)))
      (client_step (ClientMove.miss 0 1 refl not_own))

eventfd_in_step_example :
    (mistaken.value + server_adds mistaken.server + client_adds mistaken.client ≤ 2)
    × (0 < server_adds mistaken.server → (mistaken.value ≡ 0) × (client_adds mistaken.client ≡ 0))
    × (0 < client_adds mistaken.client → (mistaken.value ≡ 0) × (server_adds mistaken.server ≡ 0))
    × ((client_left mistaken.client ≡ server_left mistaken.server)
        ⊎ (client_left mistaken.client ≡ suc (server_left mistaken.server)))
    × (IsDone mistaken ⊎ ((s' : State) × Step counter mistaken s'))
eventfd_in_step_example = eventfd_in_step counter counter-IsEventFd mistaken-Reach

abbrev bench : Benchmarks
bench = record {
  total_start = 0;
  single_start = 0;
  minimum = 1000;
  maximum = 0;
  sum = 0;
  squared_sum = 0;
}

-- The client has written 3 and 4 before the first read of two.
abbrev late : Uni.State
late = record {
  value = 7;
  bench = bench;
  server = Uni.ServerPc.reading 1;
  client = Uni.ClientPc.finished;
}

abbrev stuck : Uni.State
stuck = record {
  value = 0;
  bench = benchmark 10 (record bench { single_start = 7 });
  server = Uni.ServerPc.loop_test 1;
  client = Uni.ClientPc.finished;
}

late-Steps : Uni.Steps counter late stuck
late-Steps = Uni.next Uni.here (Uni.server_read 1 7 10 refl refl)
