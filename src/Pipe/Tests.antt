-- ===== src/Pipe/Tests.antt =====
-- The signals of signal(7), a state in which the client is about to read the first message, and the
-- theorems at it.
use ipc_bench.Prelude.{ℕ, zero, suc, ◌≡◌, ◌⊎◌, refl, Option, none, some, arith}
use ipc_bench.Pingpong.{
  Signals, IsSignals, ServerPc, ClientPc, State, ServerStep, ClientStep, Step, server_step,
  client_step, Reach, start, next,
}
use ipc_bench.Pipe.{pipe_program, IsDone, IsAlone, IsTogether, pipe_in_step, pipe_progress}

abbrev sigwait : ℕ → Option ℕ
sigwait zero = none
sigwait (suc n) = some n

abbrev signals : Signals
signals = record { kill = λ pending. 1; sigwait = sigwait }

signals-IsSignals : IsSignals signals
signals-IsSignals = record { kill_once = λ pending. refl; wait_zero = refl; wait_one = refl }

abbrev reading : State
reading = record {
  usr1 = 0;
  usr2 = 0;
  stream = 100;
  server = ServerPc.waiting 1;
  client = ClientPc.reading 1;
}

reading-Reach : Reach signals (pipe_program 2 100 65536) reading
reading-Reach =
    next
      (next
        (next
          (next
            (next
              (next
                (next
                  (next (next start (server_step (ServerStep.set_up refl)))
                    (client_step (ClientStep.set_up refl)))
                  (client_step (ClientStep.begin refl)))
                (server_step (ServerStep.begin refl refl)))
              (server_step (ServerStep.enter 1 refl)))
            (server_step (ServerStep.send 1 refl (omega arith))))
          (server_step (ServerStep.notify 1 refl)))
        (client_step (ClientStep.enter 1 refl)))
      (client_step (ClientStep.wait 1 refl refl))

pipe_in_step_example : IsAlone signals 2 100 65536 reading ⊎ IsTogether signals 2 100 65536 reading
pipe_in_step_example = pipe_in_step signals 2 100 65536 signals-IsSignals reading-Reach

pipe_progress_example :
    IsDone reading
    ⊎ ((s' : State) × Step signals (pipe_program 2 100 65536) reading s')
    ⊎ (IsAlone signals 2 100 65536 reading
        × (((reading.client ≡ ClientPc.finished) × (◌≡◌ {A = ℕ} 2 0))
            ⊎ ((k : ℕ) × (reading.client ≡ ClientPc.waiting k) × (2 ≡ suc k))))
pipe_progress_example =
    pipe_progress signals 2 100 65536 signals-IsSignals (omega arith) reading-Reach

-- A message of one byte more than the pipe holds.
abbrev stuck : State
stuck = record {
  usr1 = 0;
  usr2 = 0;
  stream = 0;
  server = ServerPc.sending 1;
  client = ClientPc.waiting 1;
}

stuck-Reach : Reach signals (pipe_program 2 65537 65536) stuck
stuck-Reach =
    next
      (next
        (next
          (next
            (next (next start (server_step (ServerStep.set_up refl)))
              (client_step (ClientStep.set_up refl)))
            (client_step (ClientStep.begin refl)))
          (server_step (ServerStep.begin refl refl)))
        (server_step (ServerStep.enter 1 refl)))
      (client_step (ClientStep.enter 1 refl))

-- The client is the first to get there: its signal ends the server.
alone-Reach : Reach signals (pipe_program 2 100 65536) (record {
  usr1 = 0;
  usr2 = 0;
  stream = 0;
  server = ServerPc.killed;
  client = ClientPc.loop_test 2;
})
alone-Reach =
    next (next start (client_step (ClientStep.set_up refl))) (client_step (ClientStep.begin refl))
