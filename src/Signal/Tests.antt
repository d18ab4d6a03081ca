-- ===== src/Signal/Tests.antt =====
-- A run at one message: the server is done, the client has entered its loop again.
use ipc_bench.Prelude.{ℕ, ◌+◌, zero, suc, ◌≡◌, ◌≢◌, ◌⊎◌, refl, Option, none, some, arith}
use ipc_bench.Pingpong.{
  Signals, IsSignals, ServerPc, ClientPc, State, ServerStep, ClientStep, Step, server_step,
  client_step, Reach, start, next,
}
use ipc_bench.Signal.{signal_program, signal_client_never_finishes}

abbrev sigwait : ℕ → Option ℕ
sigwait zero = none
sigwait (suc n) = some n

abbrev signals : Signals
signals = record { kill = λ pending. 1; sigwait = sigwait }

signals-IsSignals : IsSignals signals
signals-IsSignals = record { kill_once = λ pending. refl; wait_zero = refl; wait_one = refl }

abbrev deserted : State
deserted = record {
  usr1 = 0;
  usr2 = 0;
  stream = 0;
  server = ServerPc.finished;
  client = ClientPc.waiting 0;
}

deserted-Reach : Reach signals (signal_program 1) deserted
deserted-Reach =
    next
      (next
        (next (next answered (client_step (ClientStep.notify 0 refl)))
          (server_step (ServerStep.wait 0 refl refl)))
        (server_step (ServerStep.leave refl)))
      (client_step (ClientStep.enter 0 refl))
  where
    turn_of_client : Reach signals (signal_program 1) (record {
      usr1 = 0;
      usr2 = 1;
      stream = 0;
      server = ServerPc.waiting 0;
      client = ClientPc.loop_test 1;
    })
    turn_of_client =
        next
          (next
            (next
              (next
                (next
                  (next
                    (next
                      (next (next start (server_step (ServerStep.execute refl)))
                        (server_step (ServerStep.set_up refl)))
                      (client_step (ClientStep.execute refl)))
                    (client_step (ClientStep.set_up refl)))
                  (client_step (ClientStep.begin refl)))
                (server_step (ServerStep.begin refl refl)))
              (server_step (ServerStep.enter 0 refl)))
            (server_step (ServerStep.send 0 refl (omega arith))))
          (server_step (ServerStep.notify 0 refl))

    answered : Reach signals (signal_program 1) (record {
      usr1 = 0;
      usr2 = 0;
      stream = 0;
      server = ServerPc.waiting 0;
      client = ClientPc.notifying 0;
    })
    answered =
        next
          (next (next turn_of_client (client_step (ClientStep.enter 0 refl)))
            (client_step (ClientStep.wait 0 refl refl)))
          (client_step (ClientStep.read 0 refl (omega arith)))

signal_client_never_finishes_example :
    (deserted.client ≢ ClientPc.finished)
    × (((deserted.server ≡ ServerPc.finished) × ((k : ℕ) × (deserted.client ≡ ClientPc.waiting k)))
        ⊎ ((s' : State) × Step signals (signal_program 1) deserted s')
        ⊎ (((deserted.server ≡ ServerPc.killed) ⊎ (deserted.server ≡ ServerPc.starting))
            × (deserted.usr1 + deserted.usr2 ≡ 0)
            × ((k : ℕ) × (deserted.client ≡ ClientPc.waiting k) × (1 ≡ suc k))))
signal_client_never_finishes_example =
    signal_client_never_finishes signals 1 (omega arith) signals-IsSignals deserted-Reach
