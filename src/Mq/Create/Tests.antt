-- ===== src/Mq/Create/Tests.antt =====
-- A signal that comes before the client has set itself up, and the theorem there.
use ipc_bench.Prelude.{ℕ, zero, suc, ◌≡◌, ◌≢◌, ◌⊎◌, refl, true, false, Option, none, some}
use ipc_bench.Pingpong.{Signals, IsSignals}
use ipc_bench.Mq.Create.{
  ServerPc, ClientPc, State, ServerStep, ClientStep, Step, server_step, client_step, Reach, start,
  next,
}
use ipc_bench.Mq.Create.Laws.{IsStopped, mq_created_before_retrieved}

abbrev sigwait : ℕ → Option ℕ
sigwait zero = none
sigwait (suc n) = some n

abbrev signals : Signals
signals = record { kill = λ pending. 1; sigwait = sigwait }

signals-IsSignals : IsSignals signals
signals-IsSignals = record { kill_once = λ pending. refl; wait_zero = refl; wait_one = refl }

-- In time: the client is about to ask for the queue.
abbrev told : State
told = record {
  queue_exists = true;
  usr2 = 0;
  server = ServerPc.created;
  client = ClientPc.retrieving;
}

told-Reach : Reach signals false told
told-Reach =
    next
      (next
        (next
          (next
            (next (next start (client_step (ClientStep.execute refl)))
              (client_step (ClientStep.set_up refl)))
            (server_step (ServerStep.create refl)))
          (server_step (ServerStep.set_up refl)))
        (server_step (ServerStep.notify refl)))
      (client_step (ClientStep.wait refl refl))

mq_created_before_retrieved_example :
    (told.client ≡ ClientPc.retrieving
      → (told.queue_exists ≡ true) × (told.server ≡ ServerPc.created))
    × (told.client ≢ ClientPc.failed)
    × (IsStopped told ⊎ ((s' : State) × Step signals told s'))
mq_created_before_retrieved_example =
    mq_created_before_retrieved signals signals-IsSignals told-Reach

-- Too early: the signal ends the client.
killed-Reach :
    Reach signals false (record {
      queue_exists = true;
      usr2 = 0;
      server = ServerPc.created;
      client = ClientPc.killed;
    })
killed-Reach =
    next
      (next
        (next (next start (client_step (ClientStep.execute refl)))
          (server_step (ServerStep.create refl)))
        (server_step (ServerStep.set_up refl)))
      (server_step (ServerStep.notify refl))
