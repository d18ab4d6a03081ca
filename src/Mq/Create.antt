-- ===== src/Mq/Create.antt =====
-- The two `create_mq` of source/mq/server.c and source/mq/client.c, with server_once and client_once of
-- source/common/signals.c: the client gets the queue when the server sends SIGUSR2.
-- A step is one call, from the `fork` of the client on.
mod Laws
mod Tests
use ipc_bench.Prelude.{ℕ, ◌≡◌, Bool, true, false, some}
use ipc_bench.Pingpong.{Signals}

-- Where the server stands. `ftok` belongs to `msgget`.
pub data ServerPc : Type 0 where
  creating : ServerPc  -- before `msgget(key, IPC_CREAT | 0666)`
  setting_up : ServerPc  -- before `setup_server_signals`
  notifying : ServerPc
  created : ServerPc
  failed : ServerPc

-- Where the client stands: behind `fork` it has the parent's handlers, behind `execv` none, and behind
-- its own setup SIGUSR2 is blocked.
pub data ClientPc : Type 0 where
  forked : ClientPc
  unprepared : ClientPc
  waiting : ClientPc
  retrieving : ClientPc
  retrieved : ClientPc
  failed : ClientPc
  killed : ClientPc

pub record State : Type 0 where
  pub queue_exists : Bool
  pub usr2 : ℕ  -- what is pending for the client
  pub server : ServerPc
  pub client : ClientPc

-- What a SIGUSR2 does to the client. It is caught, it ends the process, or it stays pending.
module _ (signals : Signals) where
  abbrev pub deliver : State → State
  deliver s = elim s.client [
    | forked ↦ s
    | unprepared ↦ record s { client = ClientPc.killed }
    | waiting ↦ record s { usr2 = signals.kill s.usr2 }
    | retrieving ↦ record s { usr2 = signals.kill s.usr2 }
    | retrieved ↦ record s { usr2 = signals.kill s.usr2 }
    | failed ↦ s
    | killed ↦ s
  ]

  pub data ServerStep (s : State) : State → Type 0 where
    create :
        s.server ≡ ServerPc.creating
        → ServerStep s (record s { queue_exists = true; server = ServerPc.setting_up })
    create_fails :
        s.server ≡ ServerPc.creating → ServerStep s (record s { server = ServerPc.failed })
    set_up :
        s.server ≡ ServerPc.setting_up → ServerStep s (record s { server = ServerPc.notifying })
    notify :
        s.server ≡ ServerPc.notifying
        → ServerStep s (record (deliver s) { server = ServerPc.created })

  pub data ClientStep (s : State) : State → Type 0 where
    execute : s.client ≡ ClientPc.forked → ClientStep s (record s { client = ClientPc.unprepared })
    set_up : s.client ≡ ClientPc.unprepared → ClientStep s (record s { client = ClientPc.waiting })
    wait :
        {usr2 : ℕ}
        → s.client ≡ ClientPc.waiting
        → signals.sigwait s.usr2 ≡ some usr2
        → ClientStep s (record s { usr2 = usr2; client = ClientPc.retrieving })
    retrieve :
        s.client ≡ ClientPc.retrieving
        → s.queue_exists ≡ true
        → ClientStep s (record s { client = ClientPc.retrieved })
    retrieve_fails :
        s.client ≡ ClientPc.retrieving
        → s.queue_exists ≡ false
        → ClientStep s (record s { client = ClientPc.failed })

  pub data Step (s : State) : State → Type 0 where
    server_step : {s' : State} → ServerStep s s' → Step s s'
    client_step : {s' : State} → ClientStep s s' → Step s s'

  -- A queue of an earlier run may be left.
  pub data Reach (left_over : Bool) : State → Type 0 where
    start : Reach left_over (record {
      queue_exists = left_over;
      usr2 = 0;
      server = ServerPc.creating;
      client = ClientPc.forked;
    })
    next : {s s' : State} → Reach left_over s → Step s s' → Reach left_over s'
