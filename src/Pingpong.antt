-- ===== src/Pingpong.antt =====
-- The protocol of source/pipe and source/signal: the server passes the turn by SIGUSR2, the client by
-- SIGUSR1, both with `kill(0, ...)` and `sigwait` (`notify_*` and `wait_for_signal` of
-- source/common/signals.c). One step is one call or one test of a loop, from the `fork` of the two
-- on, with their setups of the signals; behind those either ignores the signal that it sends.
pub mod Invariant
pub mod Progress
use ipc_bench.Prelude.{ℕ, zero, suc, ◌+◌, ◌-◌, ◌≤◌, ◌≡◌, Bool, true, false, Option, none, some}

-- The kernel's side of one signal for the process that waits for it, at what is pending.
pub record Signals : Type 0 where
  pub kill : ℕ → ℕ
  pub sigwait : ℕ → Option ℕ

-- signal(7): a standard signal that is sent again while it is pending is lost. 0 is that none is
-- pending, and `sigwait` waits then.
pub record IsSignals (signals : Signals) : Type 0 where
  pub kill_once : (pending : ℕ) → signals.kill pending ≡ 1
  pub wait_zero : signals.sigwait 0 ≡ none
  pub wait_one : signals.sigwait 1 ≡ some 0

-- Where the server stands. The numbers are the messages left after this one; at `loop_test` they are
-- all that are left.
pub data ServerPc : Type 0 where
  forked : ServerPc  -- with the handlers of its parent, before `execv`
  unprepared : ServerPc  -- before `setup_server_signals`
  starting : ServerPc  -- the first `wait_for_signal`
  loop_test : ℕ → ServerPc
  sending : ℕ → ServerPc
  notifying : ℕ → ServerPc
  waiting : ℕ → ServerPc
  finished : ServerPc
  killed : ServerPc  -- by a signal

-- Where the client stands. The numbers are its `args->count`, less one inside the loop.
pub data ClientPc : Type 0 where
  forked : ClientPc
  unprepared : ClientPc  -- before `setup_client_signals`
  starting : ClientPc  -- before the first `notify_server`
  loop_test : ℕ → ClientPc
  waiting : ℕ → ClientPc
  reading : ℕ → ClientPc
  notifying : ℕ → ClientPc
  finished : ClientPc
  killed : ClientPc

-- What the two programs differ in: whether the two are forked by a parent that catches both signals, and
-- then replaced by `execv`, which takes the handlers away; the bytes of a message and those that the pipe
-- holds; and what the client's loop does to its `args->count` after a message.
pub record Program : Type 0 where
  pub inherits : Bool
  pub count : ℕ
  pub size : ℕ
  pub capacity : ℕ
  pub update : ℕ → ℕ

-- The signal that each is waiting for, the bytes in the pipe, and the two processes.
pub record State : Type 0 where
  pub usr1 : ℕ
  pub usr2 : ℕ
  pub stream : ℕ
  pub server : ServerPc
  pub client : ClientPc

abbrev pub server_begins : Bool → ServerPc
server_begins true = ServerPc.forked
server_begins false = ServerPc.unprepared

abbrev pub client_begins : Bool → ClientPc
client_begins true = ClientPc.forked
client_begins false = ClientPc.unprepared

module _ (signals : Signals) (program : Program) where
  -- `notify_server` and `notify_client`, at the place of the other: the signal is caught, it ends the
  -- process, or it stays pending.
  abbrev pub notify_server : ServerPc → State → State
  notify_server ServerPc.forked s = s
  notify_server ServerPc.unprepared s = record s { server = ServerPc.killed }
  notify_server ServerPc.killed s = s
  notify_server _ s = record s { usr1 = signals.kill s.usr1 }

  abbrev pub notify_client : ClientPc → State → State
  notify_client ClientPc.forked s = s
  notify_client ClientPc.unprepared s = record s { client = ClientPc.killed }
  notify_client ClientPc.killed s = s
  notify_client _ s = record s { usr2 = signals.kill s.usr2 }

  -- A write of a message comes back when all of it is in the pipe.
  pub data ServerStep (s : State) : State → Type 0 where
    execute : s.server ≡ ServerPc.forked → ServerStep s (record s { server = ServerPc.unprepared })
    set_up : s.server ≡ ServerPc.unprepared → ServerStep s (record s { server = ServerPc.starting })
    begin :
        {usr1 : ℕ}
        → s.server ≡ ServerPc.starting
        → signals.sigwait s.usr1 ≡ some usr1
        → ServerStep s (record s { usr1 = usr1; server = ServerPc.loop_test program.count })
    leave :
        s.server ≡ ServerPc.loop_test zero → ServerStep s (record s { server = ServerPc.finished })
    enter :
        (k : ℕ)
        → s.server ≡ ServerPc.loop_test (suc k)
        → ServerStep s (record s { server = ServerPc.sending k })
    send :
        (k : ℕ)
        → s.server ≡ ServerPc.sending k
        → s.stream + program.size ≤ program.capacity
        → ServerStep s
            (record s { stream = s.stream + program.size; server = ServerPc.notifying k })
    notify :
        (k : ℕ)
        → s.server ≡ ServerPc.notifying k
        → ServerStep s (record (notify_client s.client s) { server = ServerPc.waiting k })
    wait :
        (k : ℕ) {usr1 : ℕ}
        → s.server ≡ ServerPc.waiting k
        → signals.sigwait s.usr1 ≡ some usr1
        → ServerStep s (record s { usr1 = usr1; server = ServerPc.loop_test k })

  -- A read of a message comes back when all of it is there.
  pub data ClientStep (s : State) : State → Type 0 where
    execute : s.client ≡ ClientPc.forked → ClientStep s (record s { client = ClientPc.unprepared })
    set_up : s.client ≡ ClientPc.unprepared → ClientStep s (record s { client = ClientPc.starting })
    begin :
        s.client ≡ ClientPc.starting
        → ClientStep s
            (record (notify_server s.server s) { client = ClientPc.loop_test program.count })
    leave :
        s.client ≡ ClientPc.loop_test zero → ClientStep s (record s { client = ClientPc.finished })
    enter :
        (k : ℕ)
        → s.client ≡ ClientPc.loop_test (suc k)
        → ClientStep s (record s { client = ClientPc.waiting k })
    wait :
        (k : ℕ) {usr2 : ℕ}
        → s.client ≡ ClientPc.waiting k
        → signals.sigwait s.usr2 ≡ some usr2
        → ClientStep s (record s { usr2 = usr2; client = ClientPc.reading k })
    read :
        (k : ℕ)
        → s.client ≡ ClientPc.reading k
        → program.size ≤ s.stream
        → ClientStep s
            (record s { stream = s.stream - program.size; client = ClientPc.notifying k })
    notify :
        (k : ℕ)
        → s.client ≡ ClientPc.notifying k
        → ClientStep s (record (notify_server s.server s) {
          client = ClientPc.loop_test (program.update (suc k));
        })

  -- Either process moves.
  pub data Step (s : State) : State → Type 0 where
    server_step : {s' : State} → ServerStep s s' → Step s s'
    client_step : {s' : State} → ClientStep s s' → Step s s'

  pub data Reach : State → Type 0 where
    start : Reach (record {
      usr1 = 0;
      usr2 = 0;
      stream = 0;
      server = server_begins program.inherits;
      client = client_begins program.inherits;
    })
    next : {s s' : State} → Reach s → Step s s' → Reach s'
