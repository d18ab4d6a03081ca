-- ===== src/Pingpong/Invariant.antt =====
-- Whose turn it is, in every reachable state.
use ipc_bench.Prelude.{ℕ, suc, ◌<◌, ◌≡◌, ◌⊎◌, Bool, true, false, arith}
use ipc_bench.Pingpong.{
  Signals, IsSignals, ServerPc, ClientPc, Program, State, ServerStep, ClientStep, Step, server_step,
  client_step, Reach, start, next,
}

-- How the client's count goes with the messages that the server has left. `remaining` gives the
-- count that belongs to a number of messages.
pub record Counts (program : Program) (remaining : ℕ → ℕ) : Type 0 where
  pub first : remaining program.count ≡ program.count
  pub some_left : (k : ℕ) → 0 < remaining (suc k)
  pub after : (k c : ℕ) → remaining (suc k) ≡ suc c → program.update (suc c) ≡ remaining k

-- The messages that the server has left when it is its turn.
abbrev pub server_left : ℕ → ServerPc → ℕ
server_left count ServerPc.forked = count
server_left count ServerPc.unprepared = count
server_left count ServerPc.starting = count
server_left count ServerPc.killed = count
server_left count (ServerPc.loop_test k) = k
server_left count (ServerPc.sending k) = suc k
server_left count (ServerPc.notifying k) = suc k
server_left count (ServerPc.waiting k) = k
server_left count ServerPc.finished = 0

-- The client's `args->count`.
abbrev pub client_count : ℕ → ClientPc → ℕ
client_count count ClientPc.forked = count
client_count count ClientPc.unprepared = count
client_count count ClientPc.starting = count
client_count count ClientPc.killed = count
client_count count (ClientPc.loop_test k) = k
client_count count (ClientPc.waiting k) = suc k
client_count count (ClientPc.reading k) = suc k
client_count count (ClientPc.notifying k) = suc k
client_count count ClientPc.finished = 0

-- The client is done with its message.
abbrev pub client_rests : ClientPc → Bool
client_rests (ClientPc.loop_test k) = true
client_rests (ClientPc.waiting k) = true
client_rests ClientPc.finished = true
client_rests _ = false

-- On the server's turn: what is pending for it, and the bytes in the pipe.
abbrev pub ServerTurn : ℕ → ServerPc → ℕ → ℕ → Type 0
ServerTurn size ServerPc.forked usr1 stream = ⊥
ServerTurn size ServerPc.unprepared usr1 stream = ⊥
ServerTurn size ServerPc.killed usr1 stream = ⊥
ServerTurn size ServerPc.starting usr1 stream = (usr1 ≡ 1) × (stream ≡ 0)
ServerTurn size (ServerPc.waiting k) usr1 stream = (usr1 ≡ 1) × (stream ≡ 0)
ServerTurn size (ServerPc.notifying k) usr1 stream = (usr1 ≡ 0) × (stream ≡ size)
ServerTurn size _ usr1 stream = (usr1 ≡ 0) × (stream ≡ 0)

-- On the client's turn: what is pending for it, and the bytes in the pipe.
abbrev pub ClientTurn : ℕ → ClientPc → ℕ → ℕ → Type 0
ClientTurn size (ClientPc.loop_test k) usr2 stream = (usr2 ≡ 1) × (stream ≡ size)
ClientTurn size (ClientPc.waiting k) usr2 stream = (usr2 ≡ 1) × (stream ≡ size)
ClientTurn size (ClientPc.reading k) usr2 stream = (usr2 ≡ 0) × (stream ≡ size)
ClientTurn size (ClientPc.notifying k) usr2 stream = (usr2 ≡ 0) × (stream ≡ 0)
ClientTurn size _ usr2 stream = ⊥

abbrev pub is_waiting : ServerPc → Bool
is_waiting (ServerPc.waiting k) = true
is_waiting _ = false

abbrev pub is_early : ServerPc → Bool
is_early ServerPc.forked = true
is_early ServerPc.unprepared = true
is_early ServerPc.starting = true
is_early _ = false

abbrev pub client_is_early : ClientPc → Bool
client_is_early ClientPc.forked = true
client_is_early ClientPc.unprepared = true
client_is_early ClientPc.starting = true
client_is_early _ = false

abbrev pub is_forked : ServerPc → Bool
is_forked ServerPc.forked = true
is_forked _ = false

-- Nothing is pending, and the pipe is empty.
pub record IsQuiet (s : State) : Type 0 where
  pub no_usr1 : s.usr1 ≡ 0
  pub no_usr2 : s.usr2 ≡ 0
  pub no_bytes : s.stream ≡ 0

module _ (program : Program) (remaining : ℕ → ℕ) where
  pub record AtServer (s : State) : Type 0 where
    pub turn : ServerTurn program.size s.server s.usr1 s.stream
    pub no_usr2 : s.usr2 ≡ 0
    pub rests : client_rests s.client ≡ true
    pub agree : client_count program.count s.client ≡ remaining (server_left program.count s.server)

  pub record AtClient (s : State) : Type 0 where
    pub turn : ClientTurn program.size s.client s.usr2 s.stream
    pub no_usr1 : s.usr1 ≡ 0
    pub waits : is_waiting s.server ≡ true
    pub agree :
        client_count program.count s.client ≡ remaining (suc (server_left program.count s.server))

  -- Before the first signal.
  pub record Before (s : State) : Type 0 where
    pub server_starts : is_early s.server ≡ true
    pub client_starts : client_is_early s.client ≡ true
    pub quiet : IsQuiet s
    pub inherited : is_forked s.server ≡ true → program.inherits ≡ true

  -- The first signal has ended the server, or was caught by the handler of its parent.
  abbrev pub MissedBy : ServerPc → Type 0
  MissedBy ServerPc.killed = Unit
  MissedBy ServerPc.forked = program.inherits ≡ true
  MissedBy ServerPc.unprepared = program.inherits ≡ true
  MissedBy ServerPc.starting = program.inherits ≡ true
  MissedBy _ = ⊥

  pub record Missed (s : State) : Type 0 where
    pub by : MissedBy s.server
    pub quiet : IsQuiet s
    pub rests : client_rests s.client ≡ true
    pub count_left : client_count program.count s.client ≡ program.count

  abbrev pub Inv : State → Type 0
  Inv s = Before s ⊎ Missed s ⊎ AtServer s ⊎ AtClient s

module _ (signals : Signals) (law : IsSignals signals) (program : Program) (remaining : ℕ → ℕ)
    (counts : Counts program remaining) where
  ServerStep-Inv :
      {s s' : State}
      → ServerStep signals program s s'
      → Inv program remaining s
      → Inv program remaining s'
  ServerStep-Inv (ServerStep.execute e) inv = ground arith
  ServerStep-Inv (ServerStep.set_up e) inv = ground arith
  ServerStep-Inv {s} (ServerStep.begin e w) inv = ground (arith, law.wait_zero, law.wait_one)
  ServerStep-Inv (ServerStep.leave e) inv = ground arith
  ServerStep-Inv (ServerStep.enter k e) inv = ground arith
  ServerStep-Inv (ServerStep.send k e h) inv = ground arith
  ServerStep-Inv {s} (ServerStep.notify k e) inv =
      ground (arith, law.kill_once s.usr2, counts.some_left k)
  ServerStep-Inv (ServerStep.wait k e w) inv = ground (arith, law.wait_zero, law.wait_one)

  ClientStep-Inv :
      {s s' : State}
      → ClientStep signals program s s'
      → Inv program remaining s
      → Inv program remaining s'
  ClientStep-Inv (ClientStep.execute e) inv = ground arith
  ClientStep-Inv (ClientStep.set_up e) inv = ground arith
  ClientStep-Inv {s} (ClientStep.begin e) inv = ground (arith, law.kill_once s.usr1, counts.first)
  ClientStep-Inv {s} (ClientStep.leave e) inv =
      ground (arith, counts.some_left (server_left program.count s.server))
  ClientStep-Inv (ClientStep.enter k e) inv = ground arith
  ClientStep-Inv (ClientStep.wait k e w) inv = ground (arith, law.wait_zero, law.wait_one)
  ClientStep-Inv (ClientStep.read k e h) inv = ground arith
  ClientStep-Inv {s} (ClientStep.notify k e) inv =
      ground (arith, law.kill_once s.usr1, counts.after (server_left program.count s.server) k)

  Step-Inv :
      {s s' : State}
      → Step signals program s s'
      → Inv program remaining s
      → Inv program remaining s'
  Step-Inv (server_step step) inv = ServerStep-Inv step inv
  Step-Inv (client_step step) inv = ClientStep-Inv step inv

  pub Reach-Inv : {s : State} → Reach signals program s → Inv program remaining s
  Reach-Inv start = ground arith
  Reach-Inv (next r st) = Step-Inv st (Reach-Inv r)
