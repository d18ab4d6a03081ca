-- ===== src/Handshake/Invariant.antt =====
-- Whose turn it is, in every reachable state.
use ipc_bench.Prelude.{ℕ, suc, ◌≡◌, ◌≢◌, ◌⊎◌, inl, refl, Bool, true, false, arith}
use ipc_bench.Handshake.{
  ServerPc, ClientPc, ServerMove, ClientMove, State, Step, server_step, client_step, Reach, start,
  next,
}

-- The messages that the client has yet to answer.
abbrev pub client_left : ℕ → ClientPc → ℕ
client_left count ClientPc.starting = count
client_left count (ClientPc.loop_test k) = k
client_left count (ClientPc.waiting k) = suc k
client_left count (ClientPc.reading k) = suc k
client_left count (ClientPc.writing k) = suc k
client_left count (ClientPc.notifying k) = suc k
client_left count ClientPc.finished = 0

-- The messages that the server has yet to send, or to have answered on its own turn.
abbrev pub server_left : ℕ → ServerPc → ℕ
server_left count ServerPc.starting = count
server_left count (ServerPc.loop_test k) = k
server_left count (ServerPc.writing k) = suc k
server_left count (ServerPc.notifying k) = suc k
server_left count (ServerPc.waiting k) = k
server_left count (ServerPc.reading k) = k
server_left count ServerPc.finished = 0

-- The client does not touch the memory.
abbrev pub is_parked : ClientPc → Bool
is_parked (ClientPc.loop_test k) = true
is_parked (ClientPc.waiting k) = true
is_parked ClientPc.finished = true
is_parked _ = false

abbrev pub is_waiting : ServerPc → Bool
is_waiting (ServerPc.waiting k) = true
is_waiting _ = false

-- The client has work to do on its turn.
abbrev pub is_engaged : ClientPc → Bool
is_engaged ClientPc.starting = false
is_engaged ClientPc.finished = false
is_engaged _ = true

-- On its turn the server finds 's' in the guard, until its `memset` may overwrite that.
abbrev pub ServerGuard : ServerPc → ℕ → Type 0
ServerGuard (ServerPc.notifying k) guard = guard ≢ b'c'
ServerGuard _ guard = guard ≡ b's'

abbrev pub ClientGuard : ClientPc → ℕ → Type 0
ClientGuard (ClientPc.notifying k) guard = guard ≢ b's'
ClientGuard _ guard = guard ≡ b'c'

pub record BeforeStart (s : State) : Type 0 where
  pub server_starts : s.server ≡ ServerPc.starting
  pub client_starts : s.client ≡ ClientPc.starting
  pub unset : s.guard ≢ b's'

pub record ServerTurn (count : ℕ) (s : State) : Type 0 where
  pub parked : is_parked s.client ≡ true
  pub agree : client_left count s.client ≡ server_left count s.server
  pub guarded : ServerGuard s.server s.guard

pub record ClientTurn (count : ℕ) (s : State) : Type 0 where
  pub server_waits : is_waiting s.server ≡ true
  pub engaged : is_engaged s.client ≡ true
  pub agree : client_left count s.client ≡ suc (server_left count s.server)
  pub guarded : ClientGuard s.client s.guard

abbrev pub Inv : ℕ → State → Type 0
Inv count s = BeforeStart s ⊎ ServerTurn count s ⊎ ClientTurn count s

module _ (count : ℕ) (scribble : ℕ → ℕ)
    (harmless : (g : ℕ) → (g ≡ b's' → scribble g ≢ b'c') × (g ≡ b'c' → scribble g ≢ b's')) where
  ServerMove-Inv :
      {g g' : ℕ} {p p' : ServerPc} (c : ClientPc)
      → ServerMove count scribble g p g' p'
      → Inv count (record { guard = g; server = p; client = c })
      → Inv count (record { guard = g'; server = p'; client = c })
  ServerMove-Inv c (ServerMove.begin e) inv = ground arith
  ServerMove-Inv c ServerMove.leave inv = ground arith
  ServerMove-Inv c (ServerMove.enter k) inv = ground arith
  ServerMove-Inv {g} c (ServerMove.write k) inv = ground (arith, harmless g)
  ServerMove-Inv c (ServerMove.notify k) inv = ground arith
  ServerMove-Inv c (ServerMove.wake k e) inv = ground arith
  ServerMove-Inv c (ServerMove.read k) inv = ground arith

  ClientMove-Inv :
      {g g' : ℕ} {p p' : ClientPc} (v : ServerPc)
      → ClientMove count scribble g p g' p'
      → Inv count (record { guard = g; server = v; client = p })
      → Inv count (record { guard = g'; server = v; client = p' })
  ClientMove-Inv v ClientMove.begin inv = ground arith
  ClientMove-Inv v ClientMove.leave inv = ground arith
  ClientMove-Inv v (ClientMove.enter k) inv = ground arith
  ClientMove-Inv v (ClientMove.wake k e) inv = ground arith
  ClientMove-Inv v (ClientMove.read k) inv = ground arith
  ClientMove-Inv {g} v (ClientMove.write k) inv = ground (arith, harmless g)
  ClientMove-Inv v (ClientMove.notify k) inv = ground arith

  Step-Inv : {s s' : State} → Step count scribble s s' → Inv count s → Inv count s'
  Step-Inv {s} (server_step move) inv = ServerMove-Inv s.client move inv
  Step-Inv {s} (client_step move) inv = ClientMove-Inv s.server move inv

  pub Reach-Inv :
      {guard : ℕ} {s : State} → guard ≢ b's' → Reach count scribble guard s → Inv count s
  Reach-Inv unset start = inl (record { server_starts = refl; client_starts = refl; unset = unset })
  Reach-Inv unset (next r st) = Step-Inv st (Reach-Inv unset r)
