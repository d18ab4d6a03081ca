-- ===== src/Eventfd/Invariant.antt =====
-- Where the one token is, in every reachable state.
use ipc_bench.Prelude.{
  ℕ, zero, suc, ◌+◌, ◌-◌, ◌^◌, ◌<◌, ◌≡◌, ◌⊎◌, inl, refl, Bool, true, false, some, arith,
}
use ipc_bench.Eventfd.{
  EventFd, IsEventFd, ServerPc, ClientPc, ServerMove, ClientMove, State, Step, server_step,
  client_step, Reach, start, next, server_token, client_token,
}

-- The messages that each side has yet to finish.
abbrev pub server_left : ServerPc → ℕ
server_left (ServerPc.loop_test k) = k
server_left (ServerPc.waiting k) = suc k
server_left (ServerPc.putting_back k stored) = suc k
server_left (ServerPc.notifying k) = suc k
server_left ServerPc.finished = 0

abbrev pub client_left : ClientPc → ℕ
client_left (ClientPc.loop_test k) = k
client_left (ClientPc.notifying k) = suc k
client_left (ClientPc.waiting k) = suc k
client_left (ClientPc.putting_back k stored) = suc k
client_left ClientPc.finished = 0

abbrev pub server_holds_none : ServerPc → Bool
server_holds_none (ServerPc.putting_back k stored) = false
server_holds_none (ServerPc.notifying k) = false
server_holds_none _ = true

abbrev pub server_answers : ServerPc → Bool
server_answers (ServerPc.notifying k) = true
server_answers _ = false

abbrev pub client_waits : ClientPc → Bool
client_waits (ClientPc.waiting k) = true
client_waits _ = false

abbrev pub client_rests : ClientPc → Bool
client_rests (ClientPc.loop_test k) = true
client_rests (ClientPc.notifying k) = true
client_rests ClientPc.finished = true
client_rests _ = false

-- The server's token is in the counter, or the client is about to put it back.
abbrev pub Requested : ClientPc → ℕ → Type 0
Requested (ClientPc.waiting k) value = value ≡ server_token
Requested (ClientPc.putting_back k stored) value = (stored ≡ server_token) × (value ≡ 0)
Requested _ value = ⊥

-- The client's token is in the counter, or the server is about to put it back.
abbrev pub Replied : ServerPc → ℕ → Type 0
Replied (ServerPc.putting_back k stored) value = (stored ≡ client_token) × (value ≡ 0)
Replied (ServerPc.notifying k) value = ⊥
Replied _ value = value ≡ client_token

pub record Idle (s : State) : Type 0 where
  pub empty : s.value ≡ 0
  pub rests : client_rests s.client ≡ true
  pub ready : server_holds_none s.server ≡ true
  pub agree : client_left s.client ≡ server_left s.server

pub record Request (s : State) : Type 0 where
  pub requested : Requested s.client s.value
  pub ready : server_holds_none s.server ≡ true
  pub agree : client_left s.client ≡ server_left s.server

pub record Answer (s : State) : Type 0 where
  pub empty : s.value ≡ 0
  pub waits : client_waits s.client ≡ true
  pub answers : server_answers s.server ≡ true
  pub agree : client_left s.client ≡ server_left s.server

pub record Reply (s : State) : Type 0 where
  pub replied : Replied s.server s.value
  pub waits : client_waits s.client ≡ true
  pub agree : client_left s.client ≡ suc (server_left s.server)

abbrev pub Inv : State → Type 0
Inv s = Idle s ⊎ Request s ⊎ Answer s ⊎ Reply s

module _ (fd : EventFd) (law : IsEventFd fd) where
  -- What a read that does not block stores and leaves.
  read_lem : (v stored v' : ℕ) → fd.read v ≡ some (stored, v') → (0 < v) × (stored ≡ v) × (v' ≡ 0)
  read_lem zero stored v' e = ground (arith, law.read_zero)
  read_lem (suc v) stored v' e = ground (arith, law.read_suc v)

  write_lem : (n v v' : ℕ) → v + n < 2 ^ 64 - 1 → fd.write n v ≡ some v' → v' ≡ v + n
  write_lem n v v' h e = ground (arith, law.write_fits n v h)

  ServerMove-Inv :
      {v v' : ℕ} {p p' : ServerPc} (c : ClientPc)
      → ServerMove fd v p v' p'
      → Inv (record { value = v; server = p; client = c })
      → Inv (record { value = v'; server = p'; client = c })
  ServerMove-Inv c ServerMove.leave inv = ground arith
  ServerMove-Inv c (ServerMove.enter k) inv = ground arith
  ServerMove-Inv {v} {v'} c (ServerMove.take k stored e h) inv =
      ground (arith, read_lem v stored v' e)
  ServerMove-Inv {v} {v'} c (ServerMove.miss k stored e h) inv =
      ground (arith, read_lem v stored v' e)
  ServerMove-Inv {v} {v'} c (ServerMove.put_back k stored e) inv =
      ground (arith, write_lem stored v v')
  ServerMove-Inv {v} {v'} c (ServerMove.notify k e) inv =
      ground (arith, write_lem client_token v v')

  ClientMove-Inv :
      {v v' : ℕ} {p p' : ClientPc} (w : ServerPc)
      → ClientMove fd v p v' p'
      → Inv (record { value = v; server = w; client = p })
      → Inv (record { value = v'; server = w; client = p' })
  ClientMove-Inv w ClientMove.leave inv = ground arith
  ClientMove-Inv w (ClientMove.enter k) inv = ground arith
  ClientMove-Inv {v} {v'} w (ClientMove.notify k e) inv =
      ground (arith, write_lem server_token v v')
  ClientMove-Inv {v} {v'} w (ClientMove.take k stored e h) inv =
      ground (arith, read_lem v stored v' e)
  ClientMove-Inv {v} {v'} w (ClientMove.miss k stored e h) inv =
      ground (arith, read_lem v stored v' e)
  ClientMove-Inv {v} {v'} w (ClientMove.put_back k stored e) inv =
      ground (arith, write_lem stored v v')

  Step-Inv : {s s' : State} → Step fd s s' → Inv s → Inv s'
  Step-Inv {s} (server_step move) inv = ServerMove-Inv s.client move inv
  Step-Inv {s} (client_step move) inv = ClientMove-Inv s.server move inv

  pub Reach-Inv : {count : ℕ} {s : State} → Reach fd count s → Inv s
  Reach-Inv start = inl (record { empty = refl; rests = refl; ready = refl; agree = refl })
  Reach-Inv (next r st) = Step-Inv st (Reach-Inv r)
