-- ===== src/Handshake/Safety.antt =====
-- The two processes never touch the memory together, never block each other for good, and stop.
use ipc_bench.Prelude.{
  ℕ, zero, suc, ◌+◌, ◌*◌, ◌≤◌, ◌<◌, ◌≡◌, ◌≢◌, ◌⊎◌, inl, inr, Bool, true, false, arith, ℕ_discrete,
}
use ipc_bench.Handshake.{
  ServerPc, ClientPc, ServerMove, ClientMove, State, Step, server_step, client_step, Reach, start,
  next,
}
use ipc_bench.Handshake.Invariant.{Reach-Inv, Inv}

-- In `memset` or `memcpy`.
abbrev pub server_accesses : ServerPc → Bool
server_accesses (ServerPc.writing k) = true
server_accesses (ServerPc.reading k) = true
server_accesses _ = false

abbrev pub client_accesses : ClientPc → Bool
client_accesses (ClientPc.reading k) = true
client_accesses (ClientPc.writing k) = true
client_accesses _ = false

-- The steps that are left at most, of a server and of a client.
abbrev server_steps : ℕ → ServerPc → ℕ
server_steps count ServerPc.starting = 5 * count + 2
server_steps count (ServerPc.loop_test k) = 5 * k + 1
server_steps count (ServerPc.writing k) = 5 * k + 5
server_steps count (ServerPc.notifying k) = 5 * k + 4
server_steps count (ServerPc.waiting k) = 5 * k + 3
server_steps count (ServerPc.reading k) = 5 * k + 2
server_steps count ServerPc.finished = 0

abbrev client_steps : ℕ → ClientPc → ℕ
client_steps count ClientPc.starting = 5 * count + 2
client_steps count (ClientPc.loop_test k) = 5 * k + 1
client_steps count (ClientPc.waiting k) = 5 * k + 5
client_steps count (ClientPc.reading k) = 5 * k + 4
client_steps count (ClientPc.writing k) = 5 * k + 3
client_steps count (ClientPc.notifying k) = 5 * k + 2
client_steps count ClientPc.finished = 0

abbrev pub steps_left : ℕ → State → ℕ
steps_left count s = server_steps count s.server + client_steps count s.client

abbrev pub IsDone : State → Type 0
IsDone s = (s.server ≡ ServerPc.finished) × (s.client ≡ ClientPc.finished)

-- What stops a process for now.
abbrev ServerBlocked : ServerPc → ℕ → Type 0
ServerBlocked ServerPc.starting guard = guard ≢ b's'
ServerBlocked (ServerPc.waiting k) guard = guard ≢ b's'
ServerBlocked ServerPc.finished guard = Unit
ServerBlocked _ guard = ⊥

abbrev ClientBlocked : ClientPc → ℕ → Type 0
ClientBlocked (ClientPc.waiting k) guard = guard ≢ b'c'
ClientBlocked ClientPc.finished guard = Unit
ClientBlocked _ guard = ⊥

module _ (count : ℕ) (scribble : ℕ → ℕ) (guard : ℕ) where
  server_moves :
      (p : ServerPc)
      → ((g : ℕ) × (p' : ServerPc) × ServerMove count scribble guard p g p') ⊎ ServerBlocked p guard
  server_moves ServerPc.starting = elim (ℕ_discrete guard b's') [
    | yes e ↦ inl (_, _, ServerMove.begin e)
    | no ne ↦ inr ne
  ]
  server_moves (ServerPc.loop_test zero) = inl (_, _, ServerMove.leave)
  server_moves (ServerPc.loop_test (suc k)) = inl (_, _, ServerMove.enter k)
  server_moves (ServerPc.writing k) = inl (_, _, ServerMove.write k)
  server_moves (ServerPc.notifying k) = inl (_, _, ServerMove.notify k)
  server_moves (ServerPc.waiting k) = elim (ℕ_discrete guard b's') [
    | yes e ↦ inl (_, _, ServerMove.wake k e)
    | no ne ↦ inr ne
  ]
  server_moves (ServerPc.reading k) = inl (_, _, ServerMove.read k)
  server_moves ServerPc.finished = inr tt

  client_moves :
      (p : ClientPc)
      → ((g : ℕ) × (p' : ClientPc) × ClientMove count scribble guard p g p') ⊎ ClientBlocked p guard
  client_moves ClientPc.starting = inl (_, _, ClientMove.begin)
  client_moves (ClientPc.loop_test zero) = inl (_, _, ClientMove.leave)
  client_moves (ClientPc.loop_test (suc k)) = inl (_, _, ClientMove.enter k)
  client_moves (ClientPc.waiting k) = elim (ℕ_discrete guard b'c') [
    | yes e ↦ inl (_, _, ClientMove.wake k e)
    | no ne ↦ inr ne
  ]
  client_moves (ClientPc.reading k) = inl (_, _, ClientMove.read k)
  client_moves (ClientPc.writing k) = inl (_, _, ClientMove.write k)
  client_moves (ClientPc.notifying k) = inl (_, _, ClientMove.notify k)
  client_moves ClientPc.finished = inr tt

  ServerMove-lt :
      {g : ℕ} {p p' : ServerPc}
      → ServerMove count scribble guard p g p'
      → server_steps count p' < server_steps count p
  ServerMove-lt (ServerMove.begin e) = omega arith
  ServerMove-lt ServerMove.leave = omega arith
  ServerMove-lt (ServerMove.enter k) = omega arith
  ServerMove-lt (ServerMove.write k) = omega arith
  ServerMove-lt (ServerMove.notify k) = omega arith
  ServerMove-lt (ServerMove.wake k e) = omega arith
  ServerMove-lt (ServerMove.read k) = omega arith

  ClientMove-lt :
      {g : ℕ} {p p' : ClientPc}
      → ClientMove count scribble guard p g p'
      → client_steps count p' < client_steps count p
  ClientMove-lt ClientMove.begin = omega arith
  ClientMove-lt ClientMove.leave = omega arith
  ClientMove-lt (ClientMove.enter k) = omega arith
  ClientMove-lt (ClientMove.wake k e) = omega arith
  ClientMove-lt (ClientMove.read k) = omega arith
  ClientMove-lt (ClientMove.write k) = omega arith
  ClientMove-lt (ClientMove.notify k) = omega arith

blocked-IsDone :
    (count : ℕ) (s : State)
    → Inv count s
    → ServerBlocked s.server s.guard
    → ClientBlocked s.client s.guard
    → IsDone s
blocked-IsDone count s inv v c = ground arith

abbrev pub length_of :
    {count : ℕ} {scribble : ℕ → ℕ} {guard : ℕ} {s : State} → Reach count scribble guard s → ℕ
length_of start = 0
length_of (next r st) = suc (length_of r)

Step-lt :
    {count : ℕ} {scribble : ℕ → ℕ} {s s' : State}
    → Step count scribble s s'
    → steps_left count s' < steps_left count s
Step-lt {count} {scribble} {s} (server_step move) =
    omega (arith, ServerMove-lt count scribble s.guard move)
Step-lt {count} {scribble} {s} (client_step move) =
    omega (arith, ClientMove-lt count scribble s.guard move)

module _ (count : ℕ) (scribble : ℕ → ℕ)
    (harmless : (g : ℕ) → (g ≡ b's' → scribble g ≢ b'c') × (g ≡ b'c' → scribble g ≢ b's')) where
  -- No reachable state has both processes in a `memset` or `memcpy` of the shared memory, if the
  -- guard does not start as 's' and a `memset` does not turn 's' into 'c' or 'c' into 's'.
  pub mutual_exclusion :
      {guard : ℕ} {s : State}
      → guard ≢ b's'
      → Reach count scribble guard s
      → server_accesses s.server ≡ true
      → client_accesses s.client ≡ false
  mutual_exclusion {s = s} unset r h =
      let inv = Reach-Inv count scribble harmless unset r in ground arith

  -- From every reachable state some process can take a step, unless both are done, if the guard
  -- does not start as 's' and a `memset` does not turn 's' into 'c' or 'c' into 's': no deadlock.
  pub progress :
      {guard : ℕ} {s : State}
      → guard ≢ b's'
      → Reach count scribble guard s
      → IsDone s ⊎ ((s' : State) × Step count scribble s s')
  progress {s = s} unset r = elim (server_moves count scribble s.guard s.server) [
    | inl (g, p, move) ↦ inr (_, server_step move)
    | inr v ↦ elim (client_moves count scribble s.guard s.client) [
      | inl (g, p, move) ↦ inr (_, client_step move)
      | inr c ↦ inl (blocked-IsDone count s (Reach-Inv count scribble harmless unset r) v c)
    ]
  ]

-- Every run stops: with `count` messages it has at most 10 * count + 4 steps, spins not counted.
pub runs_are_bounded :
    {count : ℕ} {scribble : ℕ → ℕ} {guard : ℕ} {s : State} (r : Reach count scribble guard s)
    → length_of r + steps_left count s ≤ 10 * count + 4
runs_are_bounded start = omega arith
runs_are_bounded (next r st) = omega (arith, runs_are_bounded r, Step-lt st)
