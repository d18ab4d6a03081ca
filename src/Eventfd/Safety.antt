-- ===== src/Eventfd/Safety.antt =====
-- The tokens of source/eventfd/eventfd-bi.c never mix, and neither process blocks the other for good.
use ipc_bench.Prelude.{
  ℕ, zero, suc, ◌+◌, ◌-◌, ◌^◌, ◌≤◌, ◌<◌, ◌≡◌, ◌⊎◌, inl, inr, refl, ℕ_discrete, arith,
}
use ipc_bench.Eventfd.{
  EventFd, IsEventFd, ServerPc, ClientPc, ServerMove, ClientMove, State, Step, server_step,
  client_step, Reach, server_token, client_token,
}
use ipc_bench.Eventfd.Invariant.{server_left, client_left, Inv, Reach-Inv}

-- What a process is about to add to the counter.
abbrev pub server_adds : ServerPc → ℕ
server_adds (ServerPc.putting_back k stored) = stored
server_adds (ServerPc.notifying k) = client_token
server_adds _ = 0

abbrev pub client_adds : ClientPc → ℕ
client_adds (ClientPc.putting_back k stored) = stored
client_adds (ClientPc.notifying k) = server_token
client_adds _ = 0

abbrev pub IsDone : State → Type 0
IsDone s = (s.server ≡ ServerPc.finished) × (s.client ≡ ClientPc.finished)

-- What stops a process for now: a read of 0, or a write that does not fit.
abbrev ServerBlocked : ServerPc → ℕ → Type 0
ServerBlocked (ServerPc.waiting k) value = value ≡ 0
ServerBlocked (ServerPc.putting_back k stored) value = 2 ^ 64 - 1 ≤ value + stored
ServerBlocked (ServerPc.notifying k) value = 2 ^ 64 - 1 ≤ value + client_token
ServerBlocked ServerPc.finished value = Unit
ServerBlocked _ value = ⊥

abbrev ClientBlocked : ClientPc → ℕ → Type 0
ClientBlocked (ClientPc.waiting k) value = value ≡ 0
ClientBlocked (ClientPc.putting_back k stored) value = 2 ^ 64 - 1 ≤ value + stored
ClientBlocked (ClientPc.notifying k) value = 2 ^ 64 - 1 ≤ value + server_token
ClientBlocked ClientPc.finished value = Unit
ClientBlocked _ value = ⊥

lt-or-le : (a b : ℕ) → (a < b) ⊎ (b ≤ a)
lt-or-le a b = omega arith

blocked-IsDone :
    (s : State) → Inv s → ServerBlocked s.server s.value → ClientBlocked s.client s.value → IsDone s
blocked-IsDone s inv v c = ground arith

module _ (fd : EventFd) (law : IsEventFd fd) where
  server_moves :
      (value : ℕ) (p : ServerPc)
      → ((v : ℕ) × (p' : ServerPc) × ServerMove fd value p v p') ⊎ ServerBlocked p value
  server_moves value (ServerPc.loop_test zero) = inl (_, _, ServerMove.leave)
  server_moves value (ServerPc.loop_test (suc k)) = inl (_, _, ServerMove.enter k)
  server_moves zero (ServerPc.waiting k) = inr refl
  server_moves (suc v) (ServerPc.waiting k) = elim (ℕ_discrete (suc v) server_token) [
    | yes e ↦ inl (_, _, ServerMove.take k (suc v) (law.read_suc v) e)
    | no ne ↦ inl (_, _, ServerMove.miss k (suc v) (law.read_suc v) ne)
  ]
  server_moves value (ServerPc.putting_back k stored) =
      elim (lt-or-le (value + stored) (2 ^ 64 - 1)) [
        | inl h ↦ inl (_, _, ServerMove.put_back k stored (law.write_fits stored value h))
        | inr h ↦ inr h
      ]
  server_moves value (ServerPc.notifying k) = elim (lt-or-le (value + client_token) (2 ^ 64 - 1)) [
    | inl h ↦ inl (_, _, ServerMove.notify k (law.write_fits client_token value h))
    | inr h ↦ inr h
  ]
  server_moves value ServerPc.finished = inr tt

  client_moves :
      (value : ℕ) (p : ClientPc)
      → ((v : ℕ) × (p' : ClientPc) × ClientMove fd value p v p') ⊎ ClientBlocked p value
  client_moves value (ClientPc.loop_test zero) = inl (_, _, ClientMove.leave)
  client_moves value (ClientPc.loop_test (suc k)) = inl (_, _, ClientMove.enter k)
  client_moves zero (ClientPc.waiting k) = inr refl
  client_moves (suc v) (ClientPc.waiting k) = elim (ℕ_discrete (suc v) client_token) [
    | yes e ↦ inl (_, _, ClientMove.take k (suc v) (law.read_suc v) e)
    | no ne ↦ inl (_, _, ClientMove.miss k (suc v) (law.read_suc v) ne)
  ]
  client_moves value (ClientPc.putting_back k stored) =
      elim (lt-or-le (value + stored) (2 ^ 64 - 1)) [
        | inl h ↦ inl (_, _, ClientMove.put_back k stored (law.write_fits stored value h))
        | inr h ↦ inr h
      ]
  client_moves value (ClientPc.notifying k) = elim (lt-or-le (value + server_token) (2 ^ 64 - 1)) [
    | inl h ↦ inl (_, _, ClientMove.notify k (law.write_fits server_token value h))
    | inr h ↦ inr h
  ]
  client_moves value ClientPc.finished = inr tt

  -- In every reachable state over an eventfd that behaves as documented, at most one token is in
  -- the counter or about to be added to it, so that no write ever adds to a token; and the client
  -- has finished as many messages as the server, or one fewer.
  tokens_never_mix :
      {count : ℕ} {s : State}
      → Reach fd count s
      → (s.value + server_adds s.server + client_adds s.client ≤ 2)
        × (0 < server_adds s.server → (s.value ≡ 0) × (client_adds s.client ≡ 0))
        × (0 < client_adds s.client → (s.value ≡ 0) × (server_adds s.server ≡ 0))
        × ((client_left s.client ≡ server_left s.server)
            ⊎ (client_left s.client ≡ suc (server_left s.server)))
  tokens_never_mix {s = s} r =
      let inv = Reach-Inv fd law r in
      (ground arith, λ h. ground arith, λ h. ground arith, ground arith)

  -- From every reachable state over an eventfd that behaves as documented, some process can take a
  -- step, unless both are done: no deadlock.
  eventfd_progress :
      {count : ℕ} {s : State} → Reach fd count s → IsDone s ⊎ ((s' : State) × Step fd s s')
  eventfd_progress {s = s} r = elim (server_moves s.value s.server) [
    | inl (v, p, move) ↦ inr (_, server_step move)
    | inr b ↦ elim (client_moves s.value s.client) [
      | inl (v, p, move) ↦ inr (_, client_step move)
      | inr c ↦ inl (blocked-IsDone s (Reach-Inv fd law r) b c)
    ]
  ]

  -- In every reachable state over an eventfd that behaves as documented, at most one token is in the
  -- counter or about to be added to it, so that no write ever adds to a token; the client has finished
  -- as many messages as the server, or one fewer; and some process can take a step, unless both are
  -- done.
  pub eventfd_in_step :
      {count : ℕ} {s : State}
      → Reach fd count s
      → (s.value + server_adds s.server + client_adds s.client ≤ 2)
        × (0 < server_adds s.server → (s.value ≡ 0) × (client_adds s.client ≡ 0))
        × (0 < client_adds s.client → (s.value ≡ 0) × (server_adds s.server ≡ 0))
        × ((client_left s.client ≡ server_left s.server)
            ⊎ (client_left s.client ≡ suc (server_left s.server)))
        × (IsDone s ⊎ ((s' : State) × Step fd s s'))
  eventfd_in_step r =
      let (few, server_alone, client_alone, agree) = tokens_never_mix r in
      (few, server_alone, client_alone, agree, eventfd_progress r)
