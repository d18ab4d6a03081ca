-- ===== src/Pingpong/Progress.antt =====
-- When neither process can move.
use ipc_bench.Prelude.{
  ℕ, zero, suc, ◌+◌, ◌≤◌, ◌<◌, ◌≡◌, ◌⊎◌, inl, inr, refl, true, none, arith, Option-cases,
}
use ipc_bench.Pingpong.{
  Signals, IsSignals, ServerPc, ClientPc, Program, State, ServerStep, ClientStep, Step, server_step,
  client_step, Reach,
}
use ipc_bench.Pingpong.Invariant.{Counts, client_count, server_left, IsQuiet, Inv, Reach-Inv}

module _ (signals : Signals) (program : Program) where
  -- What stops a process for now.
  abbrev pub ServerBlocked : ServerPc → State → Type 0
  ServerBlocked ServerPc.starting s = signals.sigwait s.usr1 ≡ none
  ServerBlocked (ServerPc.waiting k) s = signals.sigwait s.usr1 ≡ none
  ServerBlocked (ServerPc.sending k) s = program.capacity < s.stream + program.size
  ServerBlocked ServerPc.finished s = Unit
  ServerBlocked ServerPc.killed s = Unit
  ServerBlocked _ s = ⊥

  abbrev pub ClientBlocked : ClientPc → State → Type 0
  ClientBlocked (ClientPc.waiting k) s = signals.sigwait s.usr2 ≡ none
  ClientBlocked (ClientPc.reading k) s = s.stream < program.size
  ClientBlocked ClientPc.finished s = Unit
  ClientBlocked ClientPc.killed s = Unit
  ClientBlocked _ s = ⊥

  lt-or-le : (a b : ℕ) → (a < b) ⊎ (b ≤ a)
  lt-or-le a b = omega arith

  server_moves :
      (s : State) (p : ServerPc)
      → s.server ≡ p
      → ((s' : State) × ServerStep signals program s s') ⊎ ServerBlocked p s
  server_moves s ServerPc.forked e = inl (_, ServerStep.execute e)
  server_moves s ServerPc.unprepared e = inl (_, ServerStep.set_up e)
  server_moves s ServerPc.killed e = inr tt
  server_moves s ServerPc.starting e = elim (Option-cases (signals.sigwait s.usr1)) [
    | inl w ↦ inr w
    | inr (_, w) ↦ inl (_, ServerStep.begin e w)
  ]
  server_moves s (ServerPc.loop_test zero) e = inl (_, ServerStep.leave e)
  server_moves s (ServerPc.loop_test (suc k)) e = inl (_, ServerStep.enter k e)
  server_moves s (ServerPc.sending k) e =
      elim (lt-or-le program.capacity (s.stream + program.size)) [
        | inl h ↦ inr h
        | inr h ↦ inl (_, ServerStep.send k e h)
      ]
  server_moves s (ServerPc.notifying k) e = inl (_, ServerStep.notify k e)
  server_moves s (ServerPc.waiting k) e = elim (Option-cases (signals.sigwait s.usr1)) [
    | inl w ↦ inr w
    | inr (_, w) ↦ inl (_, ServerStep.wait k e w)
  ]
  server_moves s ServerPc.finished e = inr tt

  client_moves :
      (s : State) (p : ClientPc)
      → s.client ≡ p
      → ((s' : State) × ClientStep signals program s s') ⊎ ClientBlocked p s
  client_moves s ClientPc.forked e = inl (_, ClientStep.execute e)
  client_moves s ClientPc.unprepared e = inl (_, ClientStep.set_up e)
  client_moves s ClientPc.killed e = inr tt
  client_moves s ClientPc.starting e = inl (_, ClientStep.begin e)
  client_moves s (ClientPc.loop_test zero) e = inl (_, ClientStep.leave e)
  client_moves s (ClientPc.loop_test (suc k)) e = inl (_, ClientStep.enter k e)
  client_moves s (ClientPc.waiting k) e = elim (Option-cases (signals.sigwait s.usr2)) [
    | inl w ↦ inr w
    | inr (_, w) ↦ inl (_, ClientStep.wait k e w)
  ]
  client_moves s (ClientPc.reading k) e = elim (lt-or-le s.stream program.size) [
    | inl h ↦ inr h
    | inr h ↦ inl (_, ClientStep.read k e h)
  ]
  client_moves s (ClientPc.notifying k) e = inl (_, ClientStep.notify k e)
  client_moves s ClientPc.finished e = inr tt

  -- Where a run may end: the server is done, and the client is done or waits for a signal.
  abbrev pub AtEnd : (ℕ → ℕ) → State → Type 0
  AtEnd remaining s =
      (s.server ≡ ServerPc.finished)
      × (client_count program.count s.client ≡ remaining 0)
      × ((s.client ≡ ClientPc.finished) ⊎ ((k : ℕ) × (s.client ≡ ClientPc.waiting k)))

  -- Where a run may end if the first signal came too early: it has ended the server, or was caught
  -- and the server waits for it.
  abbrev pub AtMiss : State → Type 0
  AtMiss s =
      ((s.server ≡ ServerPc.killed) ⊎ ((program.inherits ≡ true) × (s.server ≡ ServerPc.starting)))
      × IsQuiet s
      × (((s.client ≡ ClientPc.finished) × (program.count ≡ 0))
          ⊎ ((k : ℕ) × (s.client ≡ ClientPc.waiting k) × (program.count ≡ suc k)))

  blocked-AtEnd :
      (remaining : ℕ → ℕ)
      → IsSignals signals
      → Counts program remaining
      → program.size ≤ program.capacity
      → (s : State) → Inv program remaining s
      → ServerBlocked s.server s
      → ClientBlocked s.client s
      → AtEnd remaining s ⊎ AtMiss s
  blocked-AtEnd remaining law counts fits s inv v c =
      ground
        (arith, law.wait_one, law.wait_zero, counts.some_left (server_left program.count s.server))

  pub progress_of :
      (remaining : ℕ → ℕ)
      → IsSignals signals
      → Counts program remaining
      → program.size ≤ program.capacity
      → {s : State} → Reach signals program s
      → (AtEnd remaining s ⊎ AtMiss s) ⊎ ((s' : State) × Step signals program s s')
  progress_of remaining law counts fits {s} r = elim (server_moves s s.server refl) [
    | inl (s', step) ↦ inr (s', server_step step)
    | inr v ↦ elim (client_moves s s.client refl) [
      | inl (s', step) ↦ inr (s', client_step step)
      | inr c ↦ inl (
          blocked-AtEnd remaining law counts fits s
            (Reach-Inv signals law program remaining counts r) v c)
    ]
  ]
