-- ===== src/Mq/Create/Laws.antt =====
-- When the client asks for the queue, and where the two can stop.
use ipc_bench.Prelude.{ℕ, zero, suc, ◌≤◌, ◌≡◌, ◌≢◌, ◌⊎◌, inl, inr, refl, Bool, true, false, arith}
use ipc_bench.Pingpong.{Signals, IsSignals}
use ipc_bench.Mq.Create.{
  ServerPc, ClientPc, State, ServerStep, ClientStep, Step, server_step, client_step, Reach, start,
  next,
}

-- The client before a signal has come to it.
abbrev is_untold : ClientPc → Bool
is_untold ClientPc.forked = true
is_untold ClientPc.unprepared = true
is_untold ClientPc.waiting = true
is_untold _ = false

-- The server before its `msgget` has succeeded.
abbrev is_without : ServerPc → Bool
is_without ServerPc.creating = true
is_without ServerPc.failed = true
is_without _ = false

abbrev has_notified : ServerPc → Bool
has_notified ServerPc.created = true
has_notified _ = false

record Inv (s : State) : Type 0 where
  exists : is_without s.server ≡ false → s.queue_exists ≡ true
  silent : has_notified s.server ≡ false → is_untold s.client ≡ true
  none_pending : has_notified s.server ≡ false → s.usr2 ≡ 0
  pending : s.usr2 ≤ 1
  never_failed : s.client ≢ ClientPc.failed

-- Where nothing can be done any more.
abbrev pub IsStopped : State → Type 0
IsStopped s =
    ((s.server ≡ ServerPc.created) × (s.client ≡ ClientPc.retrieved))
    ⊎ ((s.server ≡ ServerPc.created) × (s.client ≡ ClientPc.killed))
    ⊎ ((s.server ≡ ServerPc.created) × (s.client ≡ ClientPc.waiting) × (s.usr2 ≡ 0))
    ⊎ ((s.server ≡ ServerPc.failed) × (s.client ≡ ClientPc.waiting))

none_or_one : (n : ℕ) → n ≤ 1 → (n ≡ 0) ⊎ (n ≡ 1)
none_or_one zero h = inl refl
none_or_one (suc n) h = inr (omega arith)

module _ (signals : Signals) (law : IsSignals signals) where
  ServerStep-Inv : {s s' : State} → ServerStep signals s s' → Inv s → Inv s'
  ServerStep-Inv (ServerStep.create e) inv = ground arith
  ServerStep-Inv (ServerStep.create_fails e) inv = ground arith
  ServerStep-Inv (ServerStep.set_up e) inv = ground arith
  ServerStep-Inv {s} (ServerStep.notify e) inv = ground (arith, law.kill_once s.usr2)

  ClientStep-Inv : {s s' : State} → ClientStep signals s s' → Inv s → Inv s'
  ClientStep-Inv (ClientStep.execute e) inv = ground arith
  ClientStep-Inv (ClientStep.set_up e) inv = ground arith
  ClientStep-Inv {s} (ClientStep.wait e w) inv = ground (arith, law.wait_zero, law.wait_one)
  ClientStep-Inv (ClientStep.retrieve e h) inv = ground arith
  ClientStep-Inv (ClientStep.retrieve_fails e h) inv = ground arith

  Reach-Inv : {left_over : Bool} {s : State} → Reach signals left_over s → Inv s
  Reach-Inv start = ground arith
  Reach-Inv (next r (server_step st)) = ServerStep-Inv st (Reach-Inv r)
  Reach-Inv (next r (client_step st)) = ClientStep-Inv st (Reach-Inv r)

  server_moves :
      (s : State)
      → (s.server ≡ ServerPc.created)
        ⊎ (s.server ≡ ServerPc.failed)
        ⊎ ((s' : State) × Step signals s s')
  server_moves s = by_place s.server refl
    where
      by_place :
          (p : ServerPc)
          → s.server ≡ p
          → (s.server ≡ ServerPc.created)
            ⊎ (s.server ≡ ServerPc.failed)
            ⊎ ((s' : State) × Step signals s s')
      by_place ServerPc.creating e = inr (inr (_, server_step (ServerStep.create e)))
      by_place ServerPc.setting_up e = inr (inr (_, server_step (ServerStep.set_up e)))
      by_place ServerPc.notifying e = inr (inr (_, server_step (ServerStep.notify e)))
      by_place ServerPc.created e = inl e
      by_place ServerPc.failed e = inr (inl e)

  -- Behind its setup the client can go on with a signal, or has come to an end.
  client_moves :
      (s : State)
      → Inv s
      → (s.client ≡ ClientPc.retrieved)
        ⊎ (s.client ≡ ClientPc.killed)
        ⊎ ((s.client ≡ ClientPc.waiting) × (s.usr2 ≡ 0))
        ⊎ ((s' : State) × Step signals s s')
  client_moves s inv = by_place s.client refl
    where
      by_place :
          (p : ClientPc)
          → s.client ≡ p
          → (s.client ≡ ClientPc.retrieved)
            ⊎ (s.client ≡ ClientPc.killed)
            ⊎ ((s.client ≡ ClientPc.waiting) × (s.usr2 ≡ 0))
            ⊎ ((s' : State) × Step signals s s')
      by_place ClientPc.forked e = inr (inr (inr (_, client_step (ClientStep.execute e))))
      by_place ClientPc.unprepared e = inr (inr (inr (_, client_step (ClientStep.set_up e))))
      by_place ClientPc.waiting e = elim (none_or_one s.usr2 inv.pending) [
        | inl z ↦ inr (inr (inl (e, z)))
        | inr z ↦
            inr (inr (inr (_, client_step (ClientStep.wait {usr2 = 0} e (rw z law.wait_one)))))
      ]
      by_place ClientPc.retrieving e = inr (
          inr (
            inr (_, client_step (ClientStep.retrieve e (inv.exists (ground (arith, inv.silent)))))))
      by_place ClientPc.retrieved e = inl e
      by_place ClientPc.failed e = absurd (inv.never_failed e)
      by_place ClientPc.killed e = inr (inl e)

  -- With signals as documented: the client asks for the queue only when the server has created it and
  -- has sent its signal, so that it never fails to find it. From every reachable state some process can
  -- go on, until the client has the queue, was ended by the signal before its setup, or waits for a
  -- signal that came before that or never comes because the server failed.
  pub mq_created_before_retrieved :
      {left_over : Bool} {s : State}
      → Reach signals left_over s
      → (s.client ≡ ClientPc.retrieving → (s.queue_exists ≡ true) × (s.server ≡ ServerPc.created))
        × (s.client ≢ ClientPc.failed)
        × (IsStopped s ⊎ ((s' : State) × Step signals s s'))
  mq_created_before_retrieved {s = s} r =
      let inv = Reach-Inv r in
      (
        λ e. (ground arith, ground arith),
        inv.never_failed,
        elim (server_moves s) [
          | inr (inr step) ↦ inr step
          | inl e ↦ elim (client_moves s inv) [
            | inl e' ↦ inl (inl (e, e'))
            | inr (inl e') ↦ inl (inr (inl (e, e')))
            | inr (inr (inl (e', z))) ↦ inl (inr (inr (inl (e, e', z))))
            | inr (inr (inr step)) ↦ inr step
          ]
          | inr (inl e) ↦ elim (client_moves s inv) [
            | inl e' ↦ absurd (let f : ⊥ = ground arith in f)
            | inr (inl e') ↦ absurd (let f : ⊥ = ground arith in f)
            | inr (inr (inl (e', z))) ↦ inl (inr (inr (inr (e, e'))))
            | inr (inr (inr step)) ↦ inr step
          ]
        ],
      )
