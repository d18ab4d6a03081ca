-- ===== src/Mq/Progress.antt =====
-- A process can move, or it waits for the queue; never do both wait.
use ipc_bench.Prelude.{
  Option-cases, Bool-cases, ℕ, zero, suc, ◌≤◌, ◌≡◌, ◌⊎◌, inl, inr, none, List, [], arith,
}
use ipc_bench.Prelude.Int.{pos, to_size}
use ipc_bench.Mq.{
  Message, MessageQueue, IsMessageQueue, ServerPc, ClientPc, ServerMove, ClientMove, State, Step,
  server_step, client_step, server_message, client_message, is_short,
}
use ipc_bench.Mq.Invariant.{Inv}

abbrev pub IsDone : State → Type 0
IsDone s = (s.server ≡ ServerPc.finished) × (s.client ≡ ClientPc.finished)

module _ (mq : MessageQueue) (n : ℕ) where
  -- What stops a process for now.
  abbrev ServerBlocked : ServerPc → List Message → Type 0
  ServerBlocked (ServerPc.receiving k) q = mq.receive client_message (to_size (pos n)) q ≡ none
  ServerBlocked ServerPc.finished q = Unit
  ServerBlocked ServerPc.failed q = Unit
  ServerBlocked _ q = ⊥

  abbrev ClientBlocked : ClientPc → List Message → Type 0
  ClientBlocked (ClientPc.receiving k) q = mq.receive server_message (to_size (pos n)) q ≡ none
  ClientBlocked (ClientPc.sending k) q = mq.send (client_message, to_size (pos n)) q ≡ none
  ClientBlocked ClientPc.finished q = Unit
  ClientBlocked ClientPc.failed q = Unit
  ClientBlocked _ q = ⊥

  server_moves :
      (q : List Message) (p : ServerPc)
      → ((q' : List Message) × (p' : ServerPc) × ServerMove mq (pos n) q p q' p')
        ⊎ ServerBlocked p q
  server_moves q (ServerPc.loop_test zero) = inl (_, _, ServerMove.leave)
  server_moves q (ServerPc.loop_test (suc k)) = inl (_, _, ServerMove.enter k)
  server_moves q (ServerPc.sending k) =
      elim (Option-cases (mq.send (server_message, to_size (pos n)) q)) [
        | inl e ↦ inl (_, _, ServerMove.send_fails k e)
        | inr (q', e) ↦ inl (_, _, ServerMove.send k e)
      ]
  server_moves q (ServerPc.receiving k) =
      elim (Option-cases (mq.receive client_message (to_size (pos n)) q)) [
        | inl e ↦ inr e
        | inr ((m, q'), e) ↦ elim (Bool-cases (is_short m (pos n))) [
          | inl h ↦ inl (_, _, ServerMove.receive_short k m e h)
          | inr h ↦ inl (_, _, ServerMove.receive k m e h)
        ]
      ]
  server_moves q ServerPc.finished = inr tt
  server_moves q ServerPc.failed = inr tt

  client_moves :
      (q : List Message) (p : ClientPc)
      → ((q' : List Message) × (p' : ClientPc) × ClientMove mq (pos n) q p q' p')
        ⊎ ClientBlocked p q
  client_moves q (ClientPc.loop_test zero) = inl (_, _, ClientMove.leave)
  client_moves q (ClientPc.loop_test (suc k)) = inl (_, _, ClientMove.enter k)
  client_moves q (ClientPc.sending k) =
      elim (Option-cases (mq.send (client_message, to_size (pos n)) q)) [
        | inl e ↦ inr e
        | inr (q', e) ↦ inl (_, _, ClientMove.send k e)
      ]
  client_moves q (ClientPc.receiving k) =
      elim (Option-cases (mq.receive server_message (to_size (pos n)) q)) [
        | inl e ↦ inr e
        | inr ((m, q'), e) ↦ elim (Bool-cases (is_short m (pos n))) [
          | inl h ↦ inl (_, _, ClientMove.receive_short k m e h)
          | inr h ↦ inl (_, _, ClientMove.receive k m e h)
        ]
      ]
  client_moves q ClientPc.finished = inr tt
  client_moves q ClientPc.failed = inr tt

  blocked-IsDone :
      IsMessageQueue mq
      → n ≤ 2048
      → (s : State) → Inv n s
      → ServerBlocked s.server s.messages
      → ClientBlocked s.client s.messages
      → IsDone s
  blocked-IsDone law small s inv v c = ground (
    arith,
    law.send_empty client_message n,
    law.receive_first client_message n n [],
    law.receive_first server_message n n [],
  )

  pub progress_of :
      IsMessageQueue mq
      → n ≤ 2048
      → (s : State) → Inv n s
      → IsDone s ⊎ ((s' : State) × Step mq (pos n) s s')
  progress_of law small s inv = elim (server_moves s.messages s.server) [
    | inl (q, p, move) ↦ inr (_, server_step move)
    | inr v ↦ elim (client_moves s.messages s.client) [
      | inl (q, p, move) ↦ inr (_, client_step move)
      | inr c ↦ inl (blocked-IsDone law small s inv v c)
    ]
  ]
