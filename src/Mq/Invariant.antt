-- ===== src/Mq/Invariant.antt =====
-- The queue holds at most the one message whose reader waits for it.
use ipc_bench.Prelude.{
  ℕ, suc, ◌≤◌, ◌≡◌, ◌≢◌, ◌⊎◌, inl, refl, Bool, true, false, some, ℕ_discrete, List, [], ◌∷◌, arith,
}
use ipc_bench.Prelude.Int.{pos, to_size}
use ipc_bench.Mq.{
  Message, MessageQueue, IsMessageQueue, ServerPc, ClientPc, ServerMove, ClientMove, State, Step,
  server_step, client_step, Reach, start, next, server_message, client_message,
}

-- The messages that each side has yet to exchange.
abbrev pub server_left : ServerPc → ℕ
server_left (ServerPc.loop_test k) = k
server_left (ServerPc.sending k) = suc k
server_left (ServerPc.receiving k) = suc k
server_left _ = 0

abbrev pub client_left : ClientPc → ℕ
client_left (ClientPc.loop_test k) = k
client_left (ClientPc.receiving k) = suc k
client_left (ClientPc.sending k) = suc k
client_left _ = 0

abbrev pub server_receives : ServerPc → Bool
server_receives (ServerPc.receiving k) = true
server_receives _ = false

abbrev pub server_prepares : ServerPc → Bool
server_prepares (ServerPc.loop_test k) = true
server_prepares (ServerPc.sending k) = true
server_prepares ServerPc.finished = true
server_prepares _ = false

abbrev pub client_listens : ClientPc → Bool
client_listens (ClientPc.loop_test k) = true
client_listens (ClientPc.receiving k) = true
client_listens ClientPc.finished = true
client_listens _ = false

abbrev pub client_sends : ClientPc → Bool
client_sends (ClientPc.sending k) = true
client_sends _ = false

-- Nothing is under way.
pub record Idle (s : State) : Type 0 where
  pub empty : s.messages ≡ []
  pub prepares : server_prepares s.server ≡ true
  pub listens : client_listens s.client ≡ true
  pub agree : client_left s.client ≡ server_left s.server

pub record Request (n : ℕ) (s : State) : Type 0 where
  pub holds : s.messages ≡ (server_message, n) ∷ []
  pub receives : server_receives s.server ≡ true
  pub listens : client_listens s.client ≡ true
  pub agree : client_left s.client ≡ server_left s.server

pub record Answer (s : State) : Type 0 where
  pub empty : s.messages ≡ []
  pub receives : server_receives s.server ≡ true
  pub sends : client_sends s.client ≡ true
  pub agree : client_left s.client ≡ server_left s.server

pub record Reply (n : ℕ) (s : State) : Type 0 where
  pub holds : s.messages ≡ (client_message, n) ∷ []
  pub receives : server_receives s.server ≡ true
  pub listens : client_listens s.client ≡ true
  pub agree : suc (client_left s.client) ≡ server_left s.server

abbrev pub Inv : ℕ → State → Type 0
Inv n s = Idle s ⊎ Request n s ⊎ Answer s ⊎ Reply n s

module _ (mq : MessageQueue) (law : IsMessageQueue mq) (n : ℕ) (small : n ≤ 2048) where
  -- A receive with the empty queue, or with one message of this size, that does not wait.
  receive_lem :
      (t m : ℕ) (q q' : List Message)
      → mq.receive t (to_size (pos n)) q ≡ some (m, q')
      → (q ≢ []) × ((u : ℕ) → q ≡ (u, n) ∷ [] → (u ≡ t) × (m ≡ n) × (q' ≡ []))
  receive_lem t m q q' e = (
    λ z. ground (arith, law.receive_empty t n),
    λ u z. elim (ℕ_discrete t u) [
      | yes same ↦ ground (arith, law.receive_first t n n [])
      | no other ↦ ground (arith, law.receive_other t u n n other)
    ],
  )

  ServerMove-Inv :
      {q q' : List Message} {p p' : ServerPc} (c : ClientPc)
      → ServerMove mq (pos n) q p q' p'
      → Inv n (record { messages = q; server = p; client = c })
      → Inv n (record { messages = q'; server = p'; client = c })
  ServerMove-Inv c ServerMove.leave inv = ground arith
  ServerMove-Inv c (ServerMove.enter k) inv = ground arith
  ServerMove-Inv c (ServerMove.send k e) inv = ground (arith, law.send_empty server_message n)
  ServerMove-Inv c (ServerMove.send_fails k e) inv = ground (arith, law.send_empty server_message n)
  ServerMove-Inv {q} {q'} c (ServerMove.receive k m e h) inv =
      let got = receive_lem client_message m q q' e in
      ground (arith, got.0, got.1 server_message, got.1 client_message)
  ServerMove-Inv {q} {q'} c (ServerMove.receive_short k m e h) inv =
      let got = receive_lem client_message m q q' e in
      ground (arith, got.0, got.1 server_message, got.1 client_message)

  ClientMove-Inv :
      {q q' : List Message} {p p' : ClientPc} (v : ServerPc)
      → ClientMove mq (pos n) q p q' p'
      → Inv n (record { messages = q; server = v; client = p })
      → Inv n (record { messages = q'; server = v; client = p' })
  ClientMove-Inv v ClientMove.leave inv = ground arith
  ClientMove-Inv v (ClientMove.enter k) inv = ground arith
  ClientMove-Inv v (ClientMove.send k e) inv = ground (arith, law.send_empty client_message n)
  ClientMove-Inv {q} {q'} v (ClientMove.receive k m e h) inv =
      let got = receive_lem server_message m q q' e in
      ground (arith, got.0, got.1 server_message, got.1 client_message)
  ClientMove-Inv {q} {q'} v (ClientMove.receive_short k m e h) inv =
      let got = receive_lem server_message m q q' e in
      ground (arith, got.0, got.1 server_message, got.1 client_message)

  Step-Inv : {s s' : State} → Step mq (pos n) s s' → Inv n s → Inv n s'
  Step-Inv {s} (server_step move) inv = ServerMove-Inv s.client move inv
  Step-Inv {s} (client_step move) inv = ClientMove-Inv s.server move inv

  pub Reach-Inv : {count : ℕ} {s : State} → Reach mq (pos n) count s → Inv n s
  Reach-Inv start = inl (record { empty = refl; prepares = refl; listens = refl; agree = refl })
  Reach-Inv (next r st) = Step-Inv st (Reach-Inv r)
