-- ===== src/Mq/Safety.antt =====
-- The server never meets a full queue, no message is short, and every run comes to its end.
use ipc_bench.Prelude.{ℕ, suc, ◌+◌, ◌*◌, ◌≤◌, ◌<◌, ◌≡◌, ◌≢◌, ◌⊎◌, [], ◌∷◌, arith, min}
use ipc_bench.Prelude.Int.{ℤ, pos}
use ipc_bench.Common.Arguments.{Arguments}
use ipc_bench.Mq.{
  MessageQueue, IsMessageQueue, ServerPc, ClientPc, ServerMove, ClientMove, State, Step,
  server_step, client_step, Reach, start, next, server_message, client_message, limit_message_size,
}
use ipc_bench.Mq.Invariant.{Reach-Inv}
use ipc_bench.Mq.Progress.{IsDone, progress_of}

limit_message_size_lem :
    (args : Arguments) (n : ℕ)
    → args.size ≡ pos n
    → (limit_message_size args).size ≡ pos (min n 2048)
unfolding limit_message_size
limit_message_size_lem args n e = ground arith

abbrev server_steps : ServerPc → ℕ
server_steps (ServerPc.loop_test k) = 3 * k + 1
server_steps (ServerPc.sending k) = 3 * k + 3
server_steps (ServerPc.receiving k) = 3 * k + 2
server_steps _ = 0

abbrev client_steps : ClientPc → ℕ
client_steps (ClientPc.loop_test k) = 3 * k + 1
client_steps (ClientPc.receiving k) = 3 * k + 3
client_steps (ClientPc.sending k) = 3 * k + 2
client_steps _ = 0

-- The steps that are left at most.
abbrev pub steps_left : State → ℕ
steps_left s = server_steps s.server + client_steps s.client

abbrev pub length_of :
    {mq : MessageQueue} {size : ℤ} {count : ℕ} {s : State} → Reach mq size count s → ℕ
length_of start = 0
length_of (next r st) = suc (length_of r)

Step-lt :
    {mq : MessageQueue} {size : ℤ} {s s' : State} → Step mq size s s' → steps_left s' < steps_left s
Step-lt (server_step ServerMove.leave) = omega arith
Step-lt (server_step (ServerMove.enter k)) = omega arith
Step-lt (server_step (ServerMove.send k e)) = omega arith
Step-lt (server_step (ServerMove.send_fails k e)) = omega arith
Step-lt (server_step (ServerMove.receive k n e h)) = omega arith
Step-lt (server_step (ServerMove.receive_short k n e h)) = omega arith
Step-lt (client_step ClientMove.leave) = omega arith
Step-lt (client_step (ClientMove.enter k)) = omega arith
Step-lt (client_step (ClientMove.receive k n e h)) = omega arith
Step-lt (client_step (ClientMove.receive_short k n e h)) = omega arith
Step-lt (client_step (ClientMove.send k e)) = omega arith

Reach-le :
    {mq : MessageQueue} {size : ℤ} {count : ℕ} {s : State} (r : Reach mq size count s)
    → length_of r + steps_left s ≤ 6 * count + 2
Reach-le start = omega arith
Reach-le (next r st) = omega (arith, Reach-le r, Step-lt st)

module _ (mq : MessageQueue) (law : IsMessageQueue mq) (args : Arguments) (n : ℕ)
    (positive : args.size ≡ pos n) where
  -- Over a message queue that behaves as documented and with a size that is not negative: in every
  -- reachable state no process has failed (the server's sends fit, and no message is short), the queue
  -- holds at most one message, of the limited size, and some process can take a step, unless both are
  -- done; and a run with `count` messages has at most 6 * count + 2 steps.
  pub mq_completes :
      {count : ℕ} {s : State} (r : Reach mq (limit_message_size args).size count s)
      → (s.server ≢ ServerPc.failed)
        × (s.client ≢ ClientPc.failed)
        × ((s.messages ≡ [])
            ⊎ (s.messages ≡ (server_message, min n 2048) ∷ [])
            ⊎ (s.messages ≡ (client_message, min n 2048) ∷ []))
        × (IsDone s ⊎ ((s' : State) × Step mq (limit_message_size args).size s s'))
        × (length_of r + steps_left s ≤ 6 * count + 2)
  mq_completes {count} {s} r =
      let e = limit_message_size_lem args n positive in
      let r' : Reach mq (pos (min n 2048)) count s = rw (← e) r in
      let small : min n 2048 ≤ 2048 = omega arith in
      let inv = Reach-Inv mq law (min n 2048) small r' in
      (
        λ h. ground arith,
        λ h. ground arith,
        ground arith,
        rw e (progress_of mq (min n 2048) law small s inv),
        Reach-le r,
      )
