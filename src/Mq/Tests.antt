-- ===== src/Mq/Tests.antt =====
-- A queue, a run over it, and the theorems at it.
use ipc_bench.Prelude.{
  ℕ, ◌+◌, ◌*◌, ◌≤◌, ◌≡◌, ◌≢◌, ◌⊎◌, refl, Option, none, some, List, [], ◌∷◌, arith, min, leb, ◌==◌,
  if◌then◌else◌,
}
use ipc_bench.Prelude.Int.{pos}
use ipc_bench.Common.Arguments.{Arguments}
use ipc_bench.Mq.{
  Message, MessageQueue, IsMessageQueue, ServerPc, ClientPc, ServerMove, State, Step, server_step,
  Reach, start, next, server_message, client_message, limit_message_size,
}
use ipc_bench.Mq.Progress.{IsDone}
use ipc_bench.Mq.Safety.{length_of, steps_left, mq_completes}

-- Two messages wait at most.
abbrev send : Message → List Message → Option (List Message)
send message [] = some (message ∷ [])
send message (m ∷ []) = some (m ∷ message ∷ [])
send message (m ∷ m' ∷ messages) = none

abbrev receive : ℕ → ℕ → List Message → Option (ℕ × List Message)
receive t size [] = none
receive t size ((u, n) ∷ messages) =
    if u == t
    then if leb n size then some (n, messages) else none
    else elim (receive t size messages) [ none ↦ none | some (m, rest) ↦ some (m, (u, n) ∷ rest) ]

abbrev queue : MessageQueue
queue = record { send = send; receive = receive }

queue-IsMessageQueue : IsMessageQueue queue
queue-IsMessageQueue = record {
  send_empty = λ t n h. refl;
  receive_empty = λ t size. refl;
  receive_first = λ t size n messages h. ground arith;
  receive_other = λ t u size n h. ground arith;
}

abbrev large : Arguments
large = record { size = pos 4096; count = pos 1; rate = pos 100 }

limited : (limit_message_size large).size ≡ pos 2048
unfolding limit_message_size
limited = refl

-- The first request is in the queue.
abbrev requested : State
requested = record {
  messages = (2, 2048) ∷ [];
  server = ServerPc.receiving 0;
  client = ClientPc.loop_test 1;
}

requested-Reach : Reach queue (limit_message_size large).size 1 requested
unfolding limit_message_size
requested-Reach =
    next (next start (server_step (ServerMove.enter 0))) (server_step (ServerMove.send 0 refl))

mq_completes_example :
    (requested.server ≢ ServerPc.failed)
    × (requested.client ≢ ClientPc.failed)
    × ((requested.messages ≡ [])
        ⊎ (requested.messages ≡ (server_message, min 4096 2048) ∷ [])
        ⊎ (requested.messages ≡ (client_message, min 4096 2048) ∷ []))
    × (IsDone requested ⊎ ((s' : State) × Step queue (limit_message_size large).size requested s'))
    × (length_of requested-Reach + steps_left requested ≤ 6 * 1 + 2)
mq_completes_example = mq_completes queue queue-IsMessageQueue large 4096 refl requested-Reach
