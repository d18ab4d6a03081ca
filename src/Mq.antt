-- ===== src/Mq.antt =====
-- source/mq/server.c and source/mq/client.c: requests and replies through one message queue, told
-- apart by the type of the message.
-- A step is one call on the queue or one test of a loop. A `throw` ends in the place `failed`.
pub mod Invariant
pub mod Progress
pub mod Create
pub mod Safety
mod Tests
use ipc_bench.Prelude.{
  ℕ, zero, suc, ◌≤◌, ◌≡◌, ◌≢◌, Bool, true, false, Option, none, some, List, [], ◌∷◌, ltb,
  if◌then◌else◌,
}
use ipc_bench.Prelude.Int.{ℤ, pos, negsuc, to_size}
use ipc_bench.Common.Arguments.{Arguments}

abbrev pub maximum_message_size : ℕ
maximum_message_size = 2048

abbrev pub client_message : ℕ
client_message = 1

abbrev pub server_message : ℕ
server_message = 2

-- `args->size > MAXIMUM_MESSAGE_SIZE`
abbrev pub is_too_large : ℤ → Bool
is_too_large (pos n) = ltb maximum_message_size n
is_too_large (negsuc n) = false

-- Both mains do this, the server's by a function.
unfoldable pub limit_message_size : Arguments → Arguments
limit_message_size args =
    if is_too_large args.size then record args { size = pos maximum_message_size } else args

-- `msgrcv(...) < args->size`, for the length that it returns.
abbrev pub is_short : ℕ → ℤ → Bool
is_short n (pos m) = ltb n m
is_short n (negsuc m) = false

-- A message in the queue: its type and its length.
abbrev pub Message : Type 0
Message = ℕ × ℕ

-- The kernel's side, at the messages in the queue, oldest first. `send` is `none` where the message
-- does not fit, `receive`, for a type and the size of the buffer, where no message of the type waits.
pub record MessageQueue : Type 0 where
  pub send : Message → List Message → Option (List Message)
  pub receive : ℕ → ℕ → List Message → Option (ℕ × List Message)

-- msgop(2): an empty queue takes a message of up to MSGMAX (8192) bytes; a receive takes the oldest
-- message of its type, with its length, and waits where there is none.
pub record IsMessageQueue (mq : MessageQueue) : Type 0 where
  pub send_empty : (t n : ℕ) → n ≤ 8192 → mq.send (t, n) [] ≡ some ((t, n) ∷ [])
  pub receive_empty : (t size : ℕ) → mq.receive t size [] ≡ none
  pub receive_first :
      (t size n : ℕ) (messages : List Message)
      → n ≤ size
      → mq.receive t size ((t, n) ∷ messages) ≡ some (n, messages)
  pub receive_other : (t u size n : ℕ) → t ≢ u → mq.receive t size ((u, n) ∷ []) ≡ none

-- Where the server stands in `communicate`. The number is the messages left after this one, at
-- `loop_test` all that are left.
pub data ServerPc : Type 0 where
  loop_test : ℕ → ServerPc
  sending : ℕ → ServerPc
  receiving : ℕ → ServerPc
  finished : ServerPc
  failed : ServerPc

-- Where the client stands.
pub data ClientPc : Type 0 where
  loop_test : ℕ → ClientPc
  receiving : ℕ → ClientPc
  sending : ℕ → ClientPc
  finished : ClientPc
  failed : ClientPc

module _ (mq : MessageQueue) (size : ℤ) where
  -- A step of the server. It sends with IPC_NOWAIT: where the message does not fit, that is an error.
  pub data ServerMove (q : List Message) : ServerPc → List Message → ServerPc → Type 0 where
    leave : ServerMove q (loop_test zero) q finished
    enter : (k : ℕ) → ServerMove q (loop_test (suc k)) q (sending k)
    send :
        (k : ℕ) {q' : List Message}
        → mq.send (server_message, to_size size) q ≡ some q'
        → ServerMove q (sending k) q' (receiving k)
    send_fails :
        (k : ℕ)
        → mq.send (server_message, to_size size) q ≡ none
        → ServerMove q (sending k) q failed
    receive :
        (k n : ℕ) {q' : List Message}
        → mq.receive client_message (to_size size) q ≡ some (n, q')
        → is_short n size ≡ false
        → ServerMove q (receiving k) q' (loop_test k)
    receive_short :
        (k n : ℕ) {q' : List Message}
        → mq.receive client_message (to_size size) q ≡ some (n, q')
        → is_short n size ≡ true
        → ServerMove q (receiving k) q' failed

  -- A step of the client. Its send waits until the message fits.
  pub data ClientMove (q : List Message) : ClientPc → List Message → ClientPc → Type 0 where
    leave : ClientMove q (loop_test zero) q finished
    enter : (k : ℕ) → ClientMove q (loop_test (suc k)) q (receiving k)
    receive :
        (k n : ℕ) {q' : List Message}
        → mq.receive server_message (to_size size) q ≡ some (n, q')
        → is_short n size ≡ false
        → ClientMove q (receiving k) q' (sending k)
    receive_short :
        (k n : ℕ) {q' : List Message}
        → mq.receive server_message (to_size size) q ≡ some (n, q')
        → is_short n size ≡ true
        → ClientMove q (receiving k) q' failed
    send :
        (k : ℕ) {q' : List Message}
        → mq.send (client_message, to_size size) q ≡ some q'
        → ClientMove q (sending k) q' (loop_test k)

pub record State : Type 0 where
  pub messages : List Message
  pub server : ServerPc
  pub client : ClientPc

-- Either process moves.
pub data Step (mq : MessageQueue) (size : ℤ) (s : State) : State → Type 0 where
  server_step :
      {q : List Message} {p : ServerPc}
      → ServerMove mq size s.messages s.server q p
      → Step mq size s (record s { messages = q; server = p })
  client_step :
      {q : List Message} {p : ClientPc}
      → ClientMove mq size s.messages s.client q p
      → Step mq size s (record s { messages = q; client = p })

-- From an empty queue on, with `count` messages.
pub data Reach (mq : MessageQueue) (size : ℤ) (count : ℕ) : State → Type 0 where
  start : Reach mq size count (record {
    messages = [];
    server = ServerPc.loop_test count;
    client = ClientPc.loop_test count;
  })
  next : {s s' : State} → Reach mq size count s → Step mq size s s' → Reach mq size count s'
