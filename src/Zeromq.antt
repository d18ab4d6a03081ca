-- ===== src/Zeromq.antt =====
-- source/zeromq/server.c and source/zeromq/client.c: requests and replies over the sockets of ZeroMQ, of
-- the kinds ZMQ_REP and ZMQ_REQ.
-- A step is one call on a socket or one test of a loop. A `throw` ends in the place `failed`.
pub mod Calls
pub mod Invariant
pub mod Progress
pub mod Main
mod Tests
use ipc_bench.Prelude.{ℕ, zero, suc, ◌≡◌, true, false}
use ipc_bench.Prelude.Int.{ℤ, to_size}
use ipc_bench.Mq.{is_short}

-- What a call comes to: it waits, it returns -1, or it returns a length.
pub data Answer (L : Type 0) : Type 0 where
  blocks : Answer L
  fails : Answer L
  done : ℕ → L → Answer L

-- Where the exchange stands, with the length of a message that is on its way.
pub data Phase : Type 0 where
  idle : Phase
  requested : ℕ → Phase
  received : Phase
  replied : ℕ → Phase

-- The library, at the state of the connection of the two sockets. `send` takes the length of the
-- message, `recv` that of the buffer.
pub record ReqRep : Type 1 where
  pub Link : Type 0
  pub initial : Link
  pub phase : Link → Phase
  pub req_send : ℕ → Link → Answer Link
  pub req_recv : ℕ → Link → Answer Link
  pub rep_send : ℕ → Link → Answer Link
  pub rep_recv : ℕ → Link → Answer Link

-- A call returns the length `n` and leaves the phase `p`.
abbrev pub Moves : (lib : ReqRep) → Answer lib.Link → ℕ → Phase → Type 0
Moves lib answer n p = (l : lib.Link) × (answer ≡ done n l) × (lib.phase l ≡ p)

-- zmq_socket(3), zmq_send(3), zmq_recv(3): requests and replies take turns; a send returns the length of
-- its message, a receive that of the message that it takes (even if the buffer is shorter), and it
-- waits for a message that has not been sent.
pub record IsReqRep (lib : ReqRep) : Type 0 where
  pub starts : lib.phase lib.initial ≡ idle
  pub req_sends :
      (n : ℕ) (l : lib.Link) → lib.phase l ≡ idle → Moves lib (lib.req_send n l) n (requested n)
  pub rep_receives :
      (n m : ℕ) (l : lib.Link) → lib.phase l ≡ requested m → Moves lib (lib.rep_recv n l) m received
  pub rep_sends :
      (n : ℕ) (l : lib.Link) → lib.phase l ≡ received → Moves lib (lib.rep_send n l) n (replied n)
  pub req_receives :
      (n m : ℕ) (l : lib.Link) → lib.phase l ≡ replied m → Moves lib (lib.req_recv n l) m idle
  pub rep_waits_idle : (n : ℕ) (l : lib.Link) → lib.phase l ≡ idle → lib.rep_recv n l ≡ blocks
  pub rep_waits_replied :
      (n m : ℕ) (l : lib.Link) → lib.phase l ≡ replied m → lib.rep_recv n l ≡ blocks
  pub req_waits_requested :
      (n m : ℕ) (l : lib.Link) → lib.phase l ≡ requested m → lib.req_recv n l ≡ blocks
  pub req_waits_received :
      (n : ℕ) (l : lib.Link) → lib.phase l ≡ received → lib.req_recv n l ≡ blocks

-- Where the server stands in `communicate`. The number is the messages left after this one, at
-- `loop_test` all that are left.
pub data ServerPc : Type 0 where
  loop_test : ℕ → ServerPc
  receiving : ℕ → ServerPc
  sending : ℕ → ServerPc
  finished : ServerPc
  failed : ServerPc

-- Where the client stands.
pub data ClientPc : Type 0 where
  loop_test : ℕ → ClientPc
  sending : ℕ → ClientPc
  receiving : ℕ → ClientPc
  finished : ClientPc
  failed : ClientPc

module _ (lib : ReqRep) (size : ℤ) where
  -- The calls of the server, where -1 is less than every size that is not negative; a negative size
  -- is not compared, since no buffer has it.
  pub data ServerMove (l : lib.Link) : ServerPc → lib.Link → ServerPc → Type 0 where
    leave : ServerMove l (loop_test zero) l finished
    enter : (k : ℕ) → ServerMove l (loop_test (suc k)) l (receiving k)
    receive :
        (k n : ℕ) {l' : lib.Link}
        → lib.rep_recv (to_size size) l ≡ done n l'
        → is_short n size ≡ false
        → ServerMove l (receiving k) l' (sending k)
    receive_short :
        (k n : ℕ) {l' : lib.Link}
        → lib.rep_recv (to_size size) l ≡ done n l'
        → is_short n size ≡ true
        → ServerMove l (receiving k) l' failed
    receive_fails :
        (k : ℕ) → lib.rep_recv (to_size size) l ≡ fails → ServerMove l (receiving k) l failed
    send :
        (k n : ℕ) {l' : lib.Link}
        → lib.rep_send (to_size size) l ≡ done n l'
        → is_short n size ≡ false
        → ServerMove l (sending k) l' (loop_test k)
    send_short :
        (k n : ℕ) {l' : lib.Link}
        → lib.rep_send (to_size size) l ≡ done n l'
        → is_short n size ≡ true
        → ServerMove l (sending k) l' failed
    send_fails : (k : ℕ) → lib.rep_send (to_size size) l ≡ fails → ServerMove l (sending k) l failed

  pub data ClientMove (l : lib.Link) : ClientPc → lib.Link → ClientPc → Type 0 where
    leave : ClientMove l (loop_test zero) l finished
    enter : (k : ℕ) → ClientMove l (loop_test (suc k)) l (sending k)
    send :
        (k n : ℕ) {l' : lib.Link}
        → lib.req_send (to_size size) l ≡ done n l'
        → is_short n size ≡ false
        → ClientMove l (sending k) l' (receiving k)
    send_short :
        (k n : ℕ) {l' : lib.Link}
        → lib.req_send (to_size size) l ≡ done n l'
        → is_short n size ≡ true
        → ClientMove l (sending k) l' failed
    send_fails : (k : ℕ) → lib.req_send (to_size size) l ≡ fails → ClientMove l (sending k) l failed
    receive :
        (k n : ℕ) {l' : lib.Link}
        → lib.req_recv (to_size size) l ≡ done n l'
        → is_short n size ≡ false
        → ClientMove l (receiving k) l' (loop_test k)
    receive_short :
        (k n : ℕ) {l' : lib.Link}
        → lib.req_recv (to_size size) l ≡ done n l'
        → is_short n size ≡ true
        → ClientMove l (receiving k) l' failed
    receive_fails :
        (k : ℕ) → lib.req_recv (to_size size) l ≡ fails → ClientMove l (receiving k) l failed

  -- The states that the two get to, with `count` messages.
  pub data Reach (count : ℕ) : lib.Link → ServerPc → ClientPc → Type 0 where
    start : Reach count lib.initial (ServerPc.loop_test count) (ClientPc.loop_test count)
    server_step :
        {l l' : lib.Link} {v v' : ServerPc} {c : ClientPc}
        → Reach count l v c
        → ServerMove l v l' v'
        → Reach count l' v' c
    client_step :
        {l l' : lib.Link} {v : ServerPc} {c c' : ClientPc}
        → Reach count l v c
        → ClientMove l c l' c'
        → Reach count l' v c'
