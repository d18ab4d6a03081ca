-- ===== src/Setup.antt =====
-- How the programs of source/tcp, source/domain and source/fifo reach their connection before
-- `communicate`, and those of source/shm, source/mmap and source/shm-sync their memory: sequences of
-- kernel calls, whose answers may depend on all calls before.
pub mod Order
pub mod Memory
mod Tests
mod MemoryTests
use ipc_bench.Prelude.{
  ℕ, zero, suc, Bool, true, false, Option, none, some, List, [], ◌∷◌, ◌==◌, if◌then◌else◌,
}
use ipc_bench.Prelude.Int.{ℤ}
use ipc_bench.Common.Sockets.{Request}
use ipc_bench.Common.Sockets

-- The named pipes, and the modes of `open`.
pub data File : Type 0 where
  request response tcp_fifo socket_fifo mmap_file : File

pub data Mode : Type 0 where
  read_only write_only read_write : Mode
  create : Mode  -- `O_RDWR | O_CREAT`

-- A descriptor as the programs pass it on: `none` is -1.
abbrev pub Descriptor : Type 0
Descriptor = Option ℕ

-- The calls on a mutex and a condition variable, and on the attributes that they are made with. 0 is
-- success.
pub data Pthread : Type 0 where
  mutexattr_init condattr_init mutexattr_setpshared condattr_setpshared : Pthread
  mutex_init cond_init mutexattr_destroy condattr_destroy mutex_destroy cond_destroy : Pthread

-- The ends of the pipe of source/pipe.
pub data PipeEnd : Type 0 where
  read_end write_end : PipeEnd

-- The calls of ZeroMQ that make contexts and sockets and end them, where `none` is NULL or -1. The
-- endpoints are "tcp://*:port", "tcp://localhost:port" and "ipc:///tmp/zmq_ipc".
pub data SocketKind : Type 0 where
  reply_kind request_kind : SocketKind

pub data Endpoint : Type 0 where
  any_interface local_host : (port : ℕ) → Endpoint
  ipc_file : Endpoint

pub data Zmq : Type 0 where
  new_context : Zmq
  new_socket : (context : ℕ) → SocketKind → Zmq
  bind_socket connect_socket : (socket : ℕ) → Endpoint → Zmq
  close_socket : (socket : ℕ) → Zmq
  destroy_context : (context : ℕ) → Zmq

-- A call of the kernel or of a library or, at `touch`, an access to memory. An address is a number, as
-- for the entries of `getaddrinfo`; a Unix domain socket has the address 0.
pub data Call : Type 0 where
  open_file : File → Mode → Call
  set_pipe_size : ℕ → ℕ → Call
  read_byte write_byte : Descriptor → Call
  socket : ℕ → Call
  reuse_address : Descriptor → Call
  remove_path : Call
  bind connect : Descriptor → ℕ → Call
  listen accept close : Descriptor → Call
  option : Descriptor → Request → Call
  catch_interrupt : Call  -- `sigaction(SIGINT, ...)`
  seek : Descriptor → ℤ → Call
  map_file : Descriptor → ℕ → Call  -- `mmap` of so many bytes from the start of the file
  unmap : Option ℕ → ℕ → Call
  remove_file : File → Call
  make_key : Call  -- `ftok("shm", 'X')`
  get_segment : Option ℕ → ℕ → Call  -- `shmget(key, size, IPC_CREAT | 0666)`
  attach : ℕ → Call
  detach : Option ℕ → Call
  remove_segment : ℕ → Call
  touch : Option ℕ → ℕ → Call  -- reads and writes of so many bytes from an address on
  pthread : Pthread → Call
  make_pipe : Call
  fork : Call  -- 0 in the child
  close_end open_end : PipeEnd → Call  -- `close` and `fdopen` of `file_descriptors[0]` or `[1]`
  zeromq : Zmq → Call

-- The calls made, the last one first.
abbrev pub History : Type 0
History = List Call

-- The answers, at the calls made before: `none` is -1. `addresses` is `getaddrinfo`, and `none` its
-- failure.
pub record Kernel : Type 0 where
  pub answer : History → Call → Option ℕ
  pub addresses : History → Option (List ℕ)

-- `exited` is `throw`, `exit(EXIT_FAILURE)`, `return EXIT_FAILURE` or the end by a signal; `waiting` is a loop that has used
-- up the rounds that it was given.
pub data Result (A : Type 0) : Type 0 where
  returned : A → Result A
  exited : Result A
  waiting : Result A

abbrev pub M : Type 0 → Type 0
M A = History → Result A × History

abbrev pub pure : {A : Type 0} → A → M A
pure a h = (returned a, h)

abbrev pub exit : {A : Type 0} → M A
exit h = (exited, h)

abbrev pub bind_result : {A B : Type 0} → Result A × History → (A → M B) → Result B × History
bind_result (returned a, h) f = f a h
bind_result (exited, h) f = (exited, h)
bind_result (waiting, h) f = (waiting, h)

infixl 5 ◌>>=◌ ◌>>◌
abbrev pub ◌>>=◌ : {A B : Type 0} → M A → (A → M B) → M B
(m >>= f) h = bind_result (m h) f

abbrev pub ◌>>◌ : {A B : Type 0} → M A → M B → M B
m >> k = m >>= λ _. k

abbrev pub call : Kernel → Call → M (Option ℕ)
call kernel c h = (returned (kernel.answer h c), c ∷ h)

-- An access to so many bytes from an address on. `none` is the address -1 of a `mmap` or a `shmat` that
-- failed, where the first access ends the process by SIGSEGV (if it is to a byte at all).
abbrev pub access : Kernel → Option ℕ → ℕ → M (Unit {0})
access kernel (some a) bytes = do call kernel (touch (some a) bytes); pure tt
access kernel none zero = pure tt
access kernel none (suc bytes) = exit

abbrev pub push_requests : Descriptor → List Request → History → History
push_requests fd [] h = h
push_requests fd (r ∷ requests) h = push_requests fd requests (option fd r ∷ h)

abbrev pub of_option : {A : Type 0} → Option A → Result A
of_option none = exited
of_option (some a) = returned a

-- A function of Common.Sockets on a descriptor. It makes each request once, so that the answers are
-- a function of the request.
abbrev pub with_options : {A : Type 0} → Kernel → Descriptor → (Sockets.Kernel → Sockets.M A) → M A
with_options kernel fd f h =
    let (requests, result) = f (λ r. kernel.answer h (option fd r)) in
    (of_option result, push_requests fd requests h)

-- `while (descriptor == -1) descriptor = attempt();`
unfoldable pub retry : ℕ → M Descriptor → M ℕ
retry zero attempt = λ h. (waiting, h)
retry (suc rounds) attempt = do
  fd ← attempt
  elim fd [ none ↦ retry rounds attempt | some n ↦ pure n ]

-- The code compares some results with 1.
abbrev pub is_one : Option ℕ → Bool
is_one none = false
is_one (some n) = n == 1

-- `<= 0`
abbrev pub is_empty : Option ℕ → Bool
is_empty none = true
is_empty (some n) = n == 0

-- The end of the mains: SIGINT is caught, or they return EXIT_FAILURE.
abbrev pub finish_setup : Kernel → ℕ → M ℕ
finish_setup kernel n = do
  code ← call kernel catch_interrupt
  elim code [ none ↦ exit | some _ ↦ pure n ]
