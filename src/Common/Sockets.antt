-- ===== src/Common/Sockets.antt =====
-- source/common/sockets.c: the options and flags of a socket. The kernel's answers are a parameter,
-- and each function returns the requests that it makes, in order, with its result.
pub mod Laws
use ipc_bench.Prelude.{
  ℕ, ◌+◌, ◌-◌, ◌/◌, ◌%◌, Bool, false, Option, none, some, List, [], ◌∷◌, ◌++◌, ◌==◌, if◌then◌else◌,
}

pub data Direction : Type 0 where
  send receive_direction : Direction

abbrev pub buffer_size : ℕ
buffer_size = 64000

-- A `getsockopt`, `setsockopt` or `fcntl` on the socket.
pub data Request : Type 0 where
  get_buffer : Direction → Request
  set_buffer : Direction → ℕ → Request
  get_timeout : Direction → Request
  set_timeout : Direction → ℕ × ℕ → Request
  get_flags : Request
  set_flags : ℕ → Request

-- What the kernel answers: `none` is -1; a request that sets something answers 0.
abbrev pub Kernel : Type 0
Kernel = Request → Option ℕ

-- The requests made, and the result; `none` is a `throw`.
abbrev pub M : Type 0 → Type 0
M A = List Request × Option A

abbrev pub pure : {A : Type 0} → A → M A
pure a = ([], some a)

infixl 5 ◌>>=◌ ◌>>◌
abbrev pub ◌>>=◌ : {A B : Type 0} → M A → (A → M B) → M B
(requests, none) >>= f = (requests, none)
(requests, some a) >>= f = (requests ++ (f a).0, (f a).1)

abbrev pub ◌>>◌ : {A B : Type 0} → M A → M B → M B
m >> k = m >>= λ _. k

-- A request whose failure is thrown, and one whose failure is returned.
abbrev pub ask : Kernel → Request → M ℕ
ask kernel r = (r ∷ [], kernel r)

abbrev pub attempt : Kernel → Request → M (Option ℕ)
attempt kernel r = (r ∷ [], some (kernel r))

-- O_NONBLOCK is one bit: `|` adds it unless it is there, and `& ~` takes it away.
abbrev pub o_nonblock : ℕ
o_nonblock = 0x800

abbrev pub has_nonblock : ℕ → Bool
has_nonblock flags = flags / o_nonblock % 2 == 1

abbrev pub with_nonblock : ℕ → ℕ
with_nonblock flags = if has_nonblock flags then flags else flags + o_nonblock

abbrev pub without_nonblock : ℕ → ℕ
without_nonblock flags = if has_nonblock flags then flags - o_nonblock else flags

module _ (kernel : Kernel) where
  unfoldable pub socket_buffer_size : Direction → M ℕ
  socket_buffer_size direction = ask kernel (get_buffer direction)

  unfoldable pub set_socket_buffer_size : Direction → M ℕ
  set_socket_buffer_size direction = ask kernel (set_buffer direction buffer_size)

  unfoldable pub set_socket_both_buffer_sizes : M ℕ
  unfolding set_socket_buffer_size
  set_socket_both_buffer_sizes = do
    set_socket_buffer_size send
    set_socket_buffer_size receive_direction

  unfoldable pub set_socket_timeout : ℕ × ℕ → Direction → M ℕ
  set_socket_timeout timeout direction = ask kernel (set_timeout direction timeout)

  unfoldable pub set_socket_both_timeouts : ℕ → ℕ → M ℕ
  unfolding set_socket_timeout
  set_socket_both_timeouts seconds microseconds = do
    set_socket_timeout (seconds, microseconds) send
    set_socket_timeout (seconds, microseconds) receive_direction

  -- For the one flag that the callers pass, O_NONBLOCK. The result is whether it returns 0.
  unfoldable pub set_io_flag : M Bool
  set_io_flag = do
    old_flags ← attempt kernel get_flags
    elim old_flags [
      | none ↦ pure false
      | some flags ↦ do
        done ← attempt kernel (set_flags (with_nonblock flags))
        elim done [ none ↦ pure false | some code ↦ pure (code == 0) ]
    ]

  unfoldable pub get_socket_flags : M ℕ
  get_socket_flags = ask kernel get_flags

  unfoldable pub set_socket_flags : ℕ → M ℕ
  set_socket_flags flags = ask kernel (set_flags flags)

  unfoldable pub set_socket_non_blocking : M ℕ
  unfolding get_socket_flags set_socket_flags
  set_socket_non_blocking = do
    flags ← get_socket_flags
    set_socket_flags (with_nonblock flags)
    pure (with_nonblock flags)

  unfoldable pub unset_socket_non_blocking : M ℕ
  unfolding get_socket_flags set_socket_flags
  unset_socket_non_blocking = do
    flags ← get_socket_flags
    set_socket_flags (without_nonblock flags)
    pure flags

  unfoldable pub socket_is_non_blocking : M Bool
  unfolding get_socket_flags
  socket_is_non_blocking = do flags ← get_socket_flags; pure (has_nonblock flags)
