-- ===== src/Shm.antt =====
-- source/shm/server.c and source/shm/client.c: the guard is the byte before the data
-- (`shared_memory + 1`), so that a `memset` of the data leaves it alone.
pub mod Main
use ipc_bench.Prelude.{ℕ, ◌≡◌, ◌≢◌, arith}
use ipc_bench.Handshake.{ServerPc, ClientPc, ServerMove, ClientMove}

unfoldable pub scribble : ℕ → ℕ
scribble guard = guard

-- The steps of the two `communicate` functions, with their `shm_wait` and `shm_notify`.
abbrev pub ShmServerMove : ℕ → ℕ → ServerPc → ℕ → ServerPc → Type 0
ShmServerMove count = ServerMove count scribble

abbrev pub ShmClientMove : ℕ → ℕ → ClientPc → ℕ → ClientPc → Type 0
ShmClientMove count = ClientMove count scribble

pub scribble-harmless : (g : ℕ) → (g ≡ b's' → scribble g ≢ b'c') × (g ≡ b'c' → scribble g ≢ b's')
unfolding scribble
scribble-harmless g = (λ e. omega arith, λ e. omega arith)
