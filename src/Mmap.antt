-- ===== src/Mmap.antt =====
-- source/mmap/server.c and source/mmap/client.c: the guard is the first byte of the data itself
-- (`file_memory`), so that every `memset` of at least one byte overwrites it with '*'.
pub mod Main
use ipc_bench.Prelude.{ℕ, ◌≡◌, ◌≢◌, arith, ◌==◌, if◌then◌else◌}
use ipc_bench.Handshake.{ServerPc, ClientPc, ServerMove, ClientMove}

-- `memset(file_memory, '*', args->size)`, as the guard sees it.
unfoldable pub scribble : ℕ → ℕ → ℕ
scribble size guard = if size == 0 then guard else b'*'

-- The steps of the two `communicate` functions, with their `mmap_wait` and `mmap_notify`.
abbrev pub MmapServerMove : ℕ → ℕ → ℕ → ServerPc → ℕ → ServerPc → Type 0
MmapServerMove size count = ServerMove count (scribble size)

abbrev pub MmapClientMove : ℕ → ℕ → ℕ → ClientPc → ℕ → ClientPc → Type 0
MmapClientMove size count = ClientMove count (scribble size)

pub scribble-harmless :
    (size g : ℕ) → (g ≡ b's' → scribble size g ≢ b'c') × (g ≡ b'c' → scribble size g ≢ b's')
unfolding scribble
scribble-harmless size g = (λ e. ground arith, λ e. ground arith)
