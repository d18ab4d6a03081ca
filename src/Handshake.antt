-- ===== src/Handshake.antt =====
-- The spinning guard of source/shm and source/mmap: one byte of shared memory says whose turn it is.
-- The two processes are interleaved; one step is one access to the guard or one pass over the rest
-- of the memory, and the rounds of a spin that finds the guard unchanged are left out.
pub mod Invariant
pub mod Safety
mod Tests
use ipc_bench.Prelude.{ℕ, zero, suc, ◌≡◌}

-- Where the server stands in `communicate`. The numbers are the messages left after this one; at
-- `loop_test` they are all that are left.
pub data ServerPc : Type 0 where
  starting : ServerPc  -- the first `wait`
  loop_test : ℕ → ServerPc
  writing : ℕ → ServerPc  -- in `memset`
  notifying : ℕ → ServerPc  -- before the store to the guard
  waiting : ℕ → ServerPc
  reading : ℕ → ServerPc  -- in `memcpy`
  finished : ServerPc

-- Where the client stands.
pub data ClientPc : Type 0 where
  starting : ClientPc  -- before its first store to the guard
  loop_test : ℕ → ClientPc
  waiting : ℕ → ClientPc
  reading : ℕ → ClientPc
  writing : ℕ → ClientPc
  notifying : ℕ → ClientPc
  finished : ClientPc

-- `count` is that of both processes, and `scribble` is what a `memset` of the shared memory makes
-- of the guard.
module _ (count : ℕ) (scribble : ℕ → ℕ) where
  -- A step of the server, from a guard and a place to a guard and a place.
  pub data ServerMove (guard : ℕ) : ServerPc → ℕ → ServerPc → Type 0 where
    begin : guard ≡ b's' → ServerMove guard starting guard (loop_test count)
    leave : ServerMove guard (loop_test zero) guard finished
    enter : (k : ℕ) → ServerMove guard (loop_test (suc k)) guard (writing k)
    write : (k : ℕ) → ServerMove guard (writing k) (scribble guard) (notifying k)
    notify : (k : ℕ) → ServerMove guard (notifying k) b'c' (waiting k)
    wake : (k : ℕ) → guard ≡ b's' → ServerMove guard (waiting k) guard (reading k)
    read : (k : ℕ) → ServerMove guard (reading k) guard (loop_test k)

  -- A step of the client.
  pub data ClientMove (guard : ℕ) : ClientPc → ℕ → ClientPc → Type 0 where
    begin : ClientMove guard starting b's' (loop_test count)
    leave : ClientMove guard (loop_test zero) guard finished
    enter : (k : ℕ) → ClientMove guard (loop_test (suc k)) guard (waiting k)
    wake : (k : ℕ) → guard ≡ b'c' → ClientMove guard (waiting k) guard (reading k)
    read : (k : ℕ) → ClientMove guard (reading k) guard (writing k)
    write : (k : ℕ) → ClientMove guard (writing k) (scribble guard) (notifying k)
    notify : (k : ℕ) → ClientMove guard (notifying k) b's' (loop_test k)

pub record State : Type 0 where
  pub guard : ℕ
  pub server : ServerPc
  pub client : ClientPc

-- Either process moves.
pub data Step (count : ℕ) (scribble : ℕ → ℕ) (s : State) : State → Type 0 where
  server_step :
      {g : ℕ} {p : ServerPc}
      → ServerMove count scribble s.guard s.server g p
      → Step count scribble s (record s { guard = g; server = p })
  client_step :
      {g : ℕ} {p : ClientPc}
      → ClientMove count scribble s.guard s.client g p
      → Step count scribble s (record s { guard = g; client = p })

-- `guard` is the byte that the memory starts with.
pub data Reach (count : ℕ) (scribble : ℕ → ℕ) (guard : ℕ) : State → Type 0 where
  start :
      Reach count scribble guard
        (record { guard = guard; server = ServerPc.starting; client = ClientPc.starting })
  next :
      {s s' : State}
      → Reach count scribble guard s
      → Step count scribble s s'
      → Reach count scribble guard s'
