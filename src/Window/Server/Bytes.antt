-- ===== src/Window/Server/Bytes.antt =====
-- The byte counts of the servers: nothing is written that was not read.
use ipc_bench.Prelude.{ℕ, ◌+◌, ◌*◌, ◌^◌, ◌≤◌, ◌<◌, add64, ◌≡◌, refl, arith, ltb_ssize-eq-ltb}
use ipc_bench.Common.Arguments.{Arguments}
use ipc_bench.Transfer.{MetaData}
use ipc_bench.Window.{Turn, leave, again, req_size, max_bytes, max_outstanding_bytes}
use ipc_bench.Window.Sizes.{IsSmall}
use ipc_bench.Window.Laws.{IsLawfulTurn}
use ipc_bench.Window.Server.{
  Server, to_read, note_first_read, note_any_read, account_read, read_phase, write_phase,
  server_round,
}

-- What a server does on reading leaves the byte counts alone.
pub record KeepsBytes (note_read : ℕ → Server → Server) : Type 0 where
  pub outstanding :
      (now : ℕ) (s : Server) → (note_read now s).outstanding_bytes ≡ s.outstanding_bytes
  pub read : (now : ℕ) (s : Server) → (note_read now s).total_bytes_read ≡ s.total_bytes_read
  pub written :
      (now : ℕ) (s : Server) → (note_read now s).total_bytes_written ≡ s.total_bytes_written

pub note_first_read-KeepsBytes : KeepsBytes note_first_read
unfolding note_first_read
note_first_read-KeepsBytes = record {
  outstanding = λ now s. ground arith;
  read = λ now s. ground arith;
  written = λ now s. ground arith;
}

pub note_any_read-KeepsBytes : KeepsBytes note_any_read
unfolding note_any_read
note_any_read-KeepsBytes = record {
  outstanding = λ now s. refl;
  read = λ now s. refl;
  written = λ now s. refl;
}

module _ (note_read : ℕ → Server → Server) (keeps : KeepsBytes note_read) (args : Arguments)
    (small : IsSmall args) (t : Turn) (lawful : IsLawfulTurn t) where
  -- While no more than a window is outstanding, a round asks for no more than a window.
  pub to_read-eq-window :
      (s : Server)
      → s.outstanding_bytes ≤ max_outstanding_bytes args
      → to_read args s ≡ max_outstanding_bytes args
  to_read-eq-window s h =
      ground
        (arith, small.no_wrap, ltb_ssize-eq-ltb (max_outstanding_bytes args) s.outstanding_bytes)

  pub account_read-bytes :
      (info : MetaData) (s : Server)
      → s.outstanding_bytes + info.total_bytes < 2 ^ 64
      → s.total_bytes_read + info.total_bytes < 2 ^ 64
      → let s' = account_read note_read args t info s in
        (s'.outstanding_bytes ≡ s.outstanding_bytes + info.total_bytes)
        × (s'.total_bytes_read ≡ s.total_bytes_read + info.total_bytes)
        × (s'.total_bytes_written ≡ s.total_bytes_written)
  unfolding account_read
  account_read-bytes info s h k =
      let s' : Server = record s {
        total_bytes_read = add64 s.total_bytes_read info.total_bytes;
        outstanding_bytes = add64 s.outstanding_bytes info.total_bytes;
      } in
      ground (
        arith,
        keeps.outstanding t.now_second s',
        keeps.read t.now_second s',
        keeps.written t.now_second s',
      )

  pub read_phase-bytes :
      (s : Server)
      → s.outstanding_bytes ≤ max_outstanding_bytes args
      → s.total_bytes_read ≤ max_bytes args + 2 * max_outstanding_bytes args
      → let s' = read_phase note_read args t s in
        (s'.outstanding_bytes + s.total_bytes_read ≡ s.outstanding_bytes + s'.total_bytes_read)
        × (s.total_bytes_read ≤ s'.total_bytes_read)
        × (s'.total_bytes_read ≤ s.total_bytes_read + max_outstanding_bytes args)
        × (s'.total_bytes_written ≡ s.total_bytes_written)
  unfolding read_phase
  read_phase-bytes s h k =
      let num = to_read args s in
      ground (
        arith,
        small.no_wrap,
        to_read-eq-window s h,
        lawful.reads.bounded (req_size args) num
            (omega (arith, small.no_wrap, to_read-eq-window s h)) small.some_bytes,
        account_read-bytes (t.read_from (req_size args) num) s,
      )

  pub write_phase-bytes :
      (s : Server)
      → s.outstanding_bytes + s.total_bytes_written < 2 ^ 63
      → let s' = write_phase args t s in
        (s'.outstanding_bytes + s'.total_bytes_written
          ≡ s.outstanding_bytes + s.total_bytes_written)
        × (s.total_bytes_written ≤ s'.total_bytes_written)
        × (s'.total_bytes_read ≡ s.total_bytes_read)
  unfolding write_phase
  write_phase-bytes s h = ground (
    arith,
    lawful.writes.bounded (req_size args) s.outstanding_bytes (omega arith) small.some_bytes,
  )

  phases-bytes :
      (s : Server)
      → s.outstanding_bytes + s.total_bytes_written ≡ s.total_bytes_read
      → s.outstanding_bytes ≤ max_outstanding_bytes args
      → s.total_bytes_read ≤ max_bytes args + 2 * max_outstanding_bytes args
      → let s' = write_phase args t (read_phase note_read args t s) in
        (s'.outstanding_bytes + s'.total_bytes_written ≡ s'.total_bytes_read)
        × (s.total_bytes_written ≤ s'.total_bytes_written)
        × (s'.total_bytes_read ≡ (read_phase note_read args t s).total_bytes_read)
  phases-bytes s balance window bound =
      let s₁ = read_phase note_read args t s in
      let h₁ = read_phase-bytes s window bound in
      let h₂ = write_phase-bytes s₁ (omega (arith, small.no_wrap)) in omega arith

  -- A round that is followed by another, from a state with at most a window outstanding.
  pub server_round-again :
      (s : Server) {s' : Server}
      → server_round note_read args t s ≡ again s'
      → s.outstanding_bytes + s.total_bytes_written ≡ s.total_bytes_read
      → s.outstanding_bytes ≤ max_outstanding_bytes args
      → s.total_bytes_read ≤ max_bytes args + 2 * max_outstanding_bytes args
      → (s'.outstanding_bytes + s'.total_bytes_written ≡ s'.total_bytes_read)
        × (s.total_bytes_written ≤ s'.total_bytes_written)
  unfolding server_round
  server_round-again s e balance window bound =
      ground (arith, phases-bytes (record s { end_time = t.now_first }) balance window bound)

-- The test of the loop, on totals that are not negative as `ssize_t`.
pub server_round-done :
    (note_read : ℕ → Server → Server) (args : Arguments) (t : Turn) (s : Server)
    → s.total_bytes_written < 2 ^ 63
    → max_bytes args < 2 ^ 63
    → max_bytes args ≤ s.total_bytes_written
    → server_round note_read args t s ≡ leave s
unfolding server_round
server_round-done note_read args t s h k le =
    ground (arith, ltb_ssize-eq-ltb s.total_bytes_written (max_bytes args) h k)
