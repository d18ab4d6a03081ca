-- ===== src/Window/Client/Bytes.antt =====
-- The flow control of the clients: how many bytes are in flight.
use ipc_bench.Prelude.{ℕ, ◌+◌, ◌-◌, ◌≤◌, ◌<◌, ◌≡◌, List, arith}
use ipc_bench.Common.Arguments.{Arguments}
use ipc_bench.Window.{Turn, again, run, req_size, max_bytes, max_outstanding_bytes}
use ipc_bench.Window.Sizes.{IsSmall}
use ipc_bench.Window.Laws.{IsLawfulTurn, AllLawful, AfterRound, Ends, run_inv}
use ipc_bench.Window.Client.{Client, start, read_phase, stamp_phase, write_phase, client_round}

-- What is in flight is what was written and not read back, and fits the window.
pub record IsBalanced (args : Arguments) (s : Client) : Type 0 where
  pub window : s.outstanding_bytes ≤ max_outstanding_bytes args
  pub balance : s.outstanding_bytes + s.total_bytes_read ≡ s.total_bytes_written
  pub read_bound : s.total_bytes_read ≤ max_bytes args + max_outstanding_bytes args

module _ (args : Arguments) (small : IsSmall args) (t : Turn) (lawful : IsLawfulTurn t) where
  pub read_phase-bytes :
      (s : Client)
      → s.outstanding_bytes ≤ max_outstanding_bytes args
      → s.total_bytes_read ≤ max_bytes args
      → let s' = read_phase args t s in
        (s'.outstanding_bytes + s'.total_bytes_read ≡ s.outstanding_bytes + s.total_bytes_read)
        × (s'.outstanding_bytes ≤ s.outstanding_bytes)
        × (s'.total_bytes_written ≡ s.total_bytes_written)
  unfolding read_phase
  read_phase-bytes s h k = ground (
    arith,
    small.no_wrap,
    lawful.reads.bounded (req_size args) s.outstanding_bytes (omega arith) small.some_bytes,
  )

  pub stamp_phase-bytes :
      (s : Client)
      → let s' = stamp_phase args t s in
        (s'.outstanding_bytes ≡ s.outstanding_bytes)
        × (s'.total_bytes_read ≡ s.total_bytes_read)
        × (s'.total_bytes_written ≡ s.total_bytes_written)
  unfolding stamp_phase
  stamp_phase-bytes s = ground arith

  pub write_phase-bytes :
      (s : Client)
      → s.outstanding_bytes ≤ max_outstanding_bytes args
      → s.total_bytes_written ≤ max_bytes args + max_outstanding_bytes args
      → let s' = write_phase args t s in
        (s'.outstanding_bytes + s.total_bytes_written
          ≡ s.outstanding_bytes + s'.total_bytes_written)
        × (s.outstanding_bytes ≤ s'.outstanding_bytes)
        × (s'.outstanding_bytes ≤ max_outstanding_bytes args)
        × (s'.total_bytes_read ≡ s.total_bytes_read)
  unfolding write_phase
  write_phase-bytes s h k = ground (
    arith,
    small.no_wrap,
    lawful.writes.bounded (req_size args) (max_outstanding_bytes args - s.outstanding_bytes)
        (omega arith) small.some_bytes,
  )

  pub phases-IsBalanced :
      (s : Client)
      → IsBalanced args s
      → s.total_bytes_read < max_bytes args
      → let s' = write_phase args t (stamp_phase args t (read_phase args t s)) in
        IsBalanced args s' × (s.total_bytes_written ≤ s'.total_bytes_written)
  phases-IsBalanced s b lt =
      let s₁ = read_phase args t s in
      let s₂ = stamp_phase args t s₁ in
      let h₁ = read_phase-bytes s b.window (omega arith) in
      let h₂ = stamp_phase-bytes s₁ in
      let h₃ = write_phase-bytes s₂ (omega arith) (omega arith) in omega arith

  -- A round keeps the balance, and what the loop leaves was balanced.
  client_round-IsBalanced :
      (s : Client)
      → IsBalanced args s
      → AfterRound (IsBalanced args) (IsBalanced args) (client_round args t s)
  unfolding client_round
  client_round-IsBalanced s b = ground (arith, phases-IsBalanced s b)

  pub client_round-again :
      {s s' : Client}
      → client_round args t s ≡ again s'
      → IsBalanced args s
      → IsBalanced args s' × (s.total_bytes_written ≤ s'.total_bytes_written)
  unfolding client_round
  client_round-again {s} e b = ground (arith, phases-IsBalanced s b)

-- At every point of a run of the client with small arguments and lawful transfers, and when its
-- loop is left: the bytes in flight never exceed the window, and are those written less those
-- read.
pub client_flow_control :
    (args : Arguments)
    → IsSmall args
    → (turns : List Turn) → AllLawful turns
    → (times : List ℕ)
    → Ends (IsBalanced args) (IsBalanced args) (run (client_round args) turns (start times))
client_flow_control args small turns lawful times =
    run_inv (IsBalanced args) (IsBalanced args) (client_round args) IsLawfulTurn
      (λ t s l b. client_round-IsBalanced args small t l s b) turns (start times) lawful
      (omega arith)
