-- ===== src/Window.antt =====
-- The windowed request pipelines of source/fifo, source/tcp and source/domain: what their clients
-- and servers share. A client keeps up to `rate` requests in flight; the server echoes bytes.
pub mod Laws
pub mod Sizes
pub mod System
mod Tests
pub mod Times
pub mod Client
pub mod Server
use ipc_bench.Prelude.{ℕ, ◌+◌, ◌*◌, ◌^◌, ◌≤◌, ◌<◌, ◌≡◌, Bool, List, [], ◌∷◌, mul64}
use ipc_bench.Prelude.Int.{to_size}
use ipc_bench.Common.Arguments.{Arguments}
use ipc_bench.Transfer.{MetaData}

-- One of the helpers, at the call that it makes: `chunk`, then the number of bytes.
abbrev pub Transfer : Type 0
Transfer = (chunk num : ℕ) → MetaData

-- What one round of a `communicate` loop meets: the values that `quit` has at its four reads, the
-- result of `poll`, the events that it reports, and the clock at its two reads.
pub record Events : Type 0 where
  pub quit_at_test : Bool
  pub poll_ok : Bool
  pub quit_after_poll : Bool
  pub can_read : Bool
  pub quit_at_read : Bool
  pub can_write : Bool
  pub quit_at_write : Bool
  pub now_first : ℕ
  pub now_second : ℕ

-- A round, with the transfers on the two ends.
pub record Turn : Type 0 where
  pub events : Events
  pub open events use *
  pub read_from : Transfer
  pub write_to : Transfer

-- The sizes that the loops compute from the arguments.
abbrev pub req_size : Arguments → ℕ
req_size args = to_size args.size

abbrev pub max_bytes : Arguments → ℕ
max_bytes args = mul64 (req_size args) (to_size args.count)

-- Also `bufferSize`, the size of the two buffers.
abbrev pub max_outstanding_bytes : Arguments → ℕ
max_outstanding_bytes args = mul64 (req_size args) (to_size args.rate)

abbrev pub max_outstanding_reqs : Arguments → ℕ
max_outstanding_reqs args = to_size args.rate

-- A round leaves the loop (its test fails, or a `break`), or is followed by another.
pub data Round (S : Type 0) : Type 0 where
  leave : S → Round S
  again : S → Round S

-- A loop has ended, or has used up the rounds that it was given.
pub data Run (S : Type 0) : Type 0 where
  stopped : S → Run S
  running : S → Run S

unfoldable pub run : {S : Type 0} → (Turn → S → Round S) → List Turn → S → Run S
run round [] s = running s
run round (t ∷ turns) s = elim (round t s) [ leave s' ↦ stopped s' | again s' ↦ run round turns s' ]
