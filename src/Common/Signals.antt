-- ===== src/Common/Signals.antt =====
-- source/common/signals.c: how the parent, a server and a client set up SIGUSR1 and SIGUSR2.
pub mod Laws
use Prim.Native.Nat.{bit_and, bit_or}
use ipc_bench.Prelude.{ℕ, Bool, true, false, not, ◌||◌, Option, none, some, ◌==◌, if◌then◌else◌}

-- The flags of source/common/signals.h. The two IGNORE flags are no bits at all.
abbrev pub ignore_usr1 : ℕ
ignore_usr1 = 0x0

abbrev pub ignore_usr2 : ℕ
ignore_usr2 = 0x0

abbrev pub block_usr1 : ℕ
block_usr1 = 0x1

abbrev pub block_usr2 : ℕ
block_usr2 = 0x2

-- The two signals, as a pair of what is known of each.
pub record Both (A : Type 0) : Type 0 where
  pub usr1 : A
  pub usr2 : A

-- `SIG_DFL`, or `signal_handler`, which does nothing.
pub data Handler : Type 0 where
  default_action : Handler
  signal_handler : Handler

-- What the kernel keeps for a process: its handlers and which signals are blocked.
pub record Process : Type 0 where
  pub handlers : Both Handler
  pub blocked : Both Bool

-- `struct sigaction`
pub record SigAction : Type 0 where
  pub handler : Handler
  pub restarts : Bool
  pub mask : Both Bool

abbrev pub empty_mask : Both Bool
empty_mask = record { usr1 = false; usr2 = false }

abbrev pub has : ℕ → ℕ → Bool
has flags flag = not (bit_and flags flag == 0)

-- The two calls of `sigaction`; `none` is a `throw`. `ok` says which calls succeed.
setup_ignored_signals : Both Bool → ℕ → SigAction × Process → Option (SigAction × Process)
setup_ignored_signals ok flags (action, p) =
    let action' = record action { handler = signal_handler } in
    let first = not (has flags block_usr1) in
    let second = not (has flags block_usr2) in
    if (if first then not ok.usr1 else false) || (if second then not ok.usr2 else false)
    then none
    else some (
      action',
      record p {
        handlers = record {
          usr1 = if first then action'.handler else p.handlers.usr1;
          usr2 = if second then action'.handler else p.handlers.usr2;
        };
      },
    )

-- The mask grows by the flags, and `sigprocmask(SIG_BLOCK)` adds it to what is blocked.
setup_blocked_signals : ℕ → SigAction × Process → SigAction × Process
setup_blocked_signals flags (action, p) =
    let mask : Both Bool = record {
      usr1 = has flags block_usr1 || action.mask.usr1;
      usr2 = has flags block_usr2 || action.mask.usr2;
    } in
    (
      record action { handler = default_action; mask = mask },
      record p {
        blocked = record { usr1 = p.blocked.usr1 || mask.usr1; usr2 = p.blocked.usr2 || mask.usr2 };
      },
    )

unfoldable pub setup_signals : Both Bool → ℕ → SigAction × Process → Option (SigAction × Process)
unfolding setup_ignored_signals setup_blocked_signals
setup_signals ok flags (action, p) =
    elim (setup_ignored_signals ok flags
      (record action { restarts = true; mask = empty_mask }, p)) [
        | none ↦ none
        | some (action', p') ↦
            some (setup_blocked_signals flags (record action' { mask = empty_mask }, p'))
      ]

-- The first argument of each is the uninitialised `struct sigaction`.
unfoldable pub setup_parent_signals : Both Bool → SigAction × Process → Option (SigAction × Process)
unfolding setup_signals
setup_parent_signals ok = setup_signals ok (bit_or ignore_usr1 ignore_usr2)

unfoldable pub setup_server_signals : Both Bool → SigAction × Process → Option (SigAction × Process)
unfolding setup_signals
setup_server_signals ok = setup_signals ok (bit_or block_usr1 ignore_usr2)

unfoldable pub setup_client_signals : Both Bool → SigAction × Process → Option (SigAction × Process)
unfolding setup_signals
setup_client_signals ok = setup_signals ok (bit_or ignore_usr1 block_usr2)
