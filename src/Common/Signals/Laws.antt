-- ===== src/Common/Signals/Laws.antt =====
-- What the three setups leave behind.
use ipc_bench.Prelude.{◌≡◌, Bool, true, false, ◌&&◌, if◌then◌else◌, none, some, arith}
use ipc_bench.Common.Signals.{
  Both, default_action, signal_handler, Process, SigAction, setup_parent_signals,
  setup_server_signals, setup_client_signals,
}

-- A server blocks SIGUSR1, and only that is in the set that it waits on; it ignores SIGUSR2 by a
-- handler, and what else it had blocked or installed stays. Only the call for SIGUSR2 can fail.
pub setup_server_signals_lem :
    (ok : Both Bool) (action : SigAction) (p : Process)
    → (ok.usr2 ≡ true
        → setup_server_signals ok (action, p)
          ≡ some (
            record {
              handler = default_action;
              restarts = true;
              mask = record { usr1 = true; usr2 = false };
            },
            record {
              handlers = record { usr1 = p.handlers.usr1; usr2 = signal_handler };
              blocked = record { usr1 = true; usr2 = p.blocked.usr2 };
            },
          ))
      × (ok.usr2 ≡ false → setup_server_signals ok (action, p) ≡ none)
unfolding setup_server_signals
setup_server_signals_lem ok action p = (λ h. ground arith, λ h. ground arith)

-- A client is the mirror image: it blocks and waits on SIGUSR2, and ignores SIGUSR1.
pub setup_client_signals_lem :
    (ok : Both Bool) (action : SigAction) (p : Process)
    → (ok.usr1 ≡ true
        → setup_client_signals ok (action, p)
          ≡ some (
            record {
              handler = default_action;
              restarts = true;
              mask = record { usr1 = false; usr2 = true };
            },
            record {
              handlers = record { usr1 = signal_handler; usr2 = p.handlers.usr2 };
              blocked = record { usr1 = p.blocked.usr1; usr2 = true };
            },
          ))
      × (ok.usr1 ≡ false → setup_client_signals ok (action, p) ≡ none)
unfolding setup_client_signals
setup_client_signals_lem ok action p = (λ h. ground arith, λ h. ground arith)

-- The parent ignores both signals, waits on none and blocks none that was not blocked before; the
-- setup fails exactly if one of the two calls fails.
pub setup_parent_signals_lem :
    (ok : Both Bool) (action : SigAction) (p : Process)
    → setup_parent_signals ok (action, p) ≡ (
        if ok.usr1 && ok.usr2
        then some (
          record {
            handler = default_action;
            restarts = true;
            mask = record { usr1 = false; usr2 = false };
          },
          record {
            handlers = record { usr1 = signal_handler; usr2 = signal_handler };
            blocked = p.blocked;
          },
        )
        else none)
unfolding setup_parent_signals
setup_parent_signals_lem ok action p = ground arith
