-- ===== src/Signal.antt =====
-- source/signal: the two processes exchange signals alone. The loop of the client (source/signal/client.c)
-- counts down `args->size` instead of the count that it tests.
mod Tests
use ipc_bench.Prelude.{ℕ, ◌+◌, ◌-◌, ◌≤◌, ◌<◌, ◌≡◌, ◌≢◌, true, suc, ◌⊎◌, inl, inr, refl, arith}
use ipc_bench.Pingpong.{
  Signals, IsSignals, ServerPc, ClientPc, Program, State, ServerStep, ClientStep, Step, Reach,
}
use ipc_bench.Pingpong.Invariant.{Counts, Reach-Inv}
use ipc_bench.Pingpong.Progress.{progress_of}

abbrev pub signal_program : ℕ → Program
signal_program count = record {
  inherits = true;
  count = count;
  size = 0;
  capacity = 0;
  update = λ c. c;
}

-- The steps of the two `communicate` functions.
abbrev pub SignalServerStep : Signals → ℕ → State → State → Type 0
SignalServerStep signals count = ServerStep signals (signal_program count)

abbrev pub SignalClientStep : Signals → ℕ → State → State → Type 0
SignalClientStep signals count = ClientStep signals (signal_program count)

module _ (signals : Signals) (count : ℕ) (some_messages : 0 < count) where
  signal-Counts : Counts (signal_program count) (λ k. count)
  signal-Counts = record {
    first = refl;
    some_left = λ k. some_messages;
    after = λ k c e. omega arith;
  }

  -- With signals as documented and at least one message, from the `fork` of both on: the client is never
  -- done. From every reachable state some process can take a step, until the server is done and the client
  -- waits for a signal that no one sends; or until the client's first signal came before the server's
  -- setup: it has ended the server, or was caught before the server's `execv` and the server waits for
  -- it, and the client waits for an answer.
  pub signal_client_never_finishes :
      IsSignals signals
      → {s : State} → Reach signals (signal_program count) s
      → (s.client ≢ ClientPc.finished)
        × (((s.server ≡ ServerPc.finished) × ((k : ℕ) × (s.client ≡ ClientPc.waiting k)))
            ⊎ ((s' : State) × Step signals (signal_program count) s s')
            ⊎ (((s.server ≡ ServerPc.killed) ⊎ (s.server ≡ ServerPc.starting))
                × (s.usr1 + s.usr2 ≡ 0)
                × ((k : ℕ) × (s.client ≡ ClientPc.waiting k) × (count ≡ suc k))))
  signal_client_never_finishes law {s} r =
      let inv = Reach-Inv signals law (signal_program count) (λ k. count) signal-Counts r in
      let never : s.client ≢ ClientPc.finished = λ e. ground arith in
      (
        never,
        elim (progress_of signals (signal_program count) (λ k. count) law signal-Counts
            (omega arith) r) [
              | inl (inl (done, agree, stop)) ↦ elim stop [
                | inl e ↦ absurd (never e)
                | inr waits ↦ inl (done, waits)
              ]
              | inl (inr (miss, quiet, stop)) ↦ elim stop [
                | inl e ↦ absurd (never e.0)
                | inr waits ↦ inr (inr (ground arith, ground arith, waits))
              ]
              | inr step ↦ inr (inl step)
            ],
      )
