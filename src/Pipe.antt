-- ===== src/Pipe.antt =====
-- source/pipe/pipe.c: the server writes each message to a pipe before it passes the turn by a signal,
-- and the client reads it on its turn.
mod Main
mod Tests
use ipc_bench.Prelude.{false, ℕ, suc, ◌+◌, ◌-◌, ◌*◌, ◌≤◌, ◌<◌, ◌≡◌, ◌≢◌, ◌⊎◌, inl, inr, refl, arith}
use ipc_bench.Pingpong.{
  Signals, IsSignals, ServerPc, ClientPc, Program, State, ServerStep, ClientStep, Step, server_step,
  client_step, Reach, start, next,
}
use ipc_bench.Pingpong.Invariant.{
  Counts, Reach-Inv, server_left, client_count, Before, AtServer, AtClient,
}
use ipc_bench.Pingpong.Progress.{progress_of}

-- `capacity` is that of the pipe (pipe(7)), which `fflush` waits for. The two are forked by a process
-- that catches no signal, and are not replaced.
abbrev pub pipe_program : (count size capacity : ℕ) → Program
pipe_program count size capacity = record {
  inherits = false;
  count = count;
  size = size;
  capacity = capacity;
  update = λ c. c - 1;
}

-- The steps of `server_communicate` and `client_communicate`.
abbrev pub PipeServerStep : Signals → (count size capacity : ℕ) → State → State → Type 0
PipeServerStep signals count size capacity = ServerStep signals (pipe_program count size capacity)

abbrev pub PipeClientStep : Signals → (count size capacity : ℕ) → State → State → Type 0
PipeClientStep signals count size capacity = ClientStep signals (pipe_program count size capacity)

abbrev pub IsDone : State → Type 0
IsDone s = (s.server ≡ ServerPc.finished) × (s.client ≡ ClientPc.finished)

module _ (signals : Signals) (count size capacity : ℕ) where
  pipe-Counts : Counts (pipe_program count size capacity) (λ k. k)
  pipe-Counts = record { first = refl; some_left = λ k. omega arith; after = λ k c e. omega arith }

  -- The first signal came before the server's setup and has ended it; the client has no message.
  abbrev pub IsAlone : State → Type 0
  IsAlone s =
      (s.server ≡ ServerPc.killed)
      × (s.usr1 + s.usr2 ≡ 0)
      × (s.stream ≡ 0)
      × (client_count count s.client ≡ count)

  -- The server lives, no signal is lost, and the two have as many messages left, up to one.
  abbrev pub IsTogether : State → Type 0
  IsTogether s =
      (s.server ≢ ServerPc.killed)
      × (s.stream ≤ size)
      × (s.usr1 + s.usr2 ≤ 1)
      × ((k : ℕ) → s.server ≡ ServerPc.notifying k → s.usr2 ≡ 0)
      × ((k : ℕ) → s.client ≡ ClientPc.notifying k → s.usr1 ≡ 0)
      × (server_left count s.server ≤ client_count count s.client)
      × (client_count count s.client ≤ suc (server_left count s.server))

  -- With signals as documented, from the `fork` on: in every reachable state the first signal of the
  -- client came before the server's setup and has ended the server, and the client has read nothing; or
  -- the server lives, the pipe holds at most one message, at most one signal is pending, none is pending
  -- for a process that is about to be sent one (no signal is lost), and what the client has left to read
  -- is what the server has left, or one more.
  pub pipe_in_step :
      IsSignals signals
      → {s : State} → Reach signals (pipe_program count size capacity) s
      → IsAlone s ⊎ IsTogether s
  pipe_in_step law {s} r =
      elim (Reach-Inv signals law (pipe_program count size capacity) (λ k. k) pipe-Counts r) [
        | inl before ↦ inr (facts s (inl before) (λ e. ground arith))
        | inr (inl missed) ↦ inl (ground arith)
        | inr (inr turn) ↦ inr (facts s (inr turn) (λ e. ground arith))
      ]
    where
      facts :
          (s : State)
          → Before (pipe_program count size capacity) (λ k. k) s
            ⊎ AtServer (pipe_program count size capacity) (λ k. k) s
            ⊎ AtClient (pipe_program count size capacity) (λ k. k) s
          → s.server ≢ ServerPc.killed
          → IsTogether s
      facts s inv lives = (
        lives,
        ground arith,
        ground arith,
        λ k e. ground arith,
        λ k e. ground arith,
        ground arith,
        ground arith,
      )

  -- With signals as documented and a message that fits into the pipe, from the `fork` on: from every
  -- reachable state some process can take a step, unless both are done; or the first signal of the client
  -- came before the server's setup and has ended the server, and the client waits for its answer (or is
  -- done, if there is no message).
  pub pipe_progress :
      IsSignals signals
      → size ≤ capacity
      → {s : State} → Reach signals (pipe_program count size capacity) s
      → IsDone s
        ⊎ ((s' : State) × Step signals (pipe_program count size capacity) s s')
        ⊎ (IsAlone s
            × (((s.client ≡ ClientPc.finished) × (count ≡ 0))
                ⊎ ((k : ℕ) × (s.client ≡ ClientPc.waiting k) × (count ≡ suc k))))
  pipe_progress law fits {s} r =
      elim (progress_of signals (pipe_program count size capacity) (λ k. k) law pipe-Counts fits
        r) [
          | inl (inl stop) ↦ inl (ground arith)
          | inl (inr miss) ↦ inr (inr (ground arith))
          | inr step ↦ inr (inl step)
        ]

  -- The server before its first message is in the pipe.
  abbrev Early : ServerPc → Type 0
  Early ServerPc.forked = Unit
  Early ServerPc.unprepared = Unit
  Early ServerPc.killed = Unit
  Early ServerPc.starting = Unit
  Early (ServerPc.loop_test k) = k ≡ count
  Early (ServerPc.sending k) = suc k ≡ count
  Early _ = ⊥

  ServerStep-Early :
      0 < count
      → capacity < size
      → {s s' : State} → ServerStep signals (pipe_program count size capacity) s s'
      → Early s.server
      → Early s'.server
  ServerStep-Early some_left large (ServerStep.execute e) early = tt
  ServerStep-Early some_left large (ServerStep.set_up e) early = tt
  ServerStep-Early some_left large (ServerStep.begin e w) early = refl
  ServerStep-Early some_left large (ServerStep.leave e) early = ground arith
  ServerStep-Early some_left large (ServerStep.enter k e) early = ground arith
  ServerStep-Early some_left large (ServerStep.send k e h) early = omega arith
  ServerStep-Early some_left large (ServerStep.notify k e) early = ground arith
  ServerStep-Early some_left large (ServerStep.wait k e w) early = ground arith

  ClientStep-Early :
      {s s' : State}
      → ClientStep signals (pipe_program count size capacity) s s'
      → Early s.server
      → Early s'.server
  ClientStep-Early (ClientStep.execute e) early = early
  ClientStep-Early (ClientStep.set_up e) early = early
  ClientStep-Early (ClientStep.begin e) early = ground arith
  ClientStep-Early (ClientStep.leave e) early = early
  ClientStep-Early (ClientStep.enter k e) early = early
  ClientStep-Early (ClientStep.wait k e w) early = early
  ClientStep-Early (ClientStep.read k e h) early = early
  ClientStep-Early (ClientStep.notify k e) early = ground arith

  Reach-Early :
      0 < count
      → capacity < size
      → {s : State} → Reach signals (pipe_program count size capacity) s
      → Early s.server
  Reach-Early some_left large start = tt
  Reach-Early some_left large (next r (server_step step)) =
      ServerStep-Early some_left large step (Reach-Early some_left large r)
  Reach-Early some_left large (next r (client_step step)) =
      ClientStep-Early step (Reach-Early some_left large r)

  -- A message that does not fit into the pipe is never sent: the server waits in its first `fflush`,
  -- and so the client for a signal. With at least one message the server is never done.
  pub pipe_large_message_blocks :
      0 < count
      → capacity < size
      → {s : State} → Reach signals (pipe_program count size capacity) s
      → (s.server ≢ ServerPc.finished)
        × ((k : ℕ) → s.server ≢ ServerPc.notifying k)
        × ((k : ℕ) → s.server ≡ ServerPc.loop_test k → k ≡ count)
  pipe_large_message_blocks some_left large r =
      let early = Reach-Early some_left large r in
      (λ e. ground arith, λ k e. ground arith, λ k e. ground arith)
