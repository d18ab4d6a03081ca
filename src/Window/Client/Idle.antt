-- ===== src/Window/Client/Idle.antt =====
-- The clients' rounds in which no descriptor is ready: what they count as sent.
use ipc_bench.Prelude.{
  ℕ, ◌*◌, ◌%◌, ◌^◌, ◌<◌, ◌≡◌, refl, ◌∙◌, true, false, List, [], ◌∷◌, arith, All, length, add64,
}
use ipc_bench.Prelude.Int.{to_size-lt}
use ipc_bench.Common.Arguments.{Arguments}
use ipc_bench.Window.{Turn, running, run, max_bytes, max_outstanding_reqs, again}
use ipc_bench.Window.Client.{Client, start, read_phase, stamp_phase, write_phase, client_round}

-- A round in which nothing can be read or written.
pub record IsIdle (t : Turn) : Type 0 where
  pub no_quit_at_test : t.quit_at_test ≡ false
  pub polled : t.poll_ok ≡ true
  pub no_quit_after_poll : t.quit_after_poll ≡ false
  pub no_read : t.can_read ≡ false
  pub no_write : t.can_write ≡ false

idle_round :
    (args : Arguments) (t : Turn) (s : Client)
    → IsIdle t
    → 0 < max_bytes args
    → 0 < max_outstanding_reqs args
    → s.total_bytes_read ≡ 0
    → s.outstanding_reqs ≡ 0
    → let s' = stamp_phase args t s in
      (client_round args t s ≡ again s')
      × (s'.total_bytes_read ≡ 0)
      × (s'.outstanding_reqs ≡ 0)
      × (s'.total_bytes_written ≡ s.total_bytes_written)
      × (s'.num_reqs_sent ≡ add64 s.num_reqs_sent (max_outstanding_reqs args))
unfolding client_round read_phase stamp_phase write_phase
idle_round args t s idle some_bytes some_rate e f =
    ground (arith, idle.no_quit_at_test, idle.polled, to_size-lt args.rate)

idle_run :
    (args : Arguments) (turns : List Turn) (s : Client)
    → All IsIdle turns
    → 0 < max_bytes args
    → 0 < max_outstanding_reqs args
    → s.total_bytes_read ≡ 0
    → s.outstanding_reqs ≡ 0
    → s.num_reqs_sent < 2 ^ 64
    → (s' : Client) × (run (client_round args) turns s ≡ running s')
      × (s'.total_bytes_written ≡ s.total_bytes_written)
      × (s'.num_reqs_sent ≡ add64 s.num_reqs_sent (length turns * max_outstanding_reqs args))
unfolding run
idle_run args [] s idle some_bytes some_rate e f small = (s, refl, refl, omega arith)
idle_run args (t ∷ turns) s idle some_bytes some_rate e f small =
    let (go, e', f', same, sent) = idle_round args t s idle.0 some_bytes some_rate e f in
    let (s', r, w, n) =
      idle_run args turns (stamp_phase args t s) idle.1 some_bytes some_rate e' f' (omega arith) in
    (s', rw (go, run) r, w ∙ same, omega arith)

-- With at least one byte to send and a window of at least one request: however often the
-- descriptors are not ready, each such round counts a full window of requests as sent, modulo 2 ^
-- 64, while nothing has been written.
pub idle_rounds_count_as_sent :
    (args : Arguments) (turns : List Turn) (times : List ℕ)
    → All IsIdle turns
    → 0 < max_bytes args
    → 0 < max_outstanding_reqs args
    → (s : Client) × (run (client_round args) turns (start times) ≡ running s)
      × (s.total_bytes_written ≡ 0)
      × (s.num_reqs_sent ≡ (length turns * max_outstanding_reqs args) % 2 ^ 64)
idle_rounds_count_as_sent args turns times idle some_bytes some_rate =
    let (s, r, w, n) =
      idle_run args turns (start times) idle some_bytes some_rate refl refl (omega arith) in
    (s, r, w, omega arith)
