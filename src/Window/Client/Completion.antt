-- ===== src/Window/Client/Completion.antt =====
-- How the clients' loop ends, and what they then report.
use ipc_bench.Prelude.{
  ℕ, ◌^◌, ◌≤◌, ◌<◌, ◌≡◌, true, false, List, some, arith, All, length, sub64, ltb, if◌then◌else◌,
}
use ipc_bench.Prelude.Int.{pos, to_size}
use ipc_bench.Common.Arguments.{Arguments}
use ipc_bench.Window.{Turn, Run, stopped, running, run, req_size, max_bytes, max_outstanding_reqs}
use ipc_bench.Window.Laws.{AfterRound, Ends, run_inv, run_inv_any}
use ipc_bench.Window.Times.Laws.{length-update_times}
use ipc_bench.Window.Client.{Client, start, read_phase, stamp_phase, write_phase, client_round}
use ipc_bench.Window.Client.Report.{Report, finished, evaluate_client, conclude, communicate}

-- Neither a signal nor a failing `poll` interrupts the round.
pub record IsCalm (t : Turn) : Type 0 where
  pub no_quit_at_test : t.quit_at_test ≡ false
  pub polled : t.poll_ok ≡ true
  pub no_quit_after_poll : t.quit_after_poll ≡ false

calm_round :
    (args : Arguments) (t : Turn) (s : Client)
    → IsCalm t
    → AfterRound
        (λ _. Unit {0})
        (λ (s' : Client). max_bytes args ≤ s'.total_bytes_read)
        (client_round args t s)
unfolding client_round
calm_round args t s calm =
    ground (arith, calm.no_quit_at_test, calm.polled, calm.no_quit_after_poll)

-- In a run in which no signal arrives and no `poll` fails, the client's loop ends only when it
-- has read back every byte of the run.
pub calm_client_reads_max_bytes :
    (args : Arguments) (turns : List Turn)
    → All IsCalm turns
    → (times : List ℕ)
    → Ends
        (λ _. Unit {0})
        (λ (s : Client). max_bytes args ≤ s.total_bytes_read)
        (run (client_round args) turns (start times))
calm_client_reads_max_bytes args turns calm times =
    run_inv (λ _. Unit {0}) (λ s. max_bytes args ≤ s.total_bytes_read) (client_round args) IsCalm
      (λ t s c h. calm_round args t s c) turns (start times) calm tt

module _ (args : Arguments) (t : Turn) where
  length-read_phase : (s : Client) → length (read_phase args t s).times ≡ length s.times
  unfolding read_phase
  length-read_phase s =
      let info = t.read_from (req_size args) s.outstanding_bytes in
      let num : ℕ = if ltb 0 info.whole_reqs then info.whole_reqs else 0 in
      ground (
        arith,
        (length-update_times t.now_first (to_size args.count) s.num_reqs_read num s.times).1,
      )

  length-stamp_phase : (s : Client) → length (stamp_phase args t s).times ≡ length s.times
  unfolding stamp_phase
  length-stamp_phase s =
      let room = sub64 (max_outstanding_reqs args) s.outstanding_reqs in
      ground (
        arith,
        (length-update_times t.now_second (to_size args.count) s.num_reqs_sent room s.times).0,
      )

  length-write_phase : (s : Client) → length (write_phase args t s).times ≡ length s.times
  unfolding write_phase
  length-write_phase s = ground arith

  round_keeps_length :
      (n : ℕ) (s : Client)
      → length s.times ≡ n
      → AfterRound
          (λ (s' : Client). length s'.times ≡ n)
          (λ (s' : Client). length s'.times ≡ n)
          (client_round args t s)
  unfolding client_round
  round_keeps_length n s e =
      let s₁ = read_phase args t s in
      ground (
        arith,
        length-read_phase s,
        length-stamp_phase s₁,
        length-write_phase (stamp_phase args t s₁),
      )

reported :
    (args : Arguments) (n : ℕ) (r : Run Client) {report : Report}
    → Ends (λ (s : Client). length s.times ≡ n) (λ (s : Client). length s.times ≡ n) r
    → conclude args r ≡ finished (some report)
    → length report.latencies ≡ n
unfolding conclude evaluate_client
reported args n (running s) h e = cc
reported args n (stopped s) h e = ground arith

final_count_bounds :
    (args : Arguments) (count : ℕ) (r : Run Client) {report : Report}
    → args.count ≡ pos count
    → count < 2 ^ 31
    → conclude args r ≡ finished (some report)
    → (k : ℕ) × (report.args.count ≡ pos k) × (0 < k) × (k ≤ count)
unfolding conclude evaluate_client
final_count_bounds args count (running s) ec small e = absurd (cc)
final_count_bounds args count (stopped s) ec small e = (
  if ltb count s.num_reqs_read then count else s.num_reqs_read,
  ground arith,
  ground arith,
  ground arith,
)

-- If the client's `communicate` reports latencies, after a positive `count` that fits an `int`
-- and with the `count` slots of its `malloc`, then the reported count is positive and at most
-- `count`, and the reported array still has `count` slots.
pub client_report_in_bounds :
    (args : Arguments) (count : ℕ) (times : List ℕ) (turns : List Turn) {report : Report}
    → args.count ≡ pos count
    → count < 2 ^ 31
    → length times ≡ count
    → communicate args times turns ≡ finished (some report)
    → (k : ℕ) × (report.args.count ≡ pos k)
      × (0 < k)
      × (k ≤ count)
      × (length report.latencies ≡ count)
unfolding communicate
client_report_in_bounds args count times turns ec small el e =
    let r = run (client_round args) turns (start times) in
    let (k, ek, pos_k, le) = final_count_bounds args count r ec small e in
    let same =
      run_inv_any (λ s. length s.times ≡ count) (λ s. length s.times ≡ count) (client_round args)
        (λ t s h. round_keeps_length args t count s h) turns (start times) el in
    (k, ek, pos_k, le, reported args count r same e)
