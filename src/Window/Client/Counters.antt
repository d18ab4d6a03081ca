-- ===== src/Window/Client/Counters.antt =====
-- The clients' counters of requests: right while no transfer splits a request, and what happens to
-- them otherwise.
use ipc_bench.Prelude.{
  ℕ, ◌+◌, ◌-◌, ◌*◌, ◌^◌, ◌≤◌, ◌<◌, ◌≡◌, ◌∙◌, true, false, List, arith, All, add64, sub64,
}
use ipc_bench.Common.Arguments.{Arguments}
use ipc_bench.Window.{Turn, run, req_size, max_bytes, max_outstanding_bytes, max_outstanding_reqs}
use ipc_bench.Window.Sizes.{IsSmall}
use ipc_bench.Window.Laws.{IsLawfulTurn, AfterRound, Ends, run_inv}
use ipc_bench.Window.Client.{Client, start, read_phase, stamp_phase, write_phase, client_round}
use ipc_bench.Window.Client.Bytes.{
  IsBalanced, read_phase-bytes, stamp_phase-bytes, phases-IsBalanced,
}

-- Every transfer of the round moves whole requests.
pub record IsWhole (t : Turn) : Type 0 where
  pub lawful : IsLawfulTurn t
  pub reads : (chunk num : ℕ) → (t.read_from chunk num).spare_bytes ≡ 0
  pub writes : (chunk num : ℕ) → (t.write_to chunk num).spare_bytes ≡ 0

-- The counters of requests are those of bytes, in units of a request.
pub record IsCounted (args : Arguments) (s : Client) : Type 0 where
  pub in_flight : s.outstanding_reqs * req_size args ≡ s.outstanding_bytes
  pub read_back : s.num_reqs_read * req_size args ≡ s.total_bytes_read

le_of_mul_le : (a b r : ℕ) → 0 < r → a * r ≤ b * r → a ≤ b
le_of_mul_le a b r pos h = grind arith

sub-mul : (a b r : ℕ) → b ≤ a → (a - b) * r ≡ a * r - b * r
sub-mul a b r h = grind arith

le-mul : (a r : ℕ) → 0 < r → a ≤ a * r
le-mul a r pos = grind arith

-- `size_t` subtraction and addition of counts of requests, in bytes.
sub64-mul :
    (a b r x y : ℕ) → 0 < r → x < 2 ^ 63 → a * r ≡ x → b * r ≡ y → y ≤ x → sub64 a b * r ≡ sub64 x y
sub64-mul a b r x y pos small ea eb le =
    let h = le_of_mul_le b a r pos (omega arith) in
    let k = le-mul a r pos in
    let e : sub64 a b ≡ a - b = omega arith in
    let f : sub64 x y ≡ x - y = omega arith in rw (e, f) (sub-mul a b r h ∙ omega arith)

add64-mul :
    (a b r x y : ℕ) → 0 < r → x + y < 2 ^ 63 → a * r ≡ x → b * r ≡ y → add64 a b * r ≡ add64 x y
add64-mul a b r x y pos small ea eb =
    let h = le-mul a r pos in
    let k = le-mul b r pos in
    let e : add64 a b ≡ a + b = omega arith in
    let f : add64 x y ≡ x + y = omega arith in rw (e, f) (omega arith)

module _ (args : Arguments) (small : IsSmall args) (t : Turn) (whole : IsWhole t) where
  read_phase-IsCounted :
      (s : Client)
      → IsBalanced args s
      → s.total_bytes_read ≤ max_bytes args
      → IsCounted args s
      → IsCounted args (read_phase args t s)
  unfolding read_phase
  read_phase-IsCounted s b bound c =
      let chunk = req_size args in
      let info = t.read_from chunk s.outstanding_bytes in
      let spare = whole.reads chunk s.outstanding_bytes in
      let split =
        whole.lawful.reads.split chunk s.outstanding_bytes (omega (arith, small.no_wrap))
          small.some_bytes in
      let bounded =
        whole.lawful.reads.bounded chunk s.outstanding_bytes (omega (arith, small.no_wrap))
          small.some_bytes in
      ground (
        arith,
        small.no_wrap,
        sub64-mul s.outstanding_reqs info.whole_reqs chunk s.outstanding_bytes info.total_bytes,
        add64-mul s.num_reqs_read info.whole_reqs chunk s.total_bytes_read info.total_bytes,
      )

  stamp_phase-IsCounted : (s : Client) → IsCounted args s → IsCounted args (stamp_phase args t s)
  unfolding stamp_phase
  stamp_phase-IsCounted s c = ground arith

  write_phase-IsCounted :
      (s : Client)
      → s.outstanding_bytes ≤ max_outstanding_bytes args
      → IsCounted args s
      → IsCounted args (write_phase args t s)
  unfolding write_phase
  write_phase-IsCounted s h c =
      let chunk = req_size args in
      let num = max_outstanding_bytes args - s.outstanding_bytes in
      let info = t.write_to chunk num in
      let spare = whole.writes chunk num in
      let split =
        whole.lawful.writes.split chunk num (omega (arith, small.no_wrap)) small.some_bytes in
      let bounded =
        whole.lawful.writes.bounded chunk num (omega (arith, small.no_wrap)) small.some_bytes in
      ground (
        arith,
        small.no_wrap,
        add64-mul s.outstanding_reqs info.whole_reqs chunk s.outstanding_bytes info.total_bytes,
      )

  phases_keep_counts :
      (s : Client)
      → IsBalanced args s
      → IsCounted args s
      → s.total_bytes_read < max_bytes args
      → let s' = write_phase args t (stamp_phase args t (read_phase args t s)) in
        IsBalanced args s' × IsCounted args s'
  phases_keep_counts s b c lt =
      let s₁ = read_phase args t s in
      let s₂ = stamp_phase args t s₁ in
      let h₁ = read_phase-bytes args small t whole.lawful s b.window (omega arith) in
      let h₂ = stamp_phase-bytes args small t whole.lawful s₁ in
      let c₁ = read_phase-IsCounted s b (omega arith) c in
      (
        (phases-IsBalanced args small t whole.lawful s b lt).0,
        write_phase-IsCounted s₂ (omega arith) (stamp_phase-IsCounted s₁ c₁),
      )

  round_keeps_counts :
      (s : Client)
      → IsBalanced args s
      → IsCounted args s
      → AfterRound
          (λ s'. IsBalanced args s' × IsCounted args s')
          (λ s'. IsBalanced args s' × IsCounted args s')
          (client_round args t s)
  unfolding client_round
  round_keeps_counts s b c = ground (arith, phases_keep_counts s b c)

-- In every state of a run with small arguments whose transfers are lawful and move whole
-- requests, and when the loop is left, the requests in flight and those read back are exactly the
-- bytes in flight and read back.
pub whole_requests-IsCounted :
    (args : Arguments)
    → IsSmall args
    → (turns : List Turn) → All IsWhole turns
    → (times : List ℕ)
    → Ends
        (λ s. IsBalanced args s × IsCounted args s)
        (λ s. IsBalanced args s × IsCounted args s)
        (run (client_round args) turns (start times))
whole_requests-IsCounted args small turns whole times =
    run_inv (λ s. IsBalanced args s × IsCounted args s) (λ s. IsBalanced args s × IsCounted args s)
      (client_round args) IsWhole (λ t s w h. round_keeps_counts args small t w s h.0 h.1) turns
      (start times) whole (omega arith)

-- After a read of more whole requests than were counted as in flight (and fewer than 2 ^ 63, as
-- is the window) the counter of those in flight has wrapped around: it is above 2 ^ 63, and the
-- client stamps no request in this round.
pub uncounted_requests_wrap :
    (args : Arguments) (t : Turn) (s : Client)
    → t.can_read ≡ true
    → t.quit_at_read ≡ false
    → let whole = (t.read_from (req_size args) s.outstanding_bytes).whole_reqs in
      s.outstanding_reqs < whole
      → whole < 2 ^ 63
      → max_outstanding_reqs args < 2 ^ 63
      → let s' = read_phase args t s in
        (s'.outstanding_reqs + whole ≡ s.outstanding_reqs + 2 ^ 64)
        × (2 ^ 63 < s'.outstanding_reqs)
        × (stamp_phase args t s' ≡ s')
unfolding read_phase stamp_phase
uncounted_requests_wrap args t s can no_quit more small rate = ground arith
