-- ===== src/Window/Client/Termination.antt =====
-- The clients' loop comes to its end when the descriptors keep being ready.
use ipc_bench.Prelude.{
  ℕ, ◌+◌, ◌-◌, ◌≤◌, ◌<◌, ◌≡◌, ◌⊎◌, inl, inr, refl, true, false, List, [], ◌∷◌, arith, All, length,
}
use ipc_bench.Common.Arguments.{Arguments}
use ipc_bench.Window.{Turn, leave, again, stopped, run, req_size, max_bytes, max_outstanding_bytes}
use ipc_bench.Window.Sizes.{IsSmall}
use ipc_bench.Window.Laws.{IsLawfulTurn}
use ipc_bench.Window.Client.{Client, start, read_phase, stamp_phase, write_phase, client_round}
use ipc_bench.Window.Client.Bytes.{
  IsBalanced, read_phase-bytes, stamp_phase-bytes, write_phase-bytes, phases-IsBalanced,
}
use ipc_bench.Window.Client.Completion.{IsCalm}

-- Both descriptors are ready, nothing interrupts the round, and a transfer of some bytes moves at
-- least one of them.
pub record IsEager (t : Turn) : Type 0 where
  pub lawful : IsLawfulTurn t
  pub calm : IsCalm t
  pub readable : t.can_read ≡ true
  pub writable : t.can_write ≡ true
  pub no_quit_at_read : t.quit_at_read ≡ false
  pub no_quit_at_write : t.quit_at_write ≡ false
  pub reads_some : (chunk num : ℕ) → 0 < num → 0 < (t.read_from chunk num).total_bytes
  pub writes_some : (chunk num : ℕ) → 0 < num → 0 < (t.write_to chunk num).total_bytes

module _ (args : Arguments) (small : IsSmall args) (window : 0 < max_outstanding_bytes args) where
  eager_read :
      (t : Turn) (s : Client)
      → IsEager t
      → IsBalanced args s
      → s.total_bytes_read < max_bytes args
      → 0 < s.outstanding_bytes
      → s.total_bytes_read < (read_phase args t s).total_bytes_read
  unfolding read_phase
  eager_read t s eager b lt some_out = ground (
    arith,
    small.no_wrap,
    eager.readable,
    eager.no_quit_at_read,
    eager.reads_some (req_size args) s.outstanding_bytes,
    eager.lawful.reads.bounded (req_size args) s.outstanding_bytes (omega arith) small.some_bytes,
  )

  eager_write :
      (t : Turn) (s : Client)
      → IsEager t
      → s.outstanding_bytes ≤ max_outstanding_bytes args
      → 0 < (write_phase args t s).outstanding_bytes
  unfolding write_phase
  eager_write t s eager b = ground (
    arith,
    small.no_wrap,
    window,
    eager.writable,
    eager.no_quit_at_write,
    eager.writes_some (req_size args) (max_outstanding_bytes args - s.outstanding_bytes),
    eager.lawful.writes.bounded (req_size args) (max_outstanding_bytes args - s.outstanding_bytes)
        (omega arith) small.some_bytes,
  )

  -- A round of a run that is not at its end leaves something in flight, and reads at least one byte
  -- if there was something.
  eager_phases :
      (t : Turn) (s : Client)
      → IsEager t
      → IsBalanced args s
      → s.total_bytes_read < max_bytes args
      → let s' = write_phase args t (stamp_phase args t (read_phase args t s)) in
        (0 < s'.outstanding_bytes)
        × (s.total_bytes_read ≤ s'.total_bytes_read)
        × (0 < s.outstanding_bytes → s.total_bytes_read < s'.total_bytes_read)
  eager_phases t s eager b lt =
      let s₁ = read_phase args t s in
      let s₂ = stamp_phase args t s₁ in
      let l = eager.lawful in
      let h₁ = read_phase-bytes args small t l s b.window (omega arith) in
      let h₂ = stamp_phase-bytes args small t l s₁ in
      let h₃ = write_phase-bytes args small t l s₂ (omega arith) (omega arith) in
      let w = eager_write t s₂ eager (omega arith) in
      (w, omega arith, λ h. let k = eager_read t s eager b lt h in omega arith)

  eager_round :
      (t : Turn) (s : Client)
      → IsEager t
      → ((max_bytes args ≤ s.total_bytes_read) × (client_round args t s ≡ leave s))
        ⊎ ((s.total_bytes_read < max_bytes args)
            × (client_round args t s
                ≡ again (write_phase args t (stamp_phase args t (read_phase args t s)))))
  unfolding client_round
  eager_round t s eager =
      ground (arith, eager.calm.no_quit_at_test, eager.calm.polled, eager.calm.no_quit_after_poll)

  eager_run :
      (turns : List Turn) (s : Client)
      → All IsEager turns
      → IsBalanced args s
      → 0 < s.outstanding_bytes
      → max_bytes args - s.total_bytes_read < length turns
      → (s' : Client) × (run (client_round args) turns s ≡ stopped s')
        × (max_bytes args ≤ s'.total_bytes_read)
  unfolding run
  eager_run [] s eager b some_out enough = let f : ⊥ = omega arith in absurd f
  eager_run (t ∷ turns) s (e, es) b some_out enough = elim (eager_round t s e) [
    | inl (h, ends) ↦ (s, rw (ends, run) refl, h)
    | inr (h, goes) ↦
        let s' = write_phase args t (stamp_phase args t (read_phase args t s)) in
        let p = eager_phases t s e b h in
        let b' = phases-IsBalanced args small t e.lawful s b h in
        let (last, r, k) = eager_run turns s' es b'.0 p.0 (omega (arith, p.2)) in
        (last, rw (goes, run) r, k)
  ]

-- With small arguments and a window of at least one byte: if in every round both descriptors are
-- ready, nothing interrupts it, the transfers are lawful and a transfer of some bytes moves at least
-- one, then `max_bytes + 2` rounds are enough: the loop is left, and every byte has been read back.
pub eager_client_finishes :
    (args : Arguments)
    → IsSmall args
    → 0 < max_outstanding_bytes args
    → (turns : List Turn) (times : List ℕ) → All IsEager turns
    → max_bytes args + 1 < length turns
    → (s : Client) × (run (client_round args) turns (start times) ≡ stopped s)
      × (max_bytes args ≤ s.total_bytes_read)
unfolding run
eager_client_finishes args small window [] times eager enough = let f : ⊥ = omega arith in absurd f
eager_client_finishes args small window (t ∷ turns) times (e, es) enough =
    elim (eager_round args small window t (start times) e) [
      | inl (h, ends) ↦ (start times, rw (ends, run) refl, h)
      | inr (h, goes) ↦
          let s' = write_phase args t (stamp_phase args t (read_phase args t (start times))) in
          let b : IsBalanced args (start times) = omega arith in
          let p = eager_phases args small window t (start times) e b h in
          let b' = phases-IsBalanced args small t e.lawful (start times) b h in
          let (last, r, k) = eager_run args small window turns s' es b'.0 p.0 (omega arith) in
          (last, rw (goes, run) r, k)
    ]
