-- ===== src/Threads/Interleaved/Laws.antt =====
-- The sums that `interleaved_add` can come to, and the broadcast that it can lose.
use ipc_bench.Prelude.{
  Bool-cases, ℕ, ◌+◌, ◌≤◌, ◌≡◌, ◌⊎◌, inl, inr, refl, Bool, true, false, ltb, arith,
}
use ipc_bench.Threads.Invariant.{count_of, slice}
use ipc_bench.Threads.Interleaved.{
  FirstPc, SecondPc, State, FirstStep, SecondStep, Step, Run, stay, go_on, first_step, second_step,
  Reach, next,
}
use ipc_bench.Threads.Interleaved.Invariant.{first_inside, inside, Adds, Reach-Inv}

module _ (array : ℕ → ℕ) (half n : ℕ) (spurious : Bool) where
  abbrev pub CanStep : State → Type 0
  CanStep s = (s' : State) × Step array half n spurious s s'

  abbrev pub IsDone : State → Type 0
  IsDone s =
      (s.first ≡ FirstPc.finished)
      × (s.second ≡ SecondPc.finished)
      × (Adds s.sum (slice array 0 n)
          ⊎ ((spurious ≡ true) × Adds s.sum (slice array 0 n + slice array 0 half)))

  -- The first thread has finished and nothing wakes the second.
  abbrev pub IsStuck : State → Type 0
  IsStuck s =
      (spurious ≡ false)
      × (s.first ≡ FirstPc.finished)
      × (s.second ≡ SecondPc.waiting)
      × Adds s.sum (slice array 0 half)

  -- A thread that has the mutex, or any but the one that waits while it is free, can go on.
  second_steps :
      (s : State) (pc : SecondPc)
      → s.second ≡ pc
      → inside s ≡ count_of s.held
      → first_inside s.first ≡ 0
      → CanStep s ⊎ (s.second ≡ SecondPc.waiting) ⊎ (s.second ≡ SecondPc.finished)
  second_steps s SecondPc.locking e agree out =
      inl (_, second_step (SecondStep.lock e (ground arith)))
  second_steps s SecondPc.locked e agree out = inl (_, second_step (SecondStep.wait e))
  second_steps s SecondPc.waiting e agree out = inr (inl e)
  second_steps s SecondPc.woken e agree out =
      inl (_, second_step (SecondStep.lock_again e (ground arith)))
  second_steps s SecondPc.adding e agree out = elim (Bool-cases (ltb s.i n)) [
    | inl more ↦ inl (_, second_step (SecondStep.add_element e more))
    | inr done ↦ inl (_, second_step (SecondStep.leave e done))
  ]
  second_steps s SecondPc.unlocking e agree out = inl (_, second_step (SecondStep.unlock e))
  second_steps s SecondPc.finished e agree out = inr (inr e)

  steps :
      (s : State) (pc : FirstPc)
      → s.first ≡ pc
      → inside s ≡ count_of s.held
      → CanStep s
        ⊎ ((s.first ≡ FirstPc.finished) × (s.second ≡ SecondPc.waiting))
        ⊎ ((s.first ≡ FirstPc.finished) × (s.second ≡ SecondPc.finished))
  steps s FirstPc.locking e agree = elim (Bool-cases s.held) [
    | inr free ↦ inl (_, first_step (FirstStep.lock e free))
    | inl taken ↦ elim (second_steps s s.second refl agree (ground arith)) [
      | inl c ↦ inl c
      | inr stop ↦ absurd (ground arith)
    ]
  ]
  steps s FirstPc.adding e agree = elim (Bool-cases (ltb s.i half)) [
    | inl more ↦ inl (_, first_step (FirstStep.add_element e more))
    | inr done ↦ inl (_, first_step (FirstStep.leave e done))
  ]
  steps s FirstPc.unlocking e agree = inl (_, first_step (FirstStep.unlock e))
  steps s FirstPc.broadcasting e agree = inl (_, first_step (FirstStep.broadcast e))
  steps s FirstPc.finished e agree = elim (second_steps s s.second refl agree (ground arith)) [
    | inl c ↦ inl c
    | inr (inl w) ↦ inr (inl (e, w))
    | inr (inr f) ↦ inr (inr (e, f))
  ]

  -- The second thread will be woken, or has been.
  abbrev IsHeard : FirstPc → SecondPc → Type 0
  IsHeard first SecondPc.locking = ⊥
  IsHeard first SecondPc.locked = ⊥
  IsHeard FirstPc.finished SecondPc.waiting = ⊥
  IsHeard _ _ = Unit

  FirstStep-IsHeard :
      {s s' : State}
      → FirstStep array half n spurious s s'
      → IsHeard s.first s.second
      → IsHeard s'.first s'.second
  FirstStep-IsHeard (FirstStep.lock e free) h = ground arith
  FirstStep-IsHeard (FirstStep.add_element e more) h = ground arith
  FirstStep-IsHeard (FirstStep.leave e done) h = ground arith
  FirstStep-IsHeard (FirstStep.unlock e) h = ground arith
  FirstStep-IsHeard (FirstStep.broadcast e) h = ground arith

  SecondStep-IsHeard :
      {s s' : State}
      → SecondStep array half n spurious s s'
      → IsHeard s.first s.second
      → IsHeard s'.first s'.second
  SecondStep-IsHeard (SecondStep.lock e free) h = ground arith
  SecondStep-IsHeard (SecondStep.wait e) h = ground arith
  SecondStep-IsHeard (SecondStep.wake_early e may) h = ground arith
  SecondStep-IsHeard (SecondStep.lock_again e free) h = ground arith
  SecondStep-IsHeard (SecondStep.add_element e more) h = ground arith
  SecondStep-IsHeard (SecondStep.leave e done) h = ground arith
  SecondStep-IsHeard (SecondStep.unlock e) h = ground arith

  Run-IsHeard :
      {s s' : State}
      → Run array half n spurious s s'
      → IsHeard s.first s.second
      → IsHeard s'.first s'.second
  Run-IsHeard stay h = h
  Run-IsHeard (go_on l (first_step step)) h = FirstStep-IsHeard step (Run-IsHeard l h)
  Run-IsHeard (go_on l (second_step step)) h = SecondStep-IsHeard step (Run-IsHeard l h)

  Run-Reach :
      {s s' : State}
      → Reach array half n spurious s
      → Run array half n spurious s s'
      → Reach array half n spurious s'
  Run-Reach r stay = r
  Run-Reach r (go_on l step) = next (Run-Reach r l) step

  -- The first thread is finished, or the second does not wait yet.
  abbrev pub IsLate : State → Type 0
  IsLate s =
      (s.first ≡ FirstPc.finished) ⊎ (s.second ≡ SecondPc.locking) ⊎ (s.second ≡ SecondPc.locked)

  IsLate-or_IsHeard : (s : State) → IsLate s ⊎ IsHeard s.first s.second
  IsLate-or_IsHeard s = ground arith

  stuck-IsLate : {s s' : State} → Run array half n spurious s s' → IsStuck s' → IsLate s
  stuck-IsLate {s} l (not_may, e, e', adds) = elim (IsLate-or_IsHeard s) [
    | inl late ↦ late
    | inr h ↦ let h' = Run-IsHeard l h in absurd (ground arith)
  ]

  -- In every reachable state `s'` at most one thread has the mutex, and either a step is possible; or
  -- both threads are finished with the sum of the `n` elements, to which the first half may be added
  -- twice if waits can return early; or, if they cannot, the first thread has finished and the second
  -- waits for a broadcast that will not come. This happens only where the second thread did not wait
  -- before the first had finished: in every state `s` on the way the first was finished, or the second
  -- did not wait yet.
  pub interleaved_add_ends :
      half ≤ n
      → {s s' : State} → Reach array half n spurious s
      → Run array half n spurious s s'
      → (inside s' ≤ 1) × (CanStep s' ⊎ IsDone s' ⊎ (IsStuck s' × IsLate s))
  interleaved_add_ends small {s} {s'} r l =
      let inv = Reach-Inv array half n spurious small (Run-Reach r l) in
      (
        ground arith,
        elim (steps s' s'.first refl inv.agree) [
          | inl c ↦ inl c
          | inr (inr (e, e')) ↦ inr (inl (e, e', ground arith))
          | inr (inl (e, e')) ↦ elim (Bool-cases spurious) [
            | inl may ↦ inl (_, second_step (SecondStep.wake_early e' may))
            | inr not_may ↦
                let stuck : IsStuck s' = (not_may, e, e', ground arith) in
                inr (inr (stuck, stuck-IsLate l stuck))
          ]
        ],
      )
