-- ===== src/Threads/Interleaved/Invariant.antt =====
-- What every step of `interleaved_add` keeps: who has the mutex, and what was added so far.
use mathlib.Core.Path.{subst}
use ipc_bench.Prelude.{ℕ, suc, ◌+◌, ◌%◌, ◌^◌, ◌≤◌, ◌≡◌, ◌⊎◌, refl, Bool, true, arith}
use ipc_bench.Threads.Invariant.{count_of, slice, slice_add}
use ipc_bench.Threads.Interleaved.{
  FirstPc, SecondPc, State, FirstStep, SecondStep, Step, first_step, second_step, Reach, start,
  next,
}

abbrev pub first_inside : FirstPc → ℕ
first_inside FirstPc.adding = 1
first_inside FirstPc.unlocking = 1
first_inside _ = 0

abbrev pub second_inside : SecondPc → ℕ
second_inside SecondPc.locked = 1
second_inside SecondPc.adding = 1
second_inside SecondPc.unlocking = 1
second_inside _ = 0

-- The threads that have locked the mutex and not unlocked it.
abbrev pub inside : State → ℕ
inside s = first_inside s.first + second_inside s.second

-- How far a thread is with its loop.
pub data Stage : Type 0 where
  before during behind : Stage

abbrev pub first_stage : FirstPc → Stage
first_stage FirstPc.locking = before
first_stage FirstPc.adding = during
first_stage _ = behind

abbrev pub second_stage : SecondPc → Stage
second_stage SecondPc.adding = during
second_stage SecondPc.unlocking = behind
second_stage SecondPc.finished = behind
second_stage _ = before

-- The sum as an `int`.
abbrev pub Adds : ℕ → ℕ → Type 0
Adds sum total = sum ≡ total % 2 ^ 32

module _ (array : ℕ → ℕ) (half n : ℕ) (spurious : Bool) where
  abbrev pub Content : (sum i : ℕ) → Stage → Stage → Type 0
  Content sum i before before = (sum ≡ 0) × (i ≡ 0)
  Content sum i before during = (i ≤ n) × Adds sum (slice array 0 i)
  Content sum i before behind = Adds sum (slice array 0 n)
  Content sum i during before = (i ≤ half) × Adds sum (slice array 0 i)
  Content sum i during during = ⊥
  Content sum i during behind = (i ≤ half) × Adds sum (slice array 0 n + slice array 0 i)
  Content sum i behind before = (i ≡ half) × Adds sum (slice array 0 half)
  Content sum i behind during = (half ≤ i) × (i ≤ n) × Adds sum (slice array 0 i)
  Content sum i behind behind =
      Adds sum (slice array 0 n)
      ⊎ ((spurious ≡ true) × Adds sum (slice array 0 n + slice array 0 half))

  abbrev pub IsEarly : FirstPc → SecondPc → Type 0
  IsEarly FirstPc.finished pc = Unit
  IsEarly _ SecondPc.locking = Unit
  IsEarly _ SecondPc.locked = Unit
  IsEarly _ SecondPc.waiting = Unit
  IsEarly _ _ = spurious ≡ true

  pub record Inv (s : State) : Type 0 where
    pub agree : inside s ≡ count_of s.held
    pub early : IsEarly s.first s.second
    pub content : Content s.sum s.i (first_stage s.first) (second_stage s.second)

  slice-suc : (i : ℕ) → slice array 0 (suc i) ≡ slice array 0 i + array i
  slice-suc i =
      let e : i + 1 ≡ suc i = omega arith in
      let at : 0 + i ≡ i = omega arith in
      let split =
        subst (λ k. slice array 0 (i + 1) ≡ slice array 0 i + slice array k 1) at
          (slice_add array 0 i 1) in
      subst (λ m. slice array 0 m ≡ slice array 0 i + array i) e (omega (arith, split))

  FirstStep-Inv : half ≤ n → {s s' : State} → FirstStep array half n spurious s s' → Inv s → Inv s'
  FirstStep-Inv small {s} (FirstStep.lock e free) inv = record {
    agree = ground arith;
    early = ground arith;
    content = ground arith;
  }
  FirstStep-Inv small {s} (FirstStep.add_element e more) inv = record {
    agree = ground arith;
    early = ground arith;
    content = ground (arith, slice-suc s.i);
  }
  FirstStep-Inv small {s} (FirstStep.leave e done) inv = record {
    agree = ground arith;
    early = ground arith;
    content = ground arith;
  }
  FirstStep-Inv small {s} (FirstStep.unlock e) inv = record {
    agree = ground arith;
    early = ground arith;
    content = ground arith;
  }
  FirstStep-Inv small {s} (FirstStep.broadcast e) inv = record {
    agree = ground arith;
    early = ground arith;
    content = ground arith;
  }

  SecondStep-Inv :
      half ≤ n → {s s' : State} → SecondStep array half n spurious s s' → Inv s → Inv s'
  SecondStep-Inv small {s} (SecondStep.lock e free) inv = record {
    agree = ground arith;
    early = ground arith;
    content = ground arith;
  }
  SecondStep-Inv small {s} (SecondStep.wait e) inv = record {
    agree = ground arith;
    early = ground arith;
    content = ground arith;
  }
  SecondStep-Inv small {s} (SecondStep.wake_early e may) inv = record {
    agree = ground arith;
    early = ground arith;
    content = ground arith;
  }
  SecondStep-Inv small {s} (SecondStep.lock_again e free) inv = record {
    agree = ground arith;
    early = ground arith;
    content = ground arith;
  }
  SecondStep-Inv small {s} (SecondStep.add_element e more) inv = record {
    agree = ground arith;
    early = ground arith;
    content = ground (arith, slice-suc s.i);
  }
  SecondStep-Inv small {s} (SecondStep.leave e done) inv = record {
    agree = ground arith;
    early = ground arith;
    content = ground arith;
  }
  SecondStep-Inv small {s} (SecondStep.unlock e) inv = record {
    agree = ground arith;
    early = ground arith;
    content = ground arith;
  }

  Step-Inv : half ≤ n → {s s' : State} → Step array half n spurious s s' → Inv s → Inv s'
  Step-Inv small (first_step step) inv = FirstStep-Inv small step inv
  Step-Inv small (second_step step) inv = SecondStep-Inv small step inv

  pub Reach-Inv : half ≤ n → {s : State} → Reach array half n spurious s → Inv s
  Reach-Inv small start = record { agree = refl; early = tt; content = (refl, refl) }
  Reach-Inv small (next r step) = Step-Inv small step (Reach-Inv small r)
