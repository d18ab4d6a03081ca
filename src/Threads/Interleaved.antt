-- ===== src/Threads/Interleaved.antt =====
-- source/other/pthread-test.c: interleaved_add, two threads of which the second waits on a condition
-- variable until the first has added its half.
-- A step is one call on the mutex or the condition variable, or one round of a loop, which a thread
-- makes with the mutex held; printing is left out. `half` and `n` are 5 and 10 in the source.
pub mod Invariant
pub mod Laws
mod Tests
use ipc_bench.Prelude.{ℕ, suc, ◌+◌, ◌%◌, ◌^◌, ◌≡◌, Bool, true, false, ltb}

-- Where `first_interleaved_half` stands.
pub data FirstPc : Type 0 where
  locking : FirstPc
  adding : FirstPc  -- at the test of its loop
  unlocking : FirstPc
  broadcasting : FirstPc
  finished : FirstPc

-- Where `second_interleaved_half` stands. `woken` waits for the mutex inside `pthread_cond_wait`.
pub data SecondPc : Type 0 where
  locking : SecondPc
  locked : SecondPc
  waiting : SecondPc
  woken : SecondPc
  adding : SecondPc
  unlocking : SecondPc
  finished : SecondPc

-- The mutex and the globals `sum`, an `int` as its bit pattern, and `i`.
pub record State : Type 0 where
  pub held : Bool
  pub sum : ℕ
  pub i : ℕ
  pub first : FirstPc
  pub second : SecondPc

-- `pthread_cond_broadcast` wakes the thread if it waits, and is without effect if it does not.
abbrev pub wake : SecondPc → SecondPc
wake SecondPc.waiting = SecondPc.woken
wake pc = pc

-- `spurious` says whether `pthread_cond_wait` can return without a broadcast, as pthread_cond_wait(3)
-- allows.
module _ (array : ℕ → ℕ) (half n : ℕ) (spurious : Bool) where
  abbrev pub add : State → State
  add s = record s { sum = (s.sum + array s.i) % 2 ^ 32; i = suc s.i }

  -- `first_interleaved_half`, for the task from 0 to `half`.
  pub data FirstStep (s : State) : State → Type 0 where
    lock :
        s.first ≡ FirstPc.locking
        → s.held ≡ false
        → FirstStep s (record s { held = true; i = 0; first = FirstPc.adding })
    add_element : s.first ≡ FirstPc.adding → ltb s.i half ≡ true → FirstStep s (add s)
    leave :
        s.first ≡ FirstPc.adding
        → ltb s.i half ≡ false
        → FirstStep s (record s { first = FirstPc.unlocking })
    unlock :
        s.first ≡ FirstPc.unlocking
        → FirstStep s (record s { held = false; first = FirstPc.broadcasting })
    broadcast :
        s.first ≡ FirstPc.broadcasting
        → FirstStep s (record s { first = FirstPc.finished; second = wake s.second })

  -- `second_interleaved_half`, for the task up to `n`.
  pub data SecondStep (s : State) : State → Type 0 where
    lock :
        s.second ≡ SecondPc.locking
        → s.held ≡ false
        → SecondStep s (record s { held = true; second = SecondPc.locked })
    wait :
        s.second ≡ SecondPc.locked
        → SecondStep s (record s { held = false; second = SecondPc.waiting })
    wake_early :
        s.second ≡ SecondPc.waiting
        → spurious ≡ true
        → SecondStep s (record s { second = SecondPc.woken })
    lock_again :
        s.second ≡ SecondPc.woken
        → s.held ≡ false
        → SecondStep s (record s { held = true; second = SecondPc.adding })
    add_element : s.second ≡ SecondPc.adding → ltb s.i n ≡ true → SecondStep s (add s)
    leave :
        s.second ≡ SecondPc.adding
        → ltb s.i n ≡ false
        → SecondStep s (record s { second = SecondPc.unlocking })
    unlock :
        s.second ≡ SecondPc.unlocking
        → SecondStep s (record s { held = false; second = SecondPc.finished })

  pub data Step (s : State) : State → Type 0 where
    first_step : {s' : State} → FirstStep s s' → Step s s'
    second_step : {s' : State} → SecondStep s s' → Step s s'

  -- `interleaved_add` from the creation of its threads on. Its joins return when both are finished.
  pub data Reach : State → Type 0 where
    start : Reach (record {
      held = false;
      sum = 0;
      i = 0;
      first = FirstPc.locking;
      second = SecondPc.locking;
    })
    next : {s s' : State} → Reach s → Step s s' → Reach s'

  -- What follows on a state.
  pub data Run (s : State) : State → Type 0 where
    stay : Run s s
    go_on : {s' s'' : State} → Run s s' → Step s' s'' → Run s s''
