-- ===== src/Threads.antt =====
-- source/other/pthread-test.c: threads that add the elements of an array to one sum under a mutex
-- (add, parallel_add, recursive_addition and recursive_add).
-- A step is one call on the mutex, one read or write of the sum, one test of a loop, or the creation
-- or the end of a thread; the threads interleave in any order.
pub mod Invariant
pub mod Progress
pub mod Safety
pub mod Interleaved
mod Tests
use ipc_bench.Prelude.{ℕ, suc, ◌+◌, ◌-◌, ◌/◌, ◌%◌, ◌^◌, ◌≡◌, Bool, true, false, ltb, leb}

-- What a thread has left to do. `both` is a thread that has created another one, the first, and joins
-- it behind its own work, the second.
pub data Thread : Type 0 where
  recursion : (first last : ℕ) → Thread  -- before the test of `recursive_addition`
  loop : (first last : ℕ) → Thread
  locking : (first last : ℕ) → Thread
  reading : (first last : ℕ) → Thread
  writing : (first last read : ℕ) → Thread  -- behind the read of `sum`
  unlocking : (first last : ℕ) → Thread
  both : Thread → Thread → Thread
  finished : Thread

-- The end of the left half: `first + (last - first) / 2`.
abbrev pub middle : (first last : ℕ) → ℕ
middle first last = first + (last - first) / 2

-- The mutex and the sum, which is an `int` as its bit pattern.
module _ (array : ℕ → ℕ) where
  pub data Step : (held : Bool) (sum : ℕ) → Thread → Bool → ℕ → Thread → Type 0 where
    -- `(last - first) <= 2`
    few :
        (held : Bool) (sum first last : ℕ)
        → leb last (first + 2) ≡ true
        → Step held sum (recursion first last) held sum (loop first last)
    split :
        (held : Bool) (sum first last : ℕ)
        → leb last (first + 2) ≡ false
        → Step held sum
            (recursion first last)
            held
            sum
            (both (recursion first (middle first last)) (recursion (middle first last) last))
    enter :
        (held : Bool) (sum first last : ℕ)
        → ltb first last ≡ true
        → Step held sum (loop first last) held sum (locking first last)
    leave :
        (held : Bool) (sum first last : ℕ)
        → ltb first last ≡ false
        → Step held sum (loop first last) held sum finished
    lock : (sum first last : ℕ) → Step false sum (locking first last) true sum (reading first last)
    read :
        (held : Bool) (sum first last : ℕ)
        → Step held sum (reading first last) held sum (writing first last sum)
    write :
        (held : Bool) (sum first last read : ℕ)
        → Step held sum
            (writing first last read)
            held
            ((read + array first) % 2 ^ 32)
            (unlocking first last)
    unlock :
        (held : Bool) (sum first last : ℕ)
        → Step held sum (unlocking first last) false sum (loop (suc first) last)
    first_step :
        (t : Thread) {held held' : Bool} {sum sum' : ℕ} {s s' : Thread}
        → Step held sum s held' sum' s'
        → Step held sum (both s t) held' sum' (both s' t)
    second_step :
        (s : Thread) {held held' : Bool} {sum sum' : ℕ} {t t' : Thread}
        → Step held sum t held' sum' t'
        → Step held sum (both s t) held' sum' (both s t')
    join : (held : Bool) (sum : ℕ) → Step held sum (both finished finished) held sum finished

  -- What a thread gets to from a free mutex and the sum 0.
  pub data Reach (t : Thread) : Bool → ℕ → Thread → Type 0 where
    start : Reach t false 0 t
    next :
        {held held' : Bool} {sum sum' : ℕ} {s s' : Thread}
        → Reach t held sum s
        → Step held sum s held' sum' s'
        → Reach t held' sum' s'

-- `add`, the body of the threads of `parallel_add`.
abbrev pub add : (first last : ℕ) → Thread
add first last = loop first last

-- `parallel_add` and `recursive_add`, for an array of `n` elements of which the first thread gets
-- `half`; those of the source are 10 and 5.
abbrev pub parallel_add : (half n : ℕ) → Thread
parallel_add half n = both (add 0 half) (add half n)

abbrev pub recursive_add : ℕ → Thread
recursive_add n = recursion 0 n
