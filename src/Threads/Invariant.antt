-- ===== src/Threads/Invariant.antt =====
-- What every step of the threads keeps: the mutex counts who is between lock and unlock, a sum that was
-- read is still the sum, and the sum with what is left to be added.
use mathlib.Core.Path.{subst}
use ipc_bench.Prelude.{
  ℕ, zero, suc, ◌+◌, ◌-◌, ◌/◌, ◌%◌, ◌^◌, ◌≤◌, ◌<◌, ◌≡◌, refl, sym, ◌∙◌, Bool, true, false, ltb, leb,
  arith,
}
use ipc_bench.Threads.{Thread, middle, Step, Reach, start, next}

-- 1 for a mutex that is held.
abbrev pub count_of : Bool → ℕ
count_of true = 1
count_of false = 0

-- The threads between `pthread_mutex_lock` and `pthread_mutex_unlock`.
abbrev pub inside : Thread → ℕ
inside (Thread.reading first last) = 1
inside (Thread.writing first last read) = 1
inside (Thread.unlocking first last) = 1
inside (Thread.both s t) = inside s + inside t
inside _ = 0

-- A sum that was read is still the sum.
abbrev pub IsFresh : ℕ → Thread → Type 0
IsFresh sum (Thread.writing first last read) = read ≡ sum
IsFresh sum (Thread.both s t) = IsFresh sum s × IsFresh sum t
IsFresh sum _ = Unit

-- The sum of `n` elements from `first` on.
abbrev pub slice : (array : ℕ → ℕ) (first n : ℕ) → ℕ
slice array first zero = 0
slice array first (suc n) = array first + slice array (suc first) n

pub slice_add :
    (array : ℕ → ℕ) (first m n : ℕ)
    → slice array first (m + n) ≡ slice array first m + slice array (first + m) n
slice_add array first zero n = ground arith
slice_add array first (suc m) n =
    let e : suc m + n ≡ suc (m + n) = omega arith in
    let e' : first + suc m ≡ suc first + m = omega arith in
    rw (e, e') (omega (arith, slice_add array (suc first) m n))

module _ (array : ℕ → ℕ) where
  -- What a thread has left to add.
  abbrev pub pending : Thread → ℕ
  pending (Thread.recursion first last) = slice array first (last - first)
  pending (Thread.loop first last) = slice array first (last - first)
  pending (Thread.locking first last) = array first + slice array (suc first) (last - suc first)
  pending (Thread.reading first last) = array first + slice array (suc first) (last - suc first)
  pending (Thread.writing first last read) =
      array first + slice array (suc first) (last - suc first)
  pending (Thread.unlocking first last) = slice array (suc first) (last - suc first)
  pending (Thread.both s t) = pending s + pending t
  pending Thread.finished = 0

  slice_first :
      (first last : ℕ)
      → ltb first last ≡ true
      → slice array first (last - first) ≡ array first + slice array (suc first) (last - suc first)
  slice_first first last h =
      let e : last - first ≡ suc (last - suc first) = ground arith in rw e refl

  slice_none : (first last : ℕ) → ltb first last ≡ false → slice array first (last - first) ≡ 0
  slice_none first last h = let e : last - first ≡ 0 = ground arith in rw e refl

  slice-middle :
      (first last : ℕ)
      → leb last (first + 2) ≡ false
      → slice array first (middle first last - first)
          + slice array (middle first last) (last - middle first last)
        ≡ slice array first (last - first)
  slice-middle first last h =
      let half = (last - first) / 2 in
      let left : middle first last - first ≡ half = ground arith in
      let right : last - middle first last ≡ last - first - half = ground arith in
      let whole : half + (last - first - half) ≡ last - first = ground arith in
      rw (left, right) (sym (slice_add array first half (last - first - half)) ∙ rw whole refl)

  Step-inside :
      {held held' : Bool} {sum sum' : ℕ} {t t' : Thread}
      → Step array held sum t held' sum' t'
      → inside t ≤ count_of held
      → inside t' + count_of held ≡ inside t + count_of held'
  Step-inside (Step.few held sum first last e) h = refl
  Step-inside (Step.split held sum first last e) h = refl
  Step-inside (Step.enter held sum first last e) h = refl
  Step-inside (Step.leave held sum first last e) h = refl
  Step-inside (Step.lock sum first last) h = refl
  Step-inside (Step.read held sum first last) h = refl
  Step-inside (Step.write held sum first last read) h = refl
  Step-inside (Step.unlock true sum first last) h = refl
  Step-inside (Step.unlock false sum first last) h = omega arith
  Step-inside (Step.first_step t st) h = omega (arith, Step-inside st (omega arith))
  Step-inside (Step.second_step s st) h = omega (arith, Step-inside st (omega arith))
  Step-inside (Step.join held sum) h = refl

  -- A thread that is not inside leaves the sum alone.
  Step-sum :
      {held held' : Bool} {sum sum' : ℕ} {t t' : Thread}
      → Step array held sum t held' sum' t'
      → inside t ≡ 0
      → sum ≡ sum'
  Step-sum (Step.few held sum first last e) h = refl
  Step-sum (Step.split held sum first last e) h = refl
  Step-sum (Step.enter held sum first last e) h = refl
  Step-sum (Step.leave held sum first last e) h = refl
  Step-sum (Step.lock sum first last) h = refl
  Step-sum (Step.read held sum first last) h = refl
  Step-sum (Step.write held sum first last read) h = omega arith
  Step-sum (Step.unlock held sum first last) h = refl
  Step-sum (Step.first_step t st) h = Step-sum st (omega arith)
  Step-sum (Step.second_step s st) h = Step-sum st (omega arith)
  Step-sum (Step.join held sum) h = refl

  outside-IsFresh : (sum : ℕ) (t : Thread) → inside t ≡ 0 → IsFresh sum t
  outside-IsFresh sum (Thread.recursion first last) h = tt
  outside-IsFresh sum (Thread.loop first last) h = tt
  outside-IsFresh sum (Thread.locking first last) h = tt
  outside-IsFresh sum (Thread.reading first last) h = tt
  outside-IsFresh sum (Thread.writing first last read) h = omega arith
  outside-IsFresh sum (Thread.unlocking first last) h = tt
  outside-IsFresh sum (Thread.both s t) h =
      (outside-IsFresh sum s (omega arith), outside-IsFresh sum t (omega arith))
  outside-IsFresh sum Thread.finished h = tt

  -- A thread stays fresh when another one makes a step.
  other-IsFresh :
      {held held' : Bool} {sum sum' : ℕ} {s s' : Thread} (t : Thread)
      → Step array held sum s held' sum' s'
      → inside s + inside t ≤ 1
      → IsFresh sum t
      → IsFresh sum' t
  other-IsFresh {sum' = sum'} {s = s} t st h fresh = by_inside (inside s) refl
    where
      by_inside : (n : ℕ) → inside s ≡ n → IsFresh sum' t
      by_inside zero e = subst (λ x. IsFresh x t) (Step-sum st e) fresh
      by_inside (suc n) e = outside-IsFresh sum' t (omega arith)

  Step-IsFresh :
      {held held' : Bool} {sum sum' : ℕ} {t t' : Thread}
      → Step array held sum t held' sum' t'
      → inside t ≤ 1
      → IsFresh sum t
      → IsFresh sum' t'
  Step-IsFresh (Step.few held sum first last e) h fresh = tt
  Step-IsFresh (Step.split held sum first last e) h fresh = (tt, tt)
  Step-IsFresh (Step.enter held sum first last e) h fresh = tt
  Step-IsFresh (Step.leave held sum first last e) h fresh = tt
  Step-IsFresh (Step.lock sum first last) h fresh = tt
  Step-IsFresh (Step.read held sum first last) h fresh = refl
  Step-IsFresh (Step.write held sum first last read) h fresh = tt
  Step-IsFresh (Step.unlock held sum first last) h fresh = tt
  Step-IsFresh (Step.first_step t st) h (fresh, other) =
      (Step-IsFresh st (omega arith) fresh, other-IsFresh t st h other)
  Step-IsFresh (Step.second_step s st) h (other, fresh) =
      (other-IsFresh s st (omega arith) other, Step-IsFresh st (omega arith) fresh)
  Step-IsFresh (Step.join held sum) h fresh = tt

  Step-pending :
      {held held' : Bool} {sum sum' : ℕ} {t t' : Thread}
      → Step array held sum t held' sum' t'
      → IsFresh sum t
      → (sum' + pending t') % 2 ^ 32 ≡ (sum + pending t) % 2 ^ 32
  Step-pending (Step.few held sum first last e) fresh = refl
  Step-pending (Step.split held sum first last e) fresh = rw (slice-middle first last e) refl
  Step-pending (Step.enter held sum first last e) fresh = rw (slice_first first last e) refl
  Step-pending (Step.leave held sum first last e) fresh = rw (slice_none first last e) refl
  Step-pending (Step.lock sum first last) fresh = refl
  Step-pending (Step.read held sum first last) fresh = refl
  Step-pending (Step.write held sum first last read) fresh = omega arith
  Step-pending (Step.unlock held sum first last) fresh = refl
  Step-pending (Step.first_step t st) (fresh, other) = omega (arith, Step-pending st fresh)
  Step-pending (Step.second_step s st) (other, fresh) = omega (arith, Step-pending st fresh)
  Step-pending (Step.join held sum) fresh = refl

-- The invariant, for all that is to be added.
abbrev pub Inv : (ℕ → ℕ) → ℕ → Bool → ℕ → Thread → Type 0
Inv array total held sum t =
    (inside t ≡ count_of held)
    × IsFresh sum t
    × ((sum + pending array t) % 2 ^ 32 ≡ total % 2 ^ 32)
    × (sum < 2 ^ 32)

Step-bound :
    (array : ℕ → ℕ) {held held' : Bool} {sum sum' : ℕ} {t t' : Thread}
    → Step array held sum t held' sum' t'
    → sum < 2 ^ 32
    → sum' < 2 ^ 32
Step-bound array (Step.few held sum first last e) h = h
Step-bound array (Step.split held sum first last e) h = h
Step-bound array (Step.enter held sum first last e) h = h
Step-bound array (Step.leave held sum first last e) h = h
Step-bound array (Step.lock sum first last) h = h
Step-bound array (Step.read held sum first last) h = h
Step-bound array (Step.write held sum first last read) h = omega arith
Step-bound array (Step.unlock held sum first last) h = h
Step-bound array (Step.first_step t st) h = Step-bound array st h
Step-bound array (Step.second_step s st) h = Step-bound array st h
Step-bound array (Step.join held sum) h = h

pub count_of-le : (held : Bool) → count_of held ≤ 1
count_of-le true = omega arith
count_of-le false = omega arith

pub Step-Inv :
    (array : ℕ → ℕ) (total : ℕ) {held held' : Bool} {sum sum' : ℕ} {t t' : Thread}
    → Step array held sum t held' sum' t'
    → Inv array total held sum t
    → Inv array total held' sum' t'
Step-Inv array total {held} st (agree, fresh, whole, small) = (
  omega (arith, Step-inside array st (omega arith)),
  Step-IsFresh array st (omega (arith, count_of-le held)) fresh,
  Step-pending array st fresh ∙ whole,
  Step-bound array st small,
)

pub Reach-Inv :
    (array : ℕ → ℕ) {t : Thread} {held : Bool} {sum : ℕ} {s : Thread}
    → inside t ≡ 0
    → Reach array t held sum s
    → Inv array (pending array t) held sum s
Reach-Inv array {t} outside start =
    (outside, outside-IsFresh array 0 t outside, omega arith, omega arith)
Reach-Inv array {t} outside (next r st) =
    Step-Inv array (pending array t) st (Reach-Inv array outside r)
