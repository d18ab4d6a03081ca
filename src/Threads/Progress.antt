-- ===== src/Threads/Progress.antt =====
-- Which threads can go on, and how many steps are left.
use ipc_bench.Prelude.{
  ℕ, zero, suc, ◌+◌, ◌-◌, ◌*◌, ◌≤◌, ◌<◌, ◌≡◌, ◌⊎◌, inl, inr, refl, Bool, true, false, ltb, leb,
  ◌==◌, if◌then◌else◌, arith, Bool-cases,
}
use ipc_bench.Threads.{Thread, Step, Reach, start, next}
use ipc_bench.Threads.Invariant.{inside, count_of}

abbrev pub CanStep : (ℕ → ℕ) → Bool → ℕ → Thread → Type 0
CanStep array held sum t =
    (held' : Bool) × (sum' : ℕ) × (t' : Thread) × Step array held sum t held' sum' t'

none_or_some : (n : ℕ) → (n ≡ 0) ⊎ (0 < n)
none_or_some zero = inl refl
none_or_some (suc n) = inr (omega arith)

module _ (array : ℕ → ℕ) where
  in_first :
      {held : Bool} {sum : ℕ} {s : Thread} (t : Thread)
      → CanStep array held sum s
      → CanStep array held sum (Thread.both s t)
  in_first t (held', sum', s', st) = (held', sum', Thread.both s' t, Step.first_step t st)

  in_second :
      {held : Bool} {sum : ℕ} (s : Thread) {t : Thread}
      → CanStep array held sum t
      → CanStep array held sum (Thread.both s t)
  in_second s (held', sum', t', st) = (held', sum', Thread.both s t', Step.second_step s st)

  -- Who has the mutex can go on.
  holder_steps : (held : Bool) (sum : ℕ) (t : Thread) → 0 < inside t → CanStep array held sum t
  holder_steps held sum (Thread.reading a b) h =
      (held, sum, Thread.writing a b sum, Step.read held sum a b)
  holder_steps held sum (Thread.writing a b r) h =
      (held, _, Thread.unlocking a b, Step.write held sum a b r)
  holder_steps held sum (Thread.unlocking a b) h =
      (false, sum, Thread.loop (suc a) b, Step.unlock held sum a b)
  holder_steps held sum (Thread.both s t) h = elim (none_or_some (inside s)) [
    | inl e ↦ in_second s (holder_steps held sum t (omega arith))
    | inr p ↦ in_first t (holder_steps held sum s p)
  ]
  holder_steps held sum (Thread.recursion a b) h = elim h [ ]
  holder_steps held sum (Thread.loop a b) h = elim h [ ]
  holder_steps held sum (Thread.locking a b) h = elim h [ ]
  holder_steps held sum Thread.finished h = elim h [ ]

  -- While the mutex is free every thread can go on, or has come to its end.
  free_steps : (sum : ℕ) (t : Thread) → (t ≡ Thread.finished) ⊎ CanStep array false sum t
  free_steps sum (Thread.recursion a b) = elim (Bool-cases (leb b (a + 2))) [
    | inl e ↦ inr (false, sum, Thread.loop a b, Step.few false sum a b e)
    | inr e ↦ inr (false, sum, _, Step.split false sum a b e)
  ]
  free_steps sum (Thread.loop a b) = elim (Bool-cases (ltb a b)) [
    | inl e ↦ inr (false, sum, Thread.locking a b, Step.enter false sum a b e)
    | inr e ↦ inr (false, sum, Thread.finished, Step.leave false sum a b e)
  ]
  free_steps sum (Thread.locking a b) = inr (true, sum, Thread.reading a b, Step.lock sum a b)
  free_steps sum (Thread.reading a b) =
      inr (holder_steps false sum (Thread.reading a b) (omega arith))
  free_steps sum (Thread.writing a b r) =
      inr (holder_steps false sum (Thread.writing a b r) (omega arith))
  free_steps sum (Thread.unlocking a b) =
      inr (holder_steps false sum (Thread.unlocking a b) (omega arith))
  free_steps sum (Thread.both s t) = elim (free_steps sum s) [
    | inr c ↦ inr (in_first t c)
    | inl e ↦ elim (free_steps sum t) [
      | inr c ↦ inr (in_second s c)
      | inl e' ↦ inr (rw (e, e') (false, sum, Thread.finished, Step.join false sum))
    ]
  ]
  free_steps sum Thread.finished = inl refl

  pub steps :
      (held : Bool) (sum : ℕ) (t : Thread)
      → inside t ≡ count_of held
      → (t ≡ Thread.finished) ⊎ CanStep array held sum t
  steps true sum t h = inr (holder_steps true sum t (omega arith))
  steps false sum t h = free_steps sum t

-- The steps that are left at most.
abbrev pub recursion_steps : ℕ → ℕ
recursion_steps n = if n == 0 then 2 else 10 * n - 2

abbrev pub loop_steps : ℕ → ℕ
loop_steps n = 6 * n + 1

abbrev pub steps_left : Thread → ℕ
steps_left (Thread.recursion a b) = recursion_steps (b - a)
steps_left (Thread.loop a b) = loop_steps (b - a)
steps_left (Thread.locking a b) = loop_steps (b - suc a) + 4
steps_left (Thread.reading a b) = loop_steps (b - suc a) + 3
steps_left (Thread.writing a b r) = loop_steps (b - suc a) + 2
steps_left (Thread.unlocking a b) = loop_steps (b - suc a) + 1
steps_left (Thread.both s t) = steps_left s + steps_left t + 1
steps_left Thread.finished = 0

pub Step-lt :
    (array : ℕ → ℕ) {held held' : Bool} {sum sum' : ℕ} {t t' : Thread}
    → Step array held sum t held' sum' t'
    → steps_left t' < steps_left t
Step-lt array (Step.few held sum a b e) = ground arith
Step-lt array (Step.split held sum a b e) = ground arith
Step-lt array (Step.enter held sum a b e) = ground arith
Step-lt array (Step.leave held sum a b e) = ground arith
Step-lt array (Step.lock sum a b) = omega arith
Step-lt array (Step.read held sum a b) = omega arith
Step-lt array (Step.write held sum a b r) = omega arith
Step-lt array (Step.unlock held sum a b) = omega arith
Step-lt array (Step.first_step t st) = omega (arith, Step-lt array st)
Step-lt array (Step.second_step s st) = omega (arith, Step-lt array st)
Step-lt array (Step.join held sum) = omega arith

abbrev pub length_of :
    {array : ℕ → ℕ} {t : Thread} {held : Bool} {sum : ℕ} {s : Thread} → Reach array t held sum s → ℕ
length_of start = 0
length_of (next r st) = suc (length_of r)

pub Reach-le :
    (array : ℕ → ℕ) {t : Thread} {held : Bool} {sum : ℕ} {s : Thread} (r : Reach array t held sum s)
    → length_of r + steps_left s ≤ steps_left t
Reach-le array start = omega arith
Reach-le array (next r st) = omega (arith, Reach-le array r, Step-lt array st)
