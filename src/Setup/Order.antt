-- ===== src/Setup/Order.antt =====
-- Which calls a sequence can make, and in which order.
use mathlib.Core.Path.{subst}
use mathlib.Core.List.{append_assoc}
use ipc_bench.Prelude.{
  ℕ, zero, suc, ◌≡◌, refl, sym, ◌∙◌, ap, Bool, true, false, Option, none, some, List, [], ◌∷◌, ◌++◌,
  arith, All, if◌then◌else◌,
}
use ipc_bench.Common.Sockets
use ipc_bench.Common.Sockets.{Request}
use ipc_bench.Setup.{
  Call, History, Kernel, Descriptor, Result, returned, exited, waiting, M, ◌>>=◌, bind_result, pure,
  exit, call, option, push_requests, with_options, retry, catch_interrupt, finish_setup,
}

-- `m` makes only calls that satisfy `Q`, whatever was called before.
pub record Makes {A : Type 0} (Q : Call → Type 0) (m : M A) : Type 0 where
  pub at : (h : History) → (calls : List Call) × ((m h).1 ≡ calls ++ h) × All Q calls

All-append : (Q : Call → Type 0) (xs ys : List Call) → All Q xs → All Q ys → All Q (xs ++ ys)
All-append Q [] ys a b = b
All-append Q (x ∷ xs) ys (q, a) b = (q, All-append Q xs ys a b)

module _ {Q : Call → Type 0} where
  pub pure-Makes : {A : Type 0} (a : A) → Makes Q (pure a)
  pure-Makes a = record { at = λ h. ([], refl, tt) }

  pub exit-Makes : {A : Type 0} → Makes Q (exit {A = A})
  exit-Makes = record { at = λ h. ([], refl, tt) }

  pub call-Makes : (kernel : Kernel) (c : Call) → Q c → Makes Q (call kernel c)
  call-Makes kernel c q = record { at = λ h. (c ∷ [], refl, (q, tt)) }

  bind_result-Makes :
      {A B : Type 0} (r : Result A) (f : A → M B) (h : History)
      → ((a : A) → Makes Q (f a))
      → (calls : List Call) × ((bind_result (r, h) f).1 ≡ calls ++ h) × All Q calls
  bind_result-Makes (returned a) f h k = (k a).at h
  bind_result-Makes exited f h k = ([], refl, tt)
  bind_result-Makes waiting f h k = ([], refl, tt)

  pub bind-Makes :
      {A B : Type 0} {m : M A} {f : A → M B}
      → Makes Q m
      → ((a : A) → Makes Q (f a))
      → Makes Q (m >>= f)
  bind-Makes {m = m} {f} km kf = record {
    at = λ h.
        let (cs, e, a) = km.at h in
        let (cs', e', a') = bind_result-Makes (m h).0 f (m h).1 kf in
        (
          cs' ++ cs,
          e' ∙ ap (λ h'. cs' ++ h') e ∙ sym (append_assoc cs' cs h),
          All-append Q cs' cs a' a,
        );
  }

  pub option-Makes :
      {A X : Type 0} {m : M A} {f : X → M A} (o : Option X)
      → Makes Q m
      → ((x : X) → Makes Q (f x))
      → Makes Q (elim o [ none ↦ m | some x ↦ f x ])
  option-Makes none km kf = km
  option-Makes (some x) km kf = kf x

  pub test-Makes :
      {A : Type 0} {m k : M A} (b : Bool)
      → Makes Q m
      → Makes Q k
      → Makes Q (elim b [ true ↦ m | false ↦ k ])
  test-Makes true km kk = km
  test-Makes false km kk = kk

  pub if-Makes :
      {A : Type 0} {m k : M A} (b : Bool) → Makes Q m → Makes Q k → Makes Q (if b then m else k)
  if-Makes true km kk = km
  if-Makes false km kk = kk

  push_requests-Makes :
      (fd : Descriptor) (requests : List Request)
      → ((r : Request) → Q (option fd r))
      → (h : History)
      → (calls : List Call) × (push_requests fd requests h ≡ calls ++ h) × All Q calls
  push_requests-Makes fd [] q h = ([], refl, tt)
  push_requests-Makes fd (r ∷ requests) q h =
      let (cs, e, a) = push_requests-Makes fd requests q (option fd r ∷ h) in
      (
        cs ++ (option fd r ∷ []),
        e ∙ sym (append_assoc cs (option fd r ∷ []) h),
        All-append Q cs (option fd r ∷ []) a (q r, tt),
      )

  pub with_options-Makes :
      {A : Type 0} (kernel : Kernel) (fd : Descriptor) (f : Sockets.Kernel → Sockets.M A)
      → ((r : Request) → Q (option fd r))
      → Makes Q (with_options kernel fd f)
  with_options-Makes kernel fd f q = record {
    at = λ h. push_requests-Makes fd (f (λ r. kernel.answer h (option fd r))).0 q h;
  }

  pub retry-Makes :
      (rounds : ℕ) {attempt : M Descriptor} → Makes Q attempt → Makes Q (retry rounds attempt)
  unfolding retry
  retry-Makes zero k = record { at = λ h. ([], refl, tt) }
  retry-Makes (suc rounds) {attempt} k =
      bind-Makes k (λ fd. option-Makes fd (retry-Makes rounds k) (λ n. pure-Makes n))

  pub finish_setup-Makes :
      (kernel : Kernel) (n : ℕ) → Q catch_interrupt → Makes Q (finish_setup kernel n)
  finish_setup-Makes kernel n q =
      bind-Makes (call-Makes kernel catch_interrupt q)
        (λ code. option-Makes code exit-Makes (λ k. pure-Makes n))

-- Every call of the history that is guarded has `P` before it.
module _ (is_guarded : Call → Bool) (P : History → Type 0) where
  abbrev pub Guarded : History → Type 0
  Guarded [] = Unit
  Guarded (c ∷ h) = (is_guarded c ≡ true → P h) × Guarded h

  pub free-Guarded : (c : Call) (h : History) → is_guarded c ≡ false → Guarded h → Guarded (c ∷ h)
  free-Guarded c h e g = ((λ e'. absurd (let f : ⊥ = ground (arith, e, e') in f)), g)

  -- Calls that are not guarded are free.
  pub Guarded-append :
      (calls : List Call) (h : History)
      → All (λ c. is_guarded c ≡ false) calls
      → Guarded h
      → Guarded (calls ++ h)
  Guarded-append [] h a g = g
  Guarded-append (c ∷ calls) h (e, a) g = free-Guarded c (calls ++ h) e (Guarded-append calls h a g)

  -- So is any call once `P` holds.
  pub Guarded-append_after :
      ((c : Call) (h : History) → P h → P (c ∷ h))
      → (calls : List Call) (h : History) → P h
      → Guarded h
      → Guarded (calls ++ h) × P (calls ++ h)
  Guarded-append_after lasts [] h p g = (g, p)
  Guarded-append_after lasts (c ∷ calls) h p g =
      let (g', p') = Guarded-append_after lasts calls h p g in
      (((λ _. p'), g'), lasts c (calls ++ h) p')

  -- So a sequence that makes no guarded call is free, and one that starts after `P` too.
  pub Makes-Guarded :
      {A : Type 0} {m : M A}
      → Makes (λ c. is_guarded c ≡ false) m
      → (h : History) → Guarded h
      → Guarded (m h).1
  Makes-Guarded {m = m} k h g =
      let (calls, e, a) = k.at h in subst Guarded (sym e) (Guarded-append calls h a g)

  pub Makes-Guarded_after :
      {A : Type 0} {m : M A}
      → ((c : Call) (h : History) → P h → P (c ∷ h))
      → Makes (λ _. Unit {0}) m
      → (h : History) → P h
      → Guarded h
      → Guarded (m h).1
  Makes-Guarded_after {m = m} lasts k h p g =
      let (calls, e, a) = k.at h in subst Guarded (sym e) (Guarded-append_after lasts calls h p g).0

-- A call with `R`, at the calls before it, was made.
abbrev pub Happened : (History → Call → Type 0) → History → Type 0
Happened R h =
    (later : List Call) × (c : Call) × (before : History) × (h ≡ later ++ (c ∷ before)) × R before c

pub Happened-cons :
    (R : History → Call → Type 0) (c : Call) (h : History) → Happened R h → Happened R (c ∷ h)
Happened-cons R c h (later, c', before, e, r) = (c ∷ later, c', before, ap (λ l. c ∷ l) e, r)

pub Happened-append :
    (R : History → Call → Type 0) (calls : List Call) (h : History)
    → Happened R h
    → Happened R (calls ++ h)
Happened-append R [] h happened = happened
Happened-append R (c ∷ calls) h happened =
    Happened-cons R c (calls ++ h) (Happened-append R calls h happened)

retry_round :
    (P : History → Type 0) (attempt : M Descriptor) (rounds : ℕ) (r : Result Descriptor)
    (h : History)
    → ((n : ℕ) → r ≡ returned (some n) → P h)
    → ((n : ℕ) → (retry rounds attempt h).0 ≡ returned n → P (retry rounds attempt h).1)
    → (n : ℕ)
    → let after =
        bind_result (r, h) (λ fd. elim fd [ none ↦ retry rounds attempt | some n ↦ pure n ]) in
      after.0 ≡ returned n → P after.1
retry_round P attempt rounds (returned none) h done more n e = more n e
retry_round P attempt rounds (returned (some k)) h done more n e = done k refl
retry_round P attempt rounds exited h done more n e = absurd (let f : ⊥ = ground arith in f)
retry_round P attempt rounds waiting h done more n e = absurd (let f : ⊥ = ground arith in f)

-- What every attempt with a result has done, a loop with a result has done.
pub retry_lem :
    (P : History → Type 0) (attempt : M Descriptor)
    → ((h : History) (n : ℕ) → (attempt h).0 ≡ returned (some n) → P (attempt h).1)
    → (rounds : ℕ) (h : History) (n : ℕ) → (retry rounds attempt h).0 ≡ returned n
    → P (retry rounds attempt h).1
unfolding retry
retry_lem P attempt done zero h n e = absurd (let f : ⊥ = ground arith in f)
retry_lem P attempt done (suc rounds) h n e =
    retry_round P attempt rounds (attempt h).0 (attempt h).1 (done h)
      (retry_lem P attempt done rounds (attempt h).1) n e
