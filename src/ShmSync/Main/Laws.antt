-- ===== src/ShmSync/Main/Laws.antt =====
-- What the mutex and the condition variable are made with, and what becomes of them.
use ipc_bench.Prelude.{
  ℕ, ◌+◌, ◌≡◌, ◌⊎◌, Bool, true, false, Option, none, some, [], ◌∷◌, if◌then◌else◌,
}
use ipc_bench.Setup.{
  Result, waiting, Kernel, History, returned, exited, detach, remove_segment, pthread, Pthread,
  mutexattr_init, condattr_init, mutexattr_setpshared, condattr_setpshared, mutex_init, cond_init,
  mutexattr_destroy, condattr_destroy, mutex_destroy, cond_destroy,
}
use ipc_bench.ShmSync.Main.{is_zero}

-- What is known of an object: `none` where it does not live, else whether it is shared between
-- processes.
pub record Objects : Type 0 where
  pub mutexattr : Option Bool
  pub condattr : Option Bool
  pub mutex : Option Bool
  pub cond : Option Bool

-- pthread_mutexattr_setpshared(3), pthread_mutex_init(3) and their kin, where they succeed.
abbrev pub effect : Pthread → Objects → Objects
effect mutexattr_init o = record o { mutexattr = some false }
effect condattr_init o = record o { condattr = some false }
effect mutexattr_setpshared o = record o { mutexattr = some true }
effect condattr_setpshared o = record o { condattr = some true }
effect mutex_init o = record o { mutex = o.mutexattr }
effect cond_init o = record o { cond = o.condattr }
effect mutexattr_destroy o = record o { mutexattr = none }
effect condattr_destroy o = record o { condattr = none }
effect mutex_destroy o = record o { mutex = none }
effect cond_destroy o = record o { cond = none }

abbrev pub objects : Kernel → History → Objects
objects kernel [] = record { mutexattr = none; condattr = none; mutex = none; cond = none }
objects kernel (pthread c ∷ h) =
    if is_zero (kernel.answer h (pthread c)) then effect c (objects kernel h) else objects kernel h
objects kernel (_ ∷ h) = objects kernel h

-- Made for use by several processes, and the attributes gone.
abbrev pub made : Objects
made = record { mutexattr = none; condattr = none; mutex = some true; cond = some true }

abbrev pub detaches : History → ℕ
detaches [] = 0
detaches (detach a ∷ h) = let rest = detaches h in rest + 1
detaches (_ ∷ h) = detaches h

module _ (kernel : Kernel) where
  -- What the server does behind `communicate`, at the calls made before.
  abbrev pub EndsAfter :
      (ends : Result (Unit {0})) (id a : ℕ) (before : History)
      → Result (Unit {0}) × History
      → Type 0
  EndsAfter exited id a before run = run ≡ (exited, before)
  EndsAfter waiting id a before run = run ≡ (waiting, before)
  EndsAfter (returned _) id a before run =
      let gone = remove_segment id ∷ detach (some a) ∷ before in
      ((code : ℕ) × (kernel.answer before (detach (some a)) ≡ some code) × (run ≡ (exited, gone)))
      ⊎ ((kernel.answer before (detach (some a)) ≡ none)
          × ((run.0 ≡ exited)
              ⊎ (run ≡ (returned tt, pthread cond_destroy ∷ pthread mutex_destroy ∷ gone))))

  -- A run that ends before `communicate`, or starts it with all in place.
  abbrev pub IsServer : (ends : Result (Unit {0})) → Result (Unit {0}) × History → Type 0
  IsServer ends run =
      ((run.0 ≡ exited) × (detaches run.1 ≡ 0))
      ⊎ ((id a : ℕ) × (before : History) × (objects kernel before ≡ made)
          × EndsAfter ends id a before run)
