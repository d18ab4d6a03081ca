-- ===== src/ShmSync/Safety.antt =====
-- Who holds the mutex behind each `sync_wait`, and how far the two processes get.
use mathlib.Core.Path.{subst}
use ipc_bench.Prelude.{sym, ℕ, suc, ◌≤◌, ◌<◌, ◌≡◌, ◌≢◌, ◌⊎◌, inl, inr, refl, true, some, arith}
use ipc_bench.ShmSync.{
  Who, server_process, client_process, Pthreads, IsPthreads, ServerPc, ClientPc, ServerMove,
  ClientMove, Reach, start, server_step, client_step,
}

-- The server before the end of its first message. Behind its first wait it holds the mutex.
abbrev pub ServerInv : (lib : Pthreads) → ℕ → lib.Objects → ServerPc → Type 0
ServerInv lib count o ServerPc.first_lock = Unit
ServerInv lib count o ServerPc.first_wait = Unit
ServerInv lib count o (ServerPc.loop_test k) = (k ≡ count) × (lib.holds server_process o ≡ true)
ServerInv lib count o (ServerPc.notifying k) = (suc k ≡ count) × (lib.holds server_process o ≡ true)
ServerInv lib count o (ServerPc.locking k) = (suc k ≡ count) × (lib.holds server_process o ≡ true)
ServerInv lib count o ServerPc.finished = count ≡ 0
ServerInv lib count o _ = ⊥

-- The client before the end of its second message. Behind its first wait it holds the mutex.
abbrev pub ClientInv : (lib : Pthreads) → ℕ → lib.Objects → ClientPc → Type 0
ClientInv lib count o ClientPc.starting = Unit
ClientInv lib count o (ClientPc.loop_test k) =
    (k ≡ count) ⊎ ((suc k ≡ count) × (lib.holds client_process o ≡ true))
ClientInv lib count o (ClientPc.locking k) =
    (suc k ≡ count) ⊎ ((suc (suc k) ≡ count) × (lib.holds client_process o ≡ true))
ClientInv lib count o (ClientPc.waiting k) = suc k ≡ count
ClientInv lib count o (ClientPc.answering k) = (suc k ≡ count) × (lib.holds client_process o ≡ true)
ClientInv lib count o ClientPc.finished = count ≤ 1

module _ (lib : Pthreads) (law : IsPthreads lib) (count : ℕ) where
  -- A move of the other process leaves the mutex with its holder.
  ClientMove-keeps :
      {o o' : lib.Objects} {c c' : ClientPc}
      → ClientMove lib count o c o' c'
      → lib.holds server_process o ≡ true
      → lib.holds server_process o' ≡ true
  ClientMove-keeps {o} ClientMove.begin h = law.signal_keeps server_process o h
  ClientMove-keeps ClientMove.leave h = h
  ClientMove-keeps (ClientMove.enter k) h = h
  ClientMove-keeps {o} (ClientMove.lock k {o'} e) h =
      law.begin_wait_keeps server_process client_process o' (λ z. cc)
        (law.lock_keeps server_process client_process o o' e h)
  ClientMove-keeps {o} (ClientMove.wake k {o'} e) h =
      law.end_wait_keeps server_process client_process o o' e h
  ClientMove-keeps {o} (ClientMove.answer k) h = law.signal_keeps server_process o h

  ServerMove-keeps :
      {o o' : lib.Objects} {v v' : ServerPc}
      → ServerMove lib count o v o' v'
      → lib.holds client_process o ≡ true
      → lib.holds client_process o' ≡ true
  ServerMove-keeps {o} (ServerMove.first_lock {o'} e) h =
      law.begin_wait_keeps client_process server_process o' (λ z. cc)
        (law.lock_keeps client_process server_process o o' e h)
  ServerMove-keeps {o} (ServerMove.first_wake {o'} e) h =
      law.end_wait_keeps client_process server_process o o' e h
  ServerMove-keeps ServerMove.leave h = h
  ServerMove-keeps (ServerMove.enter k) h = h
  ServerMove-keeps {o} (ServerMove.notify k) h = law.signal_keeps client_process o h
  ServerMove-keeps {o} (ServerMove.lock k {o'} e) h =
      law.begin_wait_keeps client_process server_process o' (λ z. cc)
        (law.lock_keeps client_process server_process o o' e h)
  ServerMove-keeps {o} (ServerMove.wake k {o'} e) h =
      law.end_wait_keeps client_process server_process o o' e h
  ServerMove-keeps {o} (ServerMove.answer k) h = law.signal_keeps client_process o h

  lock_again_never :
      (w : Who) (o : lib.Objects) {o' : lib.Objects}
      → lib.holds w o ≡ true
      → lib.lock w o ≡ some o'
      → ⊥
  lock_again_never w o h e = ground (arith, law.lock_again w o h)

  -- What the two invariants keep under a move of the own process.
  ServerMove-ServerInv :
      {o o' : lib.Objects} {v v' : ServerPc}
      → ServerMove lib count o v o' v'
      → ServerInv lib count o v
      → ServerInv lib count o' v'
  ServerMove-ServerInv (ServerMove.first_lock e) i = i
  ServerMove-ServerInv {o} (ServerMove.first_wake {o'} e) i =
      (refl, law.holds_after_wait server_process o o' e)
  ServerMove-ServerInv ServerMove.leave i = sym i.0
  ServerMove-ServerInv (ServerMove.enter k) i = i
  ServerMove-ServerInv {o} (ServerMove.notify k) i = (i.0, law.signal_keeps server_process o i.1)
  ServerMove-ServerInv {o} (ServerMove.lock k e) i =
      absurd (lock_again_never server_process o i.1 e)
  ServerMove-ServerInv (ServerMove.wake k e) i = elim i [ ]
  ServerMove-ServerInv (ServerMove.answer k) i = elim i [ ]

  ClientMove-ClientInv :
      {o o' : lib.Objects} {c c' : ClientPc}
      → ClientMove lib count o c o' c'
      → ClientInv lib count o c
      → ClientInv lib count o' c'
  ClientMove-ClientInv ClientMove.begin i = inl refl
  ClientMove-ClientInv ClientMove.leave (inl e) = omega arith
  ClientMove-ClientInv ClientMove.leave (inr i) = omega arith
  ClientMove-ClientInv (ClientMove.enter k) (inl e) = inl e
  ClientMove-ClientInv (ClientMove.enter k) (inr i) = inr i
  ClientMove-ClientInv (ClientMove.lock k e) (inl i) = i
  ClientMove-ClientInv {o} (ClientMove.lock k e) (inr i) =
      absurd (lock_again_never client_process o i.1 e)
  ClientMove-ClientInv {o} (ClientMove.wake k {o'} e) i =
      (i, law.holds_after_wait client_process o o' e)
  ClientMove-ClientInv {o} (ClientMove.answer k) i =
      inr (i.0, law.signal_keeps client_process o i.1)

  -- A move of the other process keeps them too.
  ClientMove-ServerInv :
      {o o' : lib.Objects} {c c' : ClientPc} (v : ServerPc)
      → ClientMove lib count o c o' c'
      → ServerInv lib count o v
      → ServerInv lib count o' v
  ClientMove-ServerInv ServerPc.first_lock m i = i
  ClientMove-ServerInv ServerPc.first_wait m i = i
  ClientMove-ServerInv (ServerPc.loop_test k) m i = (i.0, ClientMove-keeps m i.1)
  ClientMove-ServerInv (ServerPc.notifying k) m i = (i.0, ClientMove-keeps m i.1)
  ClientMove-ServerInv (ServerPc.locking k) m i = (i.0, ClientMove-keeps m i.1)
  ClientMove-ServerInv (ServerPc.waiting k) m i = elim i [ ]
  ClientMove-ServerInv (ServerPc.answering k) m i = elim i [ ]
  ClientMove-ServerInv ServerPc.finished m i = i

  ServerMove-ClientInv :
      {o o' : lib.Objects} {v v' : ServerPc} (c : ClientPc)
      → ServerMove lib count o v o' v'
      → ClientInv lib count o c
      → ClientInv lib count o' c
  ServerMove-ClientInv ClientPc.starting m i = i
  ServerMove-ClientInv (ClientPc.loop_test k) m (inl e) = inl e
  ServerMove-ClientInv (ClientPc.loop_test k) m (inr i) = inr (i.0, ServerMove-keeps m i.1)
  ServerMove-ClientInv (ClientPc.locking k) m (inl e) = inl e
  ServerMove-ClientInv (ClientPc.locking k) m (inr i) = inr (i.0, ServerMove-keeps m i.1)
  ServerMove-ClientInv (ClientPc.waiting k) m i = i
  ServerMove-ClientInv (ClientPc.answering k) m i = (i.0, ServerMove-keeps m i.1)
  ServerMove-ClientInv ClientPc.finished m i = i

  Reach-Inv :
      {o : lib.Objects} {v : ServerPc} {c : ClientPc}
      → Reach lib count o v c
      → ServerInv lib count o v × ClientInv lib count o c
  Reach-Inv start = (tt, tt)
  Reach-Inv {c} (server_step r m) =
      let i = Reach-Inv r in (ServerMove-ServerInv m i.0, ServerMove-ClientInv c m i.1)
  Reach-Inv {v} (client_step r m) =
      let i = Reach-Inv r in (ClientMove-ServerInv v m i.0, ClientMove-ClientInv m i.1)

  sync_server_never_finishes :
      {o : lib.Objects} {v : ServerPc} {c : ClientPc}
      → Reach lib count o v c
      → 0 < count
      → (v ≢ ServerPc.finished) × ((k : ℕ) → v ≢ ServerPc.answering k)
  sync_server_never_finishes {o} r p =
      let i = (Reach-Inv r).0 in
      (
        (λ e. let q : count ≡ 0 = subst (ServerInv lib count o) e i in omega arith),
        (λ k e. subst (ServerInv lib count o) e i),
      )

  sync_client_stops_at_second :
      {o : lib.Objects} {v : ServerPc} {c : ClientPc}
      → Reach lib count o v c
      → 1 < count
      → (c ≢ ClientPc.finished) × ((k : ℕ) → c ≡ ClientPc.answering k → suc k ≡ count)
  sync_client_stops_at_second {o} r p =
      let i = (Reach-Inv r).1 in
      (
        (λ e. let q : count ≤ 1 = subst (ClientInv lib count o) e i in omega arith),
        (λ k e. (subst (ClientInv lib count o) e i).0),
      )

  -- Over a pthread library as documented, and whatever the interleaving: for at least one message the
  -- server of shm-sync never answers a message and never finishes, since it holds the mutex from its
  -- first `sync_wait` on and locks it again in the second one; for more than one message the client
  -- never finishes, and comes back from `sync_wait` for its first message at most.
  pub sync_never_finishes :
      {o : lib.Objects} {v : ServerPc} {c : ClientPc}
      → Reach lib count o v c
      → 0 < count
      → (v ≢ ServerPc.finished)
        × ((k : ℕ) → v ≢ ServerPc.answering k)
        × (1 < count → c ≢ ClientPc.finished)
        × (1 < count → (k : ℕ) → c ≡ ClientPc.answering k → suc k ≡ count)
  sync_never_finishes r p =
      let (never, silent) = sync_server_never_finishes r p in
      (
        never,
        silent,
        λ q. (sync_client_stops_at_second r q).0,
        λ q. (sync_client_stops_at_second r q).1,
      )
