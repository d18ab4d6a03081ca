-- ===== src/ShmSync.antt =====
-- source/shm-sync: shared memory, with turns by a condition variable. `sync_wait` locks the mutex and
-- waits; it comes back with the mutex locked, and no code unlocks it.
-- A step is one call on the mutex or the condition variable, or one test of a loop, from the state on
-- in which both processes have created the objects.
pub mod Safety
pub mod Segment
pub mod Main
mod Tests
use ipc_bench.Prelude.{ℕ, zero, suc, ◌≡◌, ◌≢◌, Bool, true, Option, none, some}

pub data Who : Type 0 where
  server_process client_process : Who

-- The pthread library, at the state of the mutex and the condition variable. `lock` is `none` while it
-- blocks; `pthread_cond_wait` is in two parts: it gives the mutex up and waits, and it is woken up and
-- has the mutex again (`none` until then).
pub record Pthreads : Type 1 where
  pub Objects : Type 0
  pub initial : Objects
  pub holds : Who → Objects → Bool
  pub lock : Who → Objects → Option Objects
  pub begin_wait : Who → Objects → Objects
  pub end_wait : Who → Objects → Option Objects
  pub signal : Objects → Objects

-- pthread_mutex_lock(3), pthread_cond_wait(3): a process that locks a mutex again that it holds waits
-- for ever; a waiter comes back with the mutex; and no call takes it from the one that holds it, but
-- its own wait.
pub record IsPthreads (lib : Pthreads) : Type 0 where
  pub lock_again : (w : Who) (o : lib.Objects) → lib.holds w o ≡ true → lib.lock w o ≡ none
  pub holds_after_wait :
      (w : Who) (o o' : lib.Objects) → lib.end_wait w o ≡ some o' → lib.holds w o' ≡ true
  pub lock_keeps :
      (w w' : Who) (o o' : lib.Objects)
      → lib.lock w' o ≡ some o'
      → lib.holds w o ≡ true
      → lib.holds w o' ≡ true
  pub begin_wait_keeps :
      (w w' : Who) (o : lib.Objects)
      → w ≢ w'
      → lib.holds w o ≡ true
      → lib.holds w (lib.begin_wait w' o) ≡ true
  pub end_wait_keeps :
      (w w' : Who) (o o' : lib.Objects)
      → lib.end_wait w' o ≡ some o'
      → lib.holds w o ≡ true
      → lib.holds w o' ≡ true
  pub signal_keeps :
      (w : Who) (o : lib.Objects) → lib.holds w o ≡ true → lib.holds w (lib.signal o) ≡ true

-- Where the server stands: the two calls of its first `sync_wait`, and its loop. The numbers are the
-- messages left after this one, at `loop_test` all that are left.
pub data ServerPc : Type 0 where
  first_lock : ServerPc
  first_wait : ServerPc  -- inside `pthread_cond_wait`
  loop_test : ℕ → ServerPc
  notifying : ℕ → ServerPc  -- behind the `memset`
  locking : ℕ → ServerPc
  waiting : ℕ → ServerPc
  answering : ℕ → ServerPc  -- behind the `memcpy`, before the second `sync_notify`
  finished : ServerPc

-- Where the client stands. It notifies before its loop.
pub data ClientPc : Type 0 where
  starting : ClientPc
  loop_test : ℕ → ClientPc
  locking : ℕ → ClientPc
  waiting : ℕ → ClientPc
  answering : ℕ → ClientPc  -- behind the `memcpy` and the `memset`
  finished : ClientPc

module _ (lib : Pthreads) (count : ℕ) where
  -- The calls of the server.
  pub data ServerMove (o : lib.Objects) : ServerPc → lib.Objects → ServerPc → Type 0 where
    first_lock :
        {o' : lib.Objects}
        → lib.lock server_process o ≡ some o'
        → ServerMove o ServerPc.first_lock (lib.begin_wait server_process o') ServerPc.first_wait
    first_wake :
        {o' : lib.Objects}
        → lib.end_wait server_process o ≡ some o'
        → ServerMove o ServerPc.first_wait o' (ServerPc.loop_test count)
    leave : ServerMove o (ServerPc.loop_test zero) o ServerPc.finished
    enter : (k : ℕ) → ServerMove o (ServerPc.loop_test (suc k)) o (ServerPc.notifying k)
    notify : (k : ℕ) → ServerMove o (ServerPc.notifying k) (lib.signal o) (ServerPc.locking k)
    lock :
        (k : ℕ) {o' : lib.Objects}
        → lib.lock server_process o ≡ some o'
        → ServerMove o (ServerPc.locking k) (lib.begin_wait server_process o') (ServerPc.waiting k)
    wake :
        (k : ℕ) {o' : lib.Objects}
        → lib.end_wait server_process o ≡ some o'
        → ServerMove o (ServerPc.waiting k) o' (ServerPc.answering k)
    answer : (k : ℕ) → ServerMove o (ServerPc.answering k) (lib.signal o) (ServerPc.loop_test k)

  -- The calls of the client.
  pub data ClientMove (o : lib.Objects) : ClientPc → lib.Objects → ClientPc → Type 0 where
    begin : ClientMove o ClientPc.starting (lib.signal o) (ClientPc.loop_test count)
    leave : ClientMove o (ClientPc.loop_test zero) o ClientPc.finished
    enter : (k : ℕ) → ClientMove o (ClientPc.loop_test (suc k)) o (ClientPc.locking k)
    lock :
        (k : ℕ) {o' : lib.Objects}
        → lib.lock client_process o ≡ some o'
        → ClientMove o (ClientPc.locking k) (lib.begin_wait client_process o') (ClientPc.waiting k)
    wake :
        (k : ℕ) {o' : lib.Objects}
        → lib.end_wait client_process o ≡ some o'
        → ClientMove o (ClientPc.waiting k) o' (ClientPc.answering k)
    answer : (k : ℕ) → ClientMove o (ClientPc.answering k) (lib.signal o) (ClientPc.loop_test k)

  -- The states that the two get to from `o`.
  pub data Reach : lib.Objects → ServerPc → ClientPc → Type 0 where
    start : Reach lib.initial ServerPc.first_lock ClientPc.starting
    server_step :
        {o o' : lib.Objects} {v v' : ServerPc} {c : ClientPc}
        → Reach o v c
        → ServerMove o v o' v'
        → Reach o' v' c
    client_step :
        {o o' : lib.Objects} {v : ServerPc} {c c' : ClientPc}
        → Reach o v c
        → ClientMove o c o' c'
        → Reach o' v c'
