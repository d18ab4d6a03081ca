-- ===== src/ShmSync/Tests.antt =====
-- A mutex as its owner, a run into the second `sync_wait` of the server, and the theorems at it.
use ipc_bench.Prelude.{
  ◌<◌, ℕ, suc, ◌≡◌, ◌≢◌, ◌↔◌, refl, sym, ap, Bool, true, false, Option, none, some, arith,
  if◌then◌else◌,
}
use ipc_bench.ShmSync.{
  Who, server_process, client_process, Pthreads, IsPthreads, ServerPc, ClientPc, ServerMove,
  ClientMove, Reach, start, server_step, client_step,
}
use ipc_bench.ShmSync.Safety.{sync_never_finishes}
use ipc_bench.ShmSync.Segment.{IsInside, sync_offset-IsInside}

-- Who has the mutex, and whether a signal waits for a waiter. (A wait begins with the signal used up.)
abbrev Objects : Type 0
Objects = Option Who × Bool

abbrev is_same : Who → Who → Bool
is_same server_process server_process = true
is_same client_process client_process = true
is_same _ _ = false

abbrev holds : Who → Objects → Bool
holds w (none, s) = false
holds w (some w', s) = is_same w w'

abbrev lock : Who → Objects → Option Objects
lock w (none, s) = some (some w, s)
lock w (some w', s) = none

abbrev begin_wait : Who → Objects → Objects
begin_wait w (none, s) = (none, s)
begin_wait w (some w', s) = (if is_same w w' then none else some w', false)

abbrev end_wait : Who → Objects → Option Objects
end_wait w (none, true) = some (some w, false)
end_wait w _ = none

abbrev held : Who → Option Objects → Bool
held w none = true
held w (some o) = holds w o

abbrev lib : Pthreads
lib = record {
  Objects = Objects;
  initial = (none, false);
  holds = holds;
  lock = lock;
  begin_wait = begin_wait;
  end_wait = end_wait;
  signal = λ o. (o.0, true);
}

lib-IsPthreads : IsPthreads lib
lib-IsPthreads = record {
  lock_again = again;
  holds_after_wait = after_wait;
  lock_keeps = lock_keeps;
  begin_wait_keeps = begin_keeps;
  end_wait_keeps = end_wait_keeps;
  signal_keeps = keeps;
}
  where
    again : (w : Who) (o : Objects) → holds w o ≡ true → lock w o ≡ none
    again w (none, s) h = ground arith
    again w (some w', s) h = refl

    after_wait : (w : Who) (o o' : Objects) → end_wait w o ≡ some o' → holds w o' ≡ true
    after_wait server_process (none, true) o' e = ap (held server_process) (sym e)
    after_wait client_process (none, true) o' e = ap (held client_process) (sym e)
    after_wait w (none, false) o' e = ground arith
    after_wait w (some x, s) o' e = ground arith

    lock_keeps :
        (w w' : Who) (o o' : Objects) → lock w' o ≡ some o' → holds w o ≡ true → holds w o' ≡ true
    lock_keeps w w' (none, s) o' e h = ground arith
    lock_keeps w w' (some x, s) o' e h = ground arith

    end_wait_keeps :
        (w w' : Who) (o o' : Objects)
        → end_wait w' o ≡ some o'
        → holds w o ≡ true
        → holds w o' ≡ true
    end_wait_keeps w w' (none, s) o' e h = ground arith
    end_wait_keeps w w' (some x, s) o' e h = ground arith

    keeps : (w : Who) (o : Objects) → holds w o ≡ true → holds w (o.0, true) ≡ true
    keeps w (none, s) h = h
    keeps w (some w', s) h = h

    begin_keeps :
        (w w' : Who) (o : Objects) → w ≢ w' → holds w o ≡ true → holds w (begin_wait w' o) ≡ true
    begin_keeps w w' (none, s) ne h = h
    begin_keeps server_process server_process (some x, s) ne h = absurd (ne refl)
    begin_keeps client_process client_process (some x, s) ne h = absurd (ne refl)
    begin_keeps server_process client_process (some server_process, s) ne h = refl
    begin_keeps server_process client_process (some client_process, s) ne h = h
    begin_keeps client_process server_process (some client_process, s) ne h = refl
    begin_keeps client_process server_process (some server_process, s) ne h = h

-- The server has signalled its first message and is about to lock the mutex again.
stuck-Reach : Reach lib 2 (some server_process, true) (ServerPc.locking 1) (ClientPc.locking 1)
stuck-Reach =
    client_step
      (server_step
        (server_step
          (server_step
            (client_step (server_step start (ServerMove.first_lock refl)) ClientMove.begin)
            (ServerMove.first_wake refl))
          (ServerMove.enter 1))
        (ServerMove.notify 1))
      (ClientMove.enter 1)

sync_never_finishes_example :
    (ServerPc.locking 1 ≢ ServerPc.finished)
    × ((k : ℕ) → ServerPc.locking 1 ≢ ServerPc.answering k)
    × (1 < 2 → ClientPc.locking 1 ≢ ClientPc.finished)
    × (1 < 2 → (k : ℕ) → ClientPc.locking 1 ≡ ClientPc.answering k → suc k ≡ 2)
sync_never_finishes_example = sync_never_finishes lib lib-IsPthreads 2 stuck-Reach (omega arith)

-- With glibc's 40 and 48 bytes and the default message.
default_offset-IsInside : IsInside 88 4096 ↔ ◌≡◌ {A = ℕ} 4096 0
default_offset-IsInside = sync_offset-IsInside 88 4096 (omega arith)
