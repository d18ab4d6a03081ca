-- ===== src/Eventfd.antt =====
-- source/eventfd/eventfd-bi.c: two processes that pass tokens through one eventfd counter. Either of
-- them may read the token that is meant for the other one, and then writes it back.
-- A step is one call on the eventfd or one test of a loop. A call that fails ends its process by
-- `throw`, and takes no step here.
pub mod Invariant
pub mod Safety
pub mod Uni
mod Tests
use ipc_bench.Prelude.{ℕ, zero, suc, ◌+◌, ◌-◌, ◌^◌, ◌<◌, ◌≡◌, ◌≢◌, Option, none, some}

abbrev pub server_token : ℕ
server_token = 1

abbrev pub client_token : ℕ
client_token = 2

-- The kernel's side, at the value of the counter. `read` gives what it stores in the buffer and the
-- new value; both give `none` while they block.
pub record EventFd : Type 0 where
  pub read : ℕ → Option (ℕ × ℕ)
  pub write : ℕ → ℕ → Option ℕ

-- eventfd(2), without EFD_SEMAPHORE: a read takes the whole counter and blocks while it is 0; a
-- write adds to it if the sum fits.
pub record IsEventFd (fd : EventFd) : Type 0 where
  pub read_zero : fd.read 0 ≡ none
  pub read_suc : (v : ℕ) → fd.read (suc v) ≡ some (suc v, 0)
  pub write_fits : (n v : ℕ) → v + n < 2 ^ 64 - 1 → fd.write n v ≡ some (v + n)

-- Where the server stands in `server_communicate`. The first number is the messages left after this
-- one, at `loop_test` all that are left.
pub data ServerPc : Type 0 where
  loop_test : ℕ → ServerPc
  waiting : ℕ → ServerPc  -- before the read of `eventfd_wait`
  putting_back : ℕ → ℕ → ServerPc  -- before its write, with what was stored
  notifying : ℕ → ServerPc
  finished : ServerPc

-- Where the client stands in `client_communicate`.
pub data ClientPc : Type 0 where
  loop_test : ℕ → ClientPc
  notifying : ℕ → ClientPc
  waiting : ℕ → ClientPc
  putting_back : ℕ → ℕ → ClientPc
  finished : ClientPc

module _ (fd : EventFd) where
  -- A step of the server, from a value and a place to a value and a place.
  pub data ServerMove (value : ℕ) : ServerPc → ℕ → ServerPc → Type 0 where
    leave : ServerMove value (loop_test zero) value finished
    enter : (k : ℕ) → ServerMove value (loop_test (suc k)) value (waiting k)
    take :
        (k stored : ℕ) {value' : ℕ}
        → fd.read value ≡ some (stored, value')
        → stored ≡ server_token
        → ServerMove value (waiting k) value' (notifying k)
    miss :
        (k stored : ℕ) {value' : ℕ}
        → fd.read value ≡ some (stored, value')
        → stored ≢ server_token
        → ServerMove value (waiting k) value' (putting_back k stored)
    put_back :
        (k stored : ℕ) {value' : ℕ}
        → fd.write stored value ≡ some value'
        → ServerMove value (putting_back k stored) value' (waiting k)
    notify :
        (k : ℕ) {value' : ℕ}
        → fd.write client_token value ≡ some value'
        → ServerMove value (notifying k) value' (loop_test k)

  -- A step of the client.
  pub data ClientMove (value : ℕ) : ClientPc → ℕ → ClientPc → Type 0 where
    leave : ClientMove value (loop_test zero) value finished
    enter : (k : ℕ) → ClientMove value (loop_test (suc k)) value (notifying k)
    notify :
        (k : ℕ) {value' : ℕ}
        → fd.write server_token value ≡ some value'
        → ClientMove value (notifying k) value' (waiting k)
    take :
        (k stored : ℕ) {value' : ℕ}
        → fd.read value ≡ some (stored, value')
        → stored ≡ client_token
        → ClientMove value (waiting k) value' (loop_test k)
    miss :
        (k stored : ℕ) {value' : ℕ}
        → fd.read value ≡ some (stored, value')
        → stored ≢ client_token
        → ClientMove value (waiting k) value' (putting_back k stored)
    put_back :
        (k stored : ℕ) {value' : ℕ}
        → fd.write stored value ≡ some value'
        → ClientMove value (putting_back k stored) value' (waiting k)

pub record State : Type 0 where
  pub value : ℕ
  pub server : ServerPc
  pub client : ClientPc

-- Either process moves.
pub data Step (fd : EventFd) (s : State) : State → Type 0 where
  server_step :
      {v : ℕ} {p : ServerPc}
      → ServerMove fd s.value s.server v p
      → Step fd s (record s { value = v; server = p })
  client_step :
      {v : ℕ} {p : ClientPc}
      → ClientMove fd s.value s.client v p
      → Step fd s (record s { value = v; client = p })

-- From `eventfd(0, 0)` and the fork on, with `count` messages.
pub data Reach (fd : EventFd) (count : ℕ) : State → Type 0 where
  start :
      Reach fd count
        (record { value = 0; server = ServerPc.loop_test count; client = ClientPc.loop_test count })
  next : {s s' : State} → Reach fd count s → Step fd s s' → Reach fd count s'
