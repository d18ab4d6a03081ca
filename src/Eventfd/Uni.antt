-- ===== src/Eventfd/Uni.antt =====
-- source/eventfd/eventfd-uni.c: a client that writes timestamps to the counter, and a server that
-- reads as many. A step is one call on the eventfd or one test of a loop; a call that fails ends its
-- process by `throw`, and takes no step here.
use ipc_bench.Prelude.{ℕ, zero, suc, ◌+◌, ◌<◌, ◌≡◌, ◌≢◌, some, arith, ltb, if◌then◌else◌}
use ipc_bench.Common.Benchmarks.{Benchmarks, benchmark}
use ipc_bench.Eventfd.{EventFd, IsEventFd}

-- Where the server stands, with its measurements. The number is the messages left after this one, at
-- `loop_test` all that are left.
pub data ServerPc : Type 0 where
  loop_test : ℕ → ServerPc
  reading : ℕ → ServerPc
  finished : ServerPc

pub data ClientPc : Type 0 where
  loop_test : ℕ → ClientPc
  writing : ℕ → ℕ → ClientPc  -- with the timestamp
  finished : ClientPc

pub record State : Type 0 where
  pub value : ℕ
  pub bench : Benchmarks
  pub server : ServerPc
  pub client : ClientPc

-- A step of the server or of the client.
pub data Step (fd : EventFd) (s : State) : State → Type 0 where
  server_leave :
      s.server ≡ ServerPc.loop_test zero → Step fd s (record s { server = ServerPc.finished })
  server_enter :
      (k : ℕ)
      → s.server ≡ ServerPc.loop_test (suc k)
      → Step fd s (record s { server = ServerPc.reading k })
  server_read :
      (k stored now : ℕ) {value : ℕ}
      → s.server ≡ ServerPc.reading k
      → fd.read s.value ≡ some (stored, value)
      → Step fd s (record s {
        value = value;
        bench = benchmark now (record s.bench { single_start = stored });
        server = ServerPc.loop_test k;
      })
  client_leave :
      s.client ≡ ClientPc.loop_test zero → Step fd s (record s { client = ClientPc.finished })
  client_enter :
      (k now : ℕ)
      → s.client ≡ ClientPc.loop_test (suc k)
      → Step fd s (record s { client = ClientPc.writing k now })
  client_write :
      (k timestamp : ℕ) {value : ℕ}
      → s.client ≡ ClientPc.writing k timestamp
      → fd.write timestamp s.value ≡ some value
      → Step fd s (record s { value = value; client = ClientPc.loop_test k })

pub data Steps (fd : EventFd) (s : State) : State → Type 0 where
  here : Steps fd s s
  next : {s' s'' : State} → Steps fd s s' → Step fd s' s'' → Steps fd s s''

-- The reads that the server has yet to make, and the writes that the client has.
abbrev pub server_left : ServerPc → ℕ
server_left (ServerPc.loop_test k) = k
server_left (ServerPc.reading k) = suc k
server_left ServerPc.finished = 0

abbrev pub client_left : ClientPc → ℕ
client_left (ClientPc.loop_test k) = k
client_left (ClientPc.writing k timestamp) = suc k
client_left ClientPc.finished = 0

-- The reads that can still succeed: one for what is in the counter, and one for each write to come.
abbrev pub reads_possible : State → ℕ
reads_possible s = (if ltb 0 s.value then 1 else 0) + client_left s.client

module _ (fd : EventFd) (law : IsEventFd fd) where
  read_lem : (v stored v' : ℕ) → fd.read v ≡ some (stored, v') → (0 < v) × (v' ≡ 0)
  read_lem zero stored v' e = ground (arith, law.read_zero)
  read_lem (suc v) stored v' e = ground (arith, law.read_suc v)

  Step-late :
      {s s' : State}
      → Step fd s s'
      → reads_possible s < server_left s.server
      → reads_possible s' < server_left s'.server
  Step-late (server_leave e) h = ground arith
  Step-late (server_enter k e) h = ground arith
  Step-late {s} (server_read k stored now {value} e r) h =
      ground (arith, read_lem s.value stored value r)
  Step-late (client_leave e) h = ground arith
  Step-late (client_enter k now e) h = ground arith
  Step-late (client_write k timestamp e w) h = ground arith

  -- Once the server has more reads to make than there are writes to come and a value to be read (as
  -- when the client has written twice in between two of its reads), it never finishes, however the
  -- two go on over an eventfd that behaves as documented: the sum of two timestamps is one message.
  pub late_server_never_finishes :
      {s s' : State}
      → Steps fd s s'
      → reads_possible s < server_left s.server
      → (s'.server ≢ ServerPc.finished) × (reads_possible s' < server_left s'.server)
  late_server_never_finishes here h = (λ e. ground arith, h)
  late_server_never_finishes (next r st) h =
      let late = Step-late st (late_server_never_finishes r h).1 in (λ e. ground arith, late)
