-- ===== src/ShmSync/Main.antt =====
-- source/shm-sync/shm-sync-common.c but for sync_wait and sync_notify, and the main functions of
-- source/shm-sync/server.c and client.c. `sync_size` is the size of `struct Sync`.
pub mod Laws
use ipc_bench.Prelude.{ℕ, ◌==◌, Bool, true, false, Option, none, some, add64}
use ipc_bench.Prelude.Int.{ℤ, to_size, to_int}
use ipc_bench.Setup.{
  Kernel, M, ◌>>=◌, ◌>>◌, pure, exit, call, make_key, get_segment, attach, detach, remove_segment,
  access, Result, pthread, Pthread, mutexattr_init, condattr_init, mutexattr_setpshared,
  condattr_setpshared, mutex_init, cond_init, mutexattr_destroy, condattr_destroy, mutex_destroy,
  cond_destroy,
}

abbrev pub is_zero : Option ℕ → Bool
is_zero none = false
is_zero (some n) = n == 0

-- A call whose result other than 0 is a `throw`.
unfoldable pub check : Kernel → Pthread → M (Unit {0})
check kernel c = do
  code ← call kernel (pthread c)
  elim (is_zero code) [ true ↦ pure tt | false ↦ exit ]

-- The objects lie behind the data. Where there is no memory the first access ends the process.
abbrev pub or_fault : Option ℕ → M (Unit {0})
or_fault none = exit
or_fault (some a) = pure tt

unfoldable pub init_sync : Kernel → Option ℕ → M (Unit {0})
unfolding check
init_sync kernel shared_memory = do
  check kernel mutexattr_init
  check kernel condattr_init
  check kernel mutexattr_setpshared
  check kernel condattr_setpshared
  or_fault shared_memory
  check kernel mutex_init
  check kernel cond_init
  check kernel mutexattr_destroy
  check kernel condattr_destroy

unfoldable pub destroy_sync : Kernel → M (Unit {0})
unfolding check
destroy_sync kernel = do check kernel mutex_destroy; check kernel cond_destroy

-- `int size = args->size + sizeof(...)` is a sum of `size_t`.
unfoldable pub create_segment : (sync_size : ℕ) → Kernel → ℤ → M ℕ
create_segment sync_size kernel size = do
  segment_key ← call kernel make_key
  segment_id ←
      call kernel (get_segment segment_key (to_size (to_int (add64 (to_size size) sync_size))))
  elim segment_id [ none ↦ exit | some id ↦ pure id ]

-- `shared_memory < 0` holds of no pointer. The `memset` is an access.
unfoldable pub attach_segment : Kernel → ℕ → ℤ → M (Option ℕ)
attach_segment kernel id size = do
  shared_memory ← call kernel (attach id)
  access kernel shared_memory (to_size size)
  pure shared_memory

-- How `communicate` ends, whose calls are those of the module above.
abbrev pub communicate : Result (Unit {0}) → M (Unit {0})
communicate ends h = (ends, h)

-- The two `cleanup` functions: the server destroys the objects behind `shmdt`. Where that has succeeded
-- they lie in memory that is gone, and the first access ends the process.
unfoldable pub server_cleanup : Kernel → ℕ → Option ℕ → M (Unit {0})
unfolding destroy_sync
server_cleanup kernel segment_id shared_memory = do
  detached ← call kernel (detach shared_memory)
  call kernel (remove_segment segment_id)
  elim detached [ none ↦ destroy_sync kernel | some _ ↦ exit ]

abbrev pub client_cleanup : Kernel → Option ℕ → M (Unit {0})
client_cleanup kernel shared_memory = do call kernel (detach shared_memory); pure tt

-- `create_sync` is `init_sync`, at the place of ShmSync/Segment.
unfoldable pub server_main :
    (sync_size : ℕ) → Kernel → ℤ → (ends : Result (Unit {0})) → M (Unit {0})
unfolding create_segment attach_segment init_sync server_cleanup
server_main sync_size kernel size ends = do
  segment_id ← create_segment sync_size kernel size
  shared_memory ← attach_segment kernel segment_id size
  init_sync kernel shared_memory
  communicate ends
  server_cleanup kernel segment_id shared_memory

unfoldable pub client_main :
    (sync_size : ℕ) → Kernel → ℤ → (ends : Result (Unit {0})) → M (Unit {0})
unfolding create_segment attach_segment init_sync
client_main sync_size kernel size ends = do
  segment_id ← create_segment sync_size kernel size
  shared_memory ← attach_segment kernel segment_id size
  init_sync kernel shared_memory
  communicate ends
  client_cleanup kernel shared_memory
