-- ===== src/Shm/Main.antt =====
-- The main functions of source/shm/server.c and source/shm/client.c.
pub mod Laws
use ipc_bench.Prelude.{ℕ, suc, Option, none, some}
use ipc_bench.Prelude.Int.{ℤ, to_size, one_more}
use ipc_bench.Setup.{
  Kernel, M, ◌>>=◌, ◌>>◌, pure, exit, call, make_key, get_segment, attach, detach, remove_segment,
  access,
}

-- What `communicate` reads and writes: the guard, and the data behind it.
abbrev pub footprint : ℤ → ℕ
footprint size = suc (to_size size)

abbrev pub use_memory : Kernel → ℤ → Option ℕ → M (Unit {0})
use_memory kernel size shared_memory = access kernel shared_memory (footprint size)

-- The two `cleanup` functions. No result is looked at.
abbrev pub server_cleanup : Kernel → ℕ → Option ℕ → M (Unit {0})
server_cleanup kernel segment_id shared_memory = do
  call kernel (detach shared_memory)
  call kernel (remove_segment segment_id)
  pure tt

abbrev pub client_cleanup : Kernel → Option ℕ → M (Unit {0})
client_cleanup kernel shared_memory = do call kernel (detach shared_memory); pure tt

unfoldable pub server_main : Kernel → ℤ → M (Unit {0})
server_main kernel size = do
  segment_key ← call kernel make_key
  segment_id ← call kernel (get_segment segment_key (to_size (one_more size)))
  elim segment_id [
    | none ↦ exit
    | some id ↦ do
      shared_memory ← call kernel (attach id)
      elim shared_memory [
        | none ↦ exit
        | some a ↦ do use_memory kernel size (some a); server_cleanup kernel id (some a)
      ]
  ]

-- `shared_memory < (char*)0` holds of no pointer: after a `shmat` that fails the first access ends the
-- process.
unfoldable pub client_main : Kernel → ℤ → M (Unit {0})
client_main kernel size = do
  segment_key ← call kernel make_key
  segment_id ← call kernel (get_segment segment_key (to_size (one_more size)))
  elim segment_id [
    | none ↦ exit
    | some id ↦ do
      shared_memory ← call kernel (attach id)
      use_memory kernel size shared_memory
      client_cleanup kernel shared_memory
  ]
