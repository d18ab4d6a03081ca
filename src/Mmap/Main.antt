-- ===== src/Mmap/Main.antt =====
-- The main functions of source/mmap/server.c and source/mmap/client.c, with make_space and
-- get_file_descriptor.
pub mod Laws
use ipc_bench.Prelude.{ℕ, ◌+◌, max, true, false, Option, none, some}
use ipc_bench.Prelude.Int.{ℤ, pos, to_size, one_more}
use ipc_bench.Setup.{
  Kernel, Descriptor, M, ◌>>=◌, ◌>>◌, pure, exit, call, is_empty, mmap_file, create, open_file,
  seek, write_byte, map_file, unmap, remove_file, close, access,
}

-- What `communicate` reads and writes: the guard, which is the first byte of the data.
abbrev pub footprint : ℤ → ℕ
footprint size = max 1 (to_size size)

abbrev pub use_memory : Kernel → ℤ → Option ℕ → M (Unit {0})
use_memory kernel size file_memory = access kernel file_memory (footprint size)

-- The results of `lseek` are not looked at; `write(...) < 1` ends the process.
unfoldable pub make_space : Kernel → Descriptor → ℤ → M (Unit {0})
make_space kernel fd bytes = do
  call kernel (seek fd (one_more bytes))
  count ← call kernel (write_byte fd)
  elim (is_empty count) [ true ↦ exit | false ↦ do call kernel (seek fd (pos 0)); pure tt ]

-- Those of the server and of the client.
unfoldable pub server_descriptor : Kernel → ℤ → M ℕ
unfolding make_space
server_descriptor kernel bytes = do
  fd ← call kernel (open_file mmap_file create)
  elim fd [ none ↦ exit | some n ↦ do make_space kernel (some n) bytes; pure n ]

unfoldable pub client_descriptor : Kernel → M ℕ
client_descriptor kernel = do
  fd ← call kernel (open_file mmap_file create)
  elim fd [ none ↦ exit | some n ↦ pure n ]

-- `close` and `munmap` with a result below 0 end the process.
abbrev pub or_exit : Option ℕ → M (Unit {0})
or_exit none = exit
or_exit (some n) = pure tt

-- `file_memory < 0` holds of no pointer, also not of MAP_FAILED: then the first access ends the process.
unfoldable pub server_main : Kernel → ℤ → M (Unit {0})
unfolding server_descriptor
server_main kernel size = do
  fd ← server_descriptor kernel size
  file_memory ← call kernel (map_file (some fd) (to_size (one_more size)))
  closed ← call kernel (close (some fd))
  or_exit closed
  use_memory kernel size file_memory
  unmapped ← call kernel (unmap file_memory (to_size size))
  or_exit unmapped

unfoldable pub client_main : Kernel → ℤ → M (Unit {0})
unfolding client_descriptor
client_main kernel size = do
  fd ← client_descriptor kernel
  file_memory ← call kernel (map_file (some fd) (to_size size))
  closed ← call kernel (close (some fd))
  or_exit closed
  use_memory kernel size file_memory
  unmapped ← call kernel (unmap file_memory (to_size size))
  or_exit unmapped
  call kernel (remove_file mmap_file)
  pure tt
