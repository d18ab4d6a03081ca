-- ===== src/Mmap/Main/Laws.antt =====
-- Whether the accesses of the two stay in what they mapped, and what they mapped in the file.
use ipc_bench.Prelude.{ℕ, ◌-◌, ◌^◌, ◌≤◌, ◌<◌, ◌≡◌, [], arith}
use ipc_bench.Prelude.Int.{pos}
use ipc_bench.Setup.{Kernel, returned}
use ipc_bench.Setup.Memory.{Touches, accesses, IsMapped, file_end}
use ipc_bench.Mmap.Main.{server_main, client_main, make_space, server_descriptor, client_descriptor}

module _ (kernel : Kernel) (n : ℕ) (small : n < 2 ^ 31 - 1) where
  server-Touches :
      Touches
        (λ a bytes h.
          (mapped : ℕ) × IsMapped kernel a bytes mapped h × (mapped ≤ file_end kernel h))
        (server_main kernel (pos n) []).1
  unfolding server_main server_descriptor make_space
  server-Touches = ground arith

  client-Touches :
      0 < n
      → Touches
          (λ a bytes h. (mapped : ℕ) × IsMapped kernel a bytes mapped h × (file_end kernel h ≡ 0))
          (client_main kernel (pos n) []).1
  unfolding client_main client_descriptor
  client-Touches some_bytes = ground arith

  returns-accesses :
      ((server_main kernel (pos n) []).0 ≡ returned tt
        → accesses (server_main kernel (pos n) []).1 ≡ 1)
      × ((client_main kernel (pos n) []).0 ≡ returned tt
          → accesses (client_main kernel (pos n) []).1 ≡ 1)
  unfolding server_main server_descriptor make_space client_main client_descriptor
  returns-accesses = (λ e. ground arith, λ e. ground arith)

  -- For sizes of at least one byte that leave room in an `int`: every access of the server is to bytes
  -- that it mapped just before, at an address other than MAP_FAILED, and these lie in the file, which it
  -- has made that long. Every access of the client is to bytes that it mapped too, but it never makes
  -- the file longer. A program that returns has made its access: none returns whose `mmap` failed.
  pub mmap-Touches_in_file :
      0 < n
      → Touches
          (λ a bytes h.
            (mapped : ℕ) × IsMapped kernel a bytes mapped h × (mapped ≤ file_end kernel h))
          (server_main kernel (pos n) []).1
        × Touches
            (λ a bytes h. (mapped : ℕ) × IsMapped kernel a bytes mapped h × (file_end kernel h ≡ 0))
            (client_main kernel (pos n) []).1
        × ((server_main kernel (pos n) []).0 ≡ returned tt
            → accesses (server_main kernel (pos n) []).1 ≡ 1)
        × ((client_main kernel (pos n) []).0 ≡ returned tt
            → accesses (client_main kernel (pos n) []).1 ≡ 1)
  mmap-Touches_in_file some_bytes =
      (server-Touches, client-Touches some_bytes, returns-accesses.0, returns-accesses.1)
