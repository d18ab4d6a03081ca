-- ===== src/Setup/MemoryTests.antt =====
-- A kernel on which all calls succeed, and the theorems on the mains of shm, mmap, shm-sync
-- and zeromq at it.
use ipc_bench.Prelude.{ℕ, ◌≤◌, ◌≡◌, refl, Option, none, some, [], ◌∷◌, arith}
use ipc_bench.Prelude.Int.{pos}
use ipc_bench.Setup.{
  Call, History, Kernel, returned, exited, open_file, write_byte, map_file, attach,
}
use ipc_bench.Setup.Memory.{Touches, IsMapped, accesses, file_end}
use ipc_bench.Shm.Main as Shm
use ipc_bench.Mmap.Main as Mmap
use ipc_bench.Mmap.Main.Laws.{mmap-Touches_in_file}
use ipc_bench.ShmSync.Main as ShmSync
use ipc_bench.Common.Arguments.{check_flag}
use ipc_bench.Zeromq.Main as Zeromq
use ipc_bench.Zeromq.Main.Laws.{IsMain, bound, connected, AllMeet, zeromq_mains_meet}

abbrev willing_answer : History → Call → Option ℕ
willing_answer h (open_file file mode) = some 3
willing_answer h (write_byte fd) = some 1
willing_answer h (map_file fd bytes) = some 7000
willing_answer h (attach id) = some 8000
willing_answer h _ = some 0

abbrev willing : Kernel
willing = record { answer = willing_answer; addresses = λ h. none }

mmap-Touches_in_file_example :
    Touches
      (λ a bytes h.
        (mapped : ℕ) × IsMapped willing a bytes mapped h × (mapped ≤ file_end willing h))
      (Mmap.server_main willing (pos 4096) []).1
    × Touches
        (λ a bytes h. (mapped : ℕ) × IsMapped willing a bytes mapped h × (file_end willing h ≡ 0))
        (Mmap.client_main willing (pos 4096) []).1
    × ((Mmap.server_main willing (pos 4096) []).0 ≡ returned tt
        → accesses (Mmap.server_main willing (pos 4096) []).1 ≡ 1)
    × ((Mmap.client_main willing (pos 4096) []).0 ≡ returned tt
        → accesses (Mmap.client_main willing (pos 4096) []).1 ≡ 1)
mmap-Touches_in_file_example = mmap-Touches_in_file willing 4096 (omega arith) (omega arith)

-- The two over TCP, where the client's `communicate` throws.
zeromq_mains_meet_example :
    let options = Zeromq.tcp ∷ [] in
    let s = Zeromq.server_main willing options (returned tt) [] in
    let c = Zeromq.client_main willing options exited [] in
    IsMain willing (returned tt) bound (Zeromq.server_address (check_flag Zeromq.tcp options)) s
    × IsMain willing exited connected (Zeromq.client_address (check_flag Zeromq.tcp options)) c
    × AllMeet (bound s.1) (connected c.1)
zeromq_mains_meet_example = zeromq_mains_meet (Zeromq.tcp ∷ []) willing willing (returned tt) exited

-- Those of the memories come to their end there, but for the server of shm-sync.
regions_return :
    ((Shm.server_main willing (pos 4096) []).0 ≡ returned tt)
    × ((Shm.client_main willing (pos 4096) []).0 ≡ returned tt)
    × ((Mmap.server_main willing (pos 4096) []).0 ≡ returned tt)
    × ((Mmap.client_main willing (pos 4096) []).0 ≡ returned tt)
    × ((ShmSync.server_main 88 willing (pos 4096) (returned tt) []).0 ≡ exited)
    × ((ShmSync.client_main 88 willing (pos 4096) (returned tt) []).0 ≡ returned tt)
unfolding Shm.server_main Shm.client_main Mmap.server_main Mmap.client_main ShmSync.server_main
    ShmSync.client_main
regions_return = (refl, refl, refl, refl, refl, refl)
