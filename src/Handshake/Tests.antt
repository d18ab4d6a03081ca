-- ===== src/Handshake/Tests.antt =====
-- A run of the two protocols, and the theorems at it.
use ipc_bench.Prelude.{ℕ, ◌+◌, ◌*◌, ◌≤◌, ◌≡◌, ◌≢◌, ◌⊎◌, refl, false, arith}
use ipc_bench.Handshake.{
  ServerPc, ClientPc, ServerMove, ClientMove, State, Step, server_step, client_step, Reach, start,
  next,
}
use ipc_bench.Handshake.Safety.{
  client_accesses, steps_left, IsDone, length_of, mutual_exclusion, progress, runs_are_bounded,
}
use ipc_bench.Shm
use ipc_bench.Mmap

-- The client starts, the server wakes up and fills the memory, and the client gets to its spin.
abbrev filling : State
filling = record { guard = b's'; server = ServerPc.writing 0; client = ClientPc.waiting 0 }

filling-Reach : (scribble : ℕ → ℕ) → Reach 1 scribble 0 filling
filling-Reach scribble =
    next
      (next (next (next start (client_step ClientMove.begin)) (server_step (ServerMove.begin refl)))
        (server_step (ServerMove.enter 0)))
      (client_step (ClientMove.enter 0))

-- Behind the `memset` of the mapped file the guard is '*': neither process can pass a spin.
abbrev filled : State
filled = record { guard = b'*'; server = ServerPc.notifying 0; client = ClientPc.waiting 0 }

filled-Step : Step 1 (Mmap.scribble 16) filling filled
unfolding Mmap.scribble
filled-Step = server_step (ServerMove.write 0)

filled-Reach : Reach 1 (Mmap.scribble 16) 0 filled
filled-Reach = next (filling-Reach (Mmap.scribble 16)) filled-Step

unset : ◌≢◌ {A = ℕ} 0 b's'
unset e = omega arith

mutual_exclusion_example : client_accesses (ClientPc.waiting 0) ≡ false
mutual_exclusion_example =
    mutual_exclusion 1 (Mmap.scribble 16) (Mmap.scribble-harmless 16) unset
      (filling-Reach (Mmap.scribble 16)) refl

progress_example : IsDone filled ⊎ ((s' : State) × Step 1 (Mmap.scribble 16) filled s')
progress_example = progress 1 (Mmap.scribble 16) (Mmap.scribble-harmless 16) unset filled-Reach

runs_are_bounded_example :
    length_of (filling-Reach Shm.scribble) + steps_left 1 filling ≤ 10 * 1 + 4
runs_are_bounded_example = runs_are_bounded {scribble = Shm.scribble} (filling-Reach Shm.scribble)
