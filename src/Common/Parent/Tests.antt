-- ===== src/Common/Parent/Tests.antt =====
-- A kernel that starts the server and has no process left for the client.
use ipc_bench.Prelude.{ℕ, zero, suc, ◌≡◌, refl, true, false, Option, none, some, [], ◌∷◌, arith}
use ipc_bench.Common.Process.{codes}
use ipc_bench.Common.Process.Names.{server_name, client_name}
use ipc_bench.Common.Signals.{default_action, Process, SigAction}
use ipc_bench.Common.Parent.{Kernel, Text, Argv, Family, setup_parent, pid_of}
use ipc_bench.Common.Parent.Laws.{IsKernel, Forked, setup_parent_lem}

abbrev exec_signals : Process → Process
exec_signals p = record p { handlers = record { usr1 = default_action; usr2 = default_action } }

abbrev fork : ℕ → Option ℕ
fork zero = some 4711
fork (suc nth) = none

abbrev kernel : Kernel
kernel = record {
  fork = fork;
  setpgid = λ nth. true;
  execv = λ arguments. true;
  exec_signals = exec_signals;
}

kernel-IsKernel : IsKernel kernel
kernel-IsKernel = record {
  resets_usr1 = λ p e. refl;
  resets_usr2 = λ p e. refl;
  keeps_blocked = λ p. refl;
}

abbrev action : SigAction
action = record {
  handler = default_action;
  restarts = false;
  mask = record { usr1 = true; usr2 = true };
}

abbrev process : Process
process = record {
  handlers = record { usr1 = default_action; usr2 = default_action };
  blocked = record { usr1 = false; usr2 = false };
}

abbrev argv : Argv
argv = some (codes "fifo") ∷ some (codes "-c") ∷ some (codes "9") ∷ none ∷ []

abbrev path : Text
path = codes "/home/ipc-bench/c"

setup_parent_lem_example :
    (family : Family) × (setup_parent kernel
        (record { usr1 = true; usr2 = true })
        (action, process)
        (b'c' ∷ [])
        path
        (codes "fifo")
        3
        argv
      ≡ some family)
    × Forked kernel 0 (server_name path (codes "fifo")) 3 argv process family.server
    × Forked kernel 1 (client_name path (codes "fifo")) 3 argv process family.client
    × (family.waits ≡ pid_of family.server ∷ pid_of family.client ∷ [])
unfolding ipc_bench.Common.Arguments.check_flag ipc_bench.Common.Process.Names.child_name
    ipc_bench.Common.Process.find_build_path
setup_parent_lem_example =
    setup_parent_lem kernel kernel-IsKernel 3 argv (omega arith) (omega arith) action process
      (b'c' ∷ []) path (codes "fifo") refl (omega arith) (omega arith)
