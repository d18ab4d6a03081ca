-- ===== src/Common/Parent.antt =====
-- source/common/parent.c, with start_process, start_child and start_children of
-- source/common/process.c: the parent that every transport has sets up its signals and starts the
-- server and the client.
pub mod Laws
mod Tests
use ipc_bench.Prelude.{ℕ, length, ltb, Bool, Option, none, some, List, [], ◌∷◌, if◌then◌else◌}
use ipc_bench.Common.Arguments.{check_flag}
use ipc_bench.Common.Process.{child_arguments}
use ipc_bench.Common.Process.Names.{server_name, client_name, name_size}
use ipc_bench.Common.Signals.{Both, Process, SigAction, setup_parent_signals}

-- A path or an argument, as its bytes.
abbrev pub Text : Type 0
Text = List ℕ

abbrev pub Argv : Type 0
Argv = List (Option Text)

-- `fork`, for the first (0) and the second call, with `none` for -1; whether `setpgid` of that
-- child and `execv` succeed; and what `execv` does to the signals of the process.
pub record Kernel : Type 0 where
  pub fork : ℕ → Option ℕ
  pub setpgid : ℕ → Bool
  pub execv : Argv → Bool
  pub exec_signals : Process → Process

-- What becomes of a child: a `throw`, or another program with its arguments and signals.
pub data Child : Type 0 where
  gave_up : Child
  runs : Argv → Process → Child

pub record Family : Type 0 where
  pub server : Option (ℕ × Child)
  pub client : Option (ℕ × Child)
  pub waits : List (Option ℕ)  -- the calls of `waitpid`; that for -1 is `none`

abbrev pub pid_of : Option (ℕ × Child) → Option ℕ
pid_of none = none
pid_of (some (pid, child)) = some pid

-- The parent is not told of a failure in the child, and goes on where `fork` fails.
unfoldable pub start_process : Kernel → ℕ → Process → Argv → Option (ℕ × Child)
start_process kernel nth p arguments = elim (kernel.fork nth) [
  | none ↦ none
  | some pid ↦ some (
    pid,
    if kernel.setpgid nth
        then if kernel.execv arguments then runs arguments (kernel.exec_signals p) else gave_up
        else gave_up,
  )
]

infixl 5 ◌>>=◌
abbrev ◌>>=◌ {ℓ κ} : {A : Type ℓ} {B : Type κ} → Option A → (A → Option B) → Option B
none >>= f = none
some a >>= f = f a

-- `none` when the assertion on `argc` fails.
unfoldable pub start_child : Kernel → ℕ → Process → Text → ℕ → Argv → Option (Option (ℕ × Child))
unfolding start_process
start_child kernel nth p name argc argv = do
  arguments ← child_arguments name argc argv
  some (start_process kernel nth p arguments)

-- `sprintf` into an array of 100 characters. `none` is a name that overruns it: nothing is said of what
-- the program does then.
abbrev pub write_name : Text → Option Text
write_name name = if ltb (length name) name_size then some name else none

-- `path` is that of the source file, `prefix` the name of the transport.
unfoldable pub start_children : Kernel → Process → Text → Text → ℕ → Argv → Option Family
unfolding start_child
start_children kernel p path prefix argc argv = do
  server_text ← write_name (server_name path prefix)
  client_text ← write_name (client_name path prefix)
  server ← start_child kernel 0 p server_text argc argv
  client ← start_child kernel 1 p client_text argc argv
  some (record { server = server; client = client; waits = pid_of server ∷ pid_of client ∷ [] })

-- `options` are the results of the parser of `check_flag`, and `print_usage` ends the process. `ok`
-- says which calls of `sigaction` succeed. `none` is a parent that starts no children, or overruns the
-- arrays of their names.
unfoldable pub setup_parent :
    Kernel → Both Bool → SigAction × Process → List ℕ → Text → Text → ℕ → Argv → Option Family
unfolding start_children
setup_parent kernel ok signals options path name argc argv =
    if check_flag b'h' options then none else elim (setup_parent_signals ok signals) [
      | none ↦ none
      | some (action, p) ↦ start_children kernel p path name argc argv
    ]
