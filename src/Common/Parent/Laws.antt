-- ===== src/Common/Parent/Laws.antt =====
-- What the children of the parent start with.
use ipc_bench.Prelude.{
  ℕ, arith, length, ltb, ◌<◌, ◌≡◌, ◌⊎◌, inl, inr, refl, Option-cases, Bool-cases, true, false,
  Option, none, some, List, [], ◌∷◌,
}
use ipc_bench.Common.Arguments.{check_flag}
use ipc_bench.Common.Process.Arguments.{slot, child_arguments_lem}
use ipc_bench.Common.Process.Names.{server_name, client_name, name_size}
use ipc_bench.Common.Signals.{default_action, signal_handler, Process, SigAction}
use ipc_bench.Common.Signals.Laws.{setup_parent_signals_lem}
use ipc_bench.Common.Parent.{
  Kernel, Text, Argv, Child, runs, gave_up, Family, start_process, start_child, start_children,
  setup_parent, pid_of,
}

-- execve(2): a signal that was caught has its default action again, and what is blocked stays.
pub record IsKernel (kernel : Kernel) : Type 0 where
  pub resets_usr1 :
      (p : Process)
      → p.handlers.usr1 ≡ signal_handler
      → (kernel.exec_signals p).handlers.usr1 ≡ default_action
  pub resets_usr2 :
      (p : Process)
      → p.handlers.usr2 ≡ signal_handler
      → (kernel.exec_signals p).handlers.usr2 ≡ default_action
  pub keeps_blocked : (p : Process) → (kernel.exec_signals p).blocked ≡ p.blocked

-- A vector with a name, the parent's arguments behind its first, and NULL after them.
abbrev pub HasArguments : Text → ℕ → Argv → Argv → Type 0
HasArguments name argc argv l =
    (slot l 0 ≡ some name)
    × ((j : ℕ) → 0 < j → j < argc → slot l j ≡ slot argv j)
    × (slot l argc ≡ none)

-- A child with a name, the parent's arguments behind its own name, and the signals of a new program:
-- no handler, and blocked what the parent was started with.
abbrev pub Starts : Text → ℕ → Argv → Process → Child → Type 0
Starts name argc argv before child =
    (l : Argv) × (p : Process) × (child ≡ runs l p)
    × HasArguments name argc argv l
    × (p.handlers.usr1 ≡ default_action)
    × (p.handlers.usr2 ≡ default_action)
    × (p.blocked ≡ before.blocked)

-- What comes of a fork: none, a child that gave up because its `setpgid` failed or its `execv` with its
-- name and the parent's arguments, or one that starts.
abbrev pub Forked : Kernel → ℕ → Text → ℕ → Argv → Process → Option (ℕ × Child) → Type 0
Forked kernel nth name argc argv before result =
    ((kernel.fork nth ≡ none) × (result ≡ none))
    ⊎ ((pid : ℕ) × (child : Child) × (kernel.fork nth ≡ some pid)
        × (result ≡ some (pid, child))
        × (((child ≡ gave_up)
              × ((kernel.setpgid nth ≡ false)
                  ⊎ ((kernel.setpgid nth ≡ true)
                      × ((l : Argv) × HasArguments name argc argv l × (kernel.execv l ≡ false)))))
            ⊎ ((kernel.setpgid nth ≡ true) × Starts name argc argv before child)))

module _ (kernel : Kernel) (law : IsKernel kernel) (argc : ℕ) (argv : Argv)
    (some_arguments : 0 < argc) (few : argc < 8) where
  -- The signals behind `setup_parent_signals`.
  abbrev handled : Process → Process
  handled before = record {
    handlers = record { usr1 = signal_handler; usr2 = signal_handler };
    blocked = before.blocked;
  }

  start_process_lem :
      (nth : ℕ) (p : Process) (arguments : Argv)
      → ((kernel.fork nth ≡ none) × (start_process kernel nth p arguments ≡ none))
        ⊎ ((pid : ℕ) × (child : Child) × (kernel.fork nth ≡ some pid)
            × (start_process kernel nth p arguments ≡ some (pid, child))
            × (((child ≡ gave_up)
                  × ((kernel.setpgid nth ≡ false)
                      ⊎ ((kernel.setpgid nth ≡ true) × (kernel.execv arguments ≡ false))))
                ⊎ ((kernel.setpgid nth ≡ true) × (child ≡ runs arguments (kernel.exec_signals p)))))
  unfolding start_process
  start_process_lem nth p arguments = elim (Option-cases (kernel.fork nth)) [
    | inl e ↦ inl (e, rw (start_process, e) refl)
    | inr (pid, e) ↦ elim (Bool-cases (kernel.setpgid nth)) [
      | inr e' ↦ inr (pid, gave_up, e, rw (start_process, e, e') refl, inl (refl, inl e'))
      | inl e' ↦ elim (Bool-cases (kernel.execv arguments)) [
        | inr e'' ↦
            inr (pid, gave_up, e, rw (start_process, e, e', e'') refl, inl (refl, inr (e', e'')))
        | inl e'' ↦ inr (
          pid,
          runs arguments (kernel.exec_signals p),
          e,
          rw (start_process, e, e', e'') refl,
          inr (e', refl),
        )
      ]
    ]
  ]

  start_child-Forked :
      (nth : ℕ) (before : Process) (name : Text)
      → (result : Option (ℕ × Child)) × (start_child kernel nth (handled before) name argc argv
          ≡ some result)
        × Forked kernel nth name argc argv before result
  unfolding start_child
  start_child-Forked nth before name =
      let (l, e, long, first, rest, last) = child_arguments_lem name argc argv some_arguments few in
      let p = kernel.exec_signals (handled before) in
      let usr1 = law.resets_usr1 (handled before) refl in
      let usr2 = law.resets_usr2 (handled before) refl in
      (
        start_process kernel nth (handled before) l,
        rw e refl,
        elim (start_process_lem nth (handled before) l) [
          | inl none_forked ↦ inl none_forked
          | inr (pid, child, f, r, inl (g, inl no_group)) ↦
              inr (pid, child, f, r, inl (g, inl no_group))
          | inr (pid, child, f, r, inl (g, inr (group, failed))) ↦
              inr (pid, child, f, r, inl (g, inr (group, (l, (first, rest, last), failed))))
          | inr (pid, child, f, r, inr (group, c)) ↦ inr (
            pid,
            child,
            f,
            r,
            inr (
              group,
              (l, p, c, (first, rest, last), usr1, usr2, law.keeps_blocked (handled before)),
            ),
          )
        ],
      )

  -- Without the option `help`, with both calls of `sigaction` successful, one to seven arguments and
  -- names of the children that fit into their arrays, the parent starts the server and then the client,
  -- and waits for both in this order, whatever `fork`, `setpgid` and `execv` answer. A child for which
  -- they succeed gets its own name, the parent's arguments behind it, and NULL after them; SIGUSR1 and
  -- SIGUSR2 have their default action in it again, and are blocked if they were before the parent's
  -- setup. A child gives up if its `setpgid` fails, or its `execv` with just these arguments.
  pub setup_parent_lem :
      (action : SigAction) (before : Process) (options : List ℕ) (path name : Text)
      → check_flag b'h' options ≡ false
      → length (server_name path name) < name_size
      → length (client_name path name) < name_size
      → (family : Family) × (setup_parent kernel
            (record { usr1 = true; usr2 = true })
            (action, before)
            options
            path
            name
            argc
            argv
          ≡ some family)
        × Forked kernel 0 (server_name path name) argc argv before family.server
        × Forked kernel 1 (client_name path name) argc argv before family.client
        × (family.waits ≡ pid_of family.server ∷ pid_of family.client ∷ [])
  unfolding setup_parent start_children
  setup_parent_lem action before options path name no_help fits fits' =
      let room : ltb (length (server_name path name)) name_size ≡ true = ground arith in
      let room' : ltb (length (client_name path name)) name_size ≡ true = ground arith in
      let (server, e, s) = start_child-Forked 0 before (server_name path name) in
      let (client, e', c) = start_child-Forked 1 before (client_name path name) in
      let signals = setup_parent_signals_lem (record { usr1 = true; usr2 = true }) action before in
      (
        record { server = server; client = client; waits = pid_of server ∷ pid_of client ∷ [] },
        rw (no_help, signals, room, room', e, e') refl,
        s,
        c,
        refl,
      )
