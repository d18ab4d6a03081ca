-- ===== src/Zeromq/Main/Laws.antt =====
-- The contexts and sockets of ZeroMQ that the mains open and close, and the endpoints where they meet.
use ipc_bench.Prelude.{
  ℕ, ◌≡◌, ◌⊎◌, Bool, true, false, Option, none, some, List, [], ◌∷◌, ◌==◌, if◌then◌else◌, arith,
  All,
}
use ipc_bench.Common.Arguments.{check_flag}
use ipc_bench.Setup.{
  Kernel, History, Result, returned, exited, waiting, Endpoint, any_interface, local_host, ipc_file,
  Zmq, new_context, new_socket, bind_socket, connect_socket, close_socket, destroy_context, zeromq,
}
use ipc_bench.Zeromq.Main.{tcp, server_address, client_address, server_main, client_main}

-- The contexts and the sockets that are open.
pub record Open : Type 0 where
  pub contexts : List ℕ
  pub sockets : List ℕ

abbrev pub insert : Option ℕ → List ℕ → List ℕ
insert none l = l
insert (some n) l = n ∷ l

abbrev pub remove : ℕ → List ℕ → List ℕ
remove n [] = []
remove n (m ∷ l) = let rest = remove n l in if m == n then l else m ∷ rest

abbrev pub left_open : Kernel → History → Open
left_open kernel [] = record { contexts = []; sockets = [] }
left_open kernel (zeromq z ∷ h) =
    let o = left_open kernel h in
    elim z [
      | new_context ↦ record o {
        contexts = insert (kernel.answer h (zeromq new_context)) o.contexts;
      }
      | new_socket c kind ↦ record o {
        sockets = insert (kernel.answer h (zeromq (new_socket c kind))) o.sockets;
      }
      | bind_socket s e ↦ o
      | connect_socket s e ↦ o
      | close_socket s ↦ record o { sockets = remove s o.sockets }
      | destroy_context c ↦ record o { contexts = remove c o.contexts }
    ]
left_open kernel (_ ∷ h) = left_open kernel h

-- A call on the only context or socket that is open. A context is destroyed after its sockets are
-- closed, since zmq_ctx_destroy(3) waits for that.
abbrev pub IsAllowed : Zmq → Open → Type 0
IsAllowed new_context o = o.contexts ≡ []
IsAllowed (new_socket c kind) o = (o.contexts ≡ c ∷ []) × (o.sockets ≡ [])
IsAllowed (bind_socket s e) o = o.sockets ≡ s ∷ []
IsAllowed (connect_socket s e) o = o.sockets ≡ s ∷ []
IsAllowed (close_socket s) o = o.sockets ≡ s ∷ []
IsAllowed (destroy_context c) o = (o.contexts ≡ c ∷ []) × (o.sockets ≡ [])

abbrev pub IsOrderly : Kernel → History → Type 0
IsOrderly kernel [] = Unit
IsOrderly kernel (zeromq z ∷ h) = IsAllowed z (left_open kernel h) × IsOrderly kernel h
IsOrderly kernel (_ ∷ h) = IsOrderly kernel h

-- Where a server listens and where a client connects to.
abbrev pub bound : History → List Endpoint
bound [] = []
bound (zeromq (bind_socket s e) ∷ h) = let rest = bound h in e ∷ rest
bound (_ ∷ h) = bound h

abbrev pub connected : History → List Endpoint
connected [] = []
connected (zeromq (connect_socket s e) ∷ h) = let rest = connected h in e ∷ rest
connected (_ ∷ h) = connected h

-- A client that connects to the first reaches a server that listens at the second.
abbrev pub reaches : Endpoint → Endpoint → Bool
reaches (local_host port) (any_interface port') = port == port'
reaches ipc_file ipc_file = true
reaches _ _ = false

abbrev pub AllMeet : (listening connecting : List Endpoint) → Type 0
AllMeet listening connecting = All (λ e. All (λ e'. reaches e' e ≡ true) connecting) listening

-- The last call failed.
abbrev pub Failed : Kernel → History → Type 0
Failed kernel [] = ⊥
Failed kernel (c ∷ h) = kernel.answer h c ≡ none

-- What a program that returns leaves open.
abbrev pub IsClean : Kernel → Result (Unit {0}) → History → Type 0
IsClean kernel (returned _) h = left_open kernel h ≡ record { contexts = []; sockets = [] }
IsClean kernel exited h = Unit
IsClean kernel waiting h = Unit

-- A run that ends as `communicate` does, with a socket at the endpoint, or at a call that fails.
abbrev pub IsMain :
    Kernel
    → (ends : Result (Unit {0})) → (History → List Endpoint)
    → Endpoint
    → Result (Unit {0}) × History
    → Type 0
IsMain kernel ends used e (result, h) =
    IsOrderly kernel h
    × IsClean kernel result h
    × (((result ≡ ends) × (used h ≡ e ∷ [])) ⊎ ((result ≡ exited) × Failed kernel h))

module _ (options : List ℕ) where
  server_main-IsMain :
      (kernel : Kernel) (ends : Result (Unit {0}))
      → IsMain kernel ends bound
          (server_address (check_flag tcp options))
          (server_main kernel options ends [])
  unfolding server_main
  server_main-IsMain kernel ends = ground arith

  client_main-IsMain :
      (kernel : Kernel) (ends : Result (Unit {0}))
      → IsMain kernel ends connected
          (client_address (check_flag tcp options))
          (client_main kernel options ends [])
  unfolding client_main
  client_main-IsMain kernel ends = ground arith

  addresses_meet :
      (server client : Kernel) (ends ends' : Result (Unit {0}))
      → AllMeet
          (bound (server_main server options ends []).1)
          (connected (client_main client options ends' []).1)
  unfolding server_main client_main
  addresses_meet server client ends ends' = ground arith

  -- Whatever the library answers, and however `communicate` ends in each: a main ends as its
  -- `communicate` does, with its socket at its endpoint, or at a call that fails. Each call is on the
  -- only context or socket that is open, the context is destroyed after the socket is closed, and a
  -- main that returns has left none open. With the same options every endpoint that the client connects
  -- to reaches every one that the server listens at, over TCP as over IPC.
  pub zeromq_mains_meet :
      (server client : Kernel) (ends ends' : Result (Unit {0}))
      → let s = server_main server options ends [] in
        let c = client_main client options ends' [] in
        IsMain server ends bound (server_address (check_flag tcp options)) s
        × IsMain client ends' connected (client_address (check_flag tcp options)) c
        × AllMeet (bound s.1) (connected c.1)
  zeromq_mains_meet server client ends ends' = (
    server_main-IsMain server ends,
    client_main-IsMain client ends',
    addresses_meet server client ends ends',
  )
