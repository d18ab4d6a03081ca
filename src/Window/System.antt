-- ===== src/Window/System.antt =====
-- A client and a server with the same arguments, as `start_children` starts them, over two byte
-- streams. A round reads before it writes, so an interleaving of the calls of the two processes is
-- one of whole rounds, in the order in which their reads end.
pub mod Progress
pub mod Safety
use ipc_bench.Prelude.{ℕ, ◌+◌, ◌-◌, ◌*◌, ◌^◌, ◌≤◌, ◌<◌, ◌≡◌, ◌⊎◌, List, [], ◌∷◌, arith}
use ipc_bench.Common.Arguments.{Arguments}
use ipc_bench.Common.Benchmarks.{Benchmarks}
use ipc_bench.Window.{Turn, again}
use ipc_bench.Window.Sizes.{IsSmall}
use ipc_bench.Window.Laws.{IsLawfulTurn}
use ipc_bench.Window.Client
use ipc_bench.Window.Client.{Client, client_round}
use ipc_bench.Window.Client.Bytes.{IsBalanced, client_round-again}
use ipc_bench.Window.Server
use ipc_bench.Window.Server.{Server, server_round}
use ipc_bench.Window.Server.Bytes.{KeepsBytes, server_round-again}

pub record System : Type 0 where
  pub client : Client
  pub server : Server

-- The premise on the bytes read is what a stream guarantees: it delivers only what was written.
pub data Step (note_read : ℕ → Server → Server) (args : Arguments) (s : System)
    : System → Type 0 where
  client_turn :
      (t : Turn) {c : Client}
      → IsLawfulTurn t
      → client_round args t s.client ≡ again c
      → c.total_bytes_read ≤ s.server.total_bytes_written
      → Step note_read args s (record s { client = c })
  server_turn :
      (t : Turn) {v : Server}
      → IsLawfulTurn t
      → server_round note_read args t s.server ≡ again v
      → v.total_bytes_read ≤ s.client.total_bytes_written
      → Step note_read args s (record s { server = v })

pub data Reach (note_read : ℕ → Server → Server) (args : Arguments) : System → Type 0 where
  begin :
      (times : List ℕ) (bench : Benchmarks)
      → Reach note_read args (record { client = Client.start times; server = Server.start bench })
  next :
      {s s' : System} → Reach note_read args s → Step note_read args s s' → Reach note_read args s'

-- Requests travel to the server, wait there, and travel back.
pub record Inv (args : Arguments) (s : System) : Type 0 where
  pub client_balanced : IsBalanced args s.client
  pub server_balance :
      s.server.outstanding_bytes + s.server.total_bytes_written ≡ s.server.total_bytes_read
  pub requests : s.server.total_bytes_read ≤ s.client.total_bytes_written
  pub replies : s.client.total_bytes_read ≤ s.server.total_bytes_written

module _ (note_read : ℕ → Server → Server) (keeps : KeepsBytes note_read) (args : Arguments)
    (small : IsSmall args) where
  Step-Inv : {s s' : System} → Step note_read args s s' → Inv args s → Inv args s'
  Step-Inv {s} (client_turn t lawful e fits) inv =
      let h = client_round-again args small t lawful e inv.client_balanced in
      record {
        client_balanced = h.0;
        server_balance = inv.server_balance;
        requests = omega (arith, inv.requests, h.1);
        replies = fits;
      }
  Step-Inv {s} (server_turn t lawful e fits) inv =
      let h =
        server_round-again note_read keeps args small t lawful s.server e inv.server_balance
          (omega arith) (omega arith) in
      record {
        client_balanced = inv.client_balanced;
        server_balance = h.0;
        requests = fits;
        replies = omega (arith, inv.replies, h.1);
      }

  pub Reach-Inv : {s : System} → Reach note_read args s → Inv args s
  Reach-Inv (begin times bench) = omega arith
  Reach-Inv (next r st) = Step-Inv st (Reach-Inv r)
