-- ===== src/Window/System/Safety.antt =====
-- What holds of a client and a server that run together.
use ipc_bench.Prelude.{ℕ, ◌+◌, ◌-◌, ◌≤◌, ◌≡◌, arith}
use ipc_bench.Common.Arguments.{Arguments}
use ipc_bench.Window.{Turn, leave, max_bytes, max_outstanding_bytes}
use ipc_bench.Window.Sizes.{IsSmall}
use ipc_bench.Window.Laws.{IsLawfulTurn}
use ipc_bench.Window.Server.{Server, server_round, to_read, read_phase}
use ipc_bench.Window.Server.Bytes.{
  KeepsBytes, read_phase-bytes, to_read-eq-window, server_round-done,
}
use ipc_bench.Window.System.{System, Reach, Reach-Inv}

module _ (note_read : ℕ → Server → Server) (keeps : KeepsBytes note_read) (args : Arguments)
    (small : IsSmall args) where
  -- In every reachable state of a client and a server with the same small arguments and lawful
  -- transfers, the server asks its next read for exactly `bufferSize` bytes, and if that read
  -- delivers only bytes that the client wrote, the write after it takes no more than `bufferSize`
  -- bytes from the buffer: the heap is not overrun on either side.
  pub server_stays_in_buffer :
      {s : System}
      → Reach note_read args s
      → (t : Turn) → IsLawfulTurn t
      → (read_phase note_read args t s.server).total_bytes_read ≤ s.client.total_bytes_written
      → (to_read args s.server ≡ max_outstanding_bytes args)
        × ((read_phase note_read args t s.server).outstanding_bytes ≤ max_outstanding_bytes args)
  server_stays_in_buffer {s} r t lawful fits =
      let inv = Reach-Inv note_read keeps args small r in
      let b = inv.client_balanced in
      let h = inv.requests in
      let k = inv.replies in
      let e = inv.server_balance in
      let w : s.server.outstanding_bytes ≤ max_outstanding_bytes args = omega arith in
      let p = read_phase-bytes note_read keeps args small t lawful s.server w (omega arith) in
      (to_read-eq-window note_read keeps args small t lawful s.server w, omega arith)

  -- In every reachable state of a client and a server with the same small arguments and lawful
  -- transfers, each byte in flight is in one place: on its way to the server, held by the server,
  -- or on its way back.
  pub bytes_in_flight :
      {s : System}
      → Reach note_read args s
      → s.client.outstanding_bytes
        ≡ (s.client.total_bytes_written - s.server.total_bytes_read)
          + s.server.outstanding_bytes
          + (s.server.total_bytes_written - s.client.total_bytes_read)
  bytes_in_flight {s} r =
      let inv = Reach-Inv note_read keeps args small r in
      let b = inv.client_balanced in
      let h = inv.requests in let k = inv.replies in let e = inv.server_balance in omega arith

  -- In every reachable state of a client and a server with the same small arguments and lawful
  -- transfers in which the client has read all that it waits for, the server leaves its loop at
  -- the next test.
  pub server_leaves_with_client :
      {s : System}
      → Reach note_read args s
      → max_bytes args ≤ s.client.total_bytes_read
      → (t : Turn) → server_round note_read args t s.server ≡ leave s.server
  server_leaves_with_client {s} r finished t =
      let inv = Reach-Inv note_read keeps args small r in
      let b = inv.client_balanced in
      server_round-done note_read args t s.server
        (omega (arith, inv.requests, inv.server_balance, small.no_wrap))
        (omega (arith, small.no_wrap)) (omega (arith, inv.replies))
