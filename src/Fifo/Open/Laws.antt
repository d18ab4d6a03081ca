-- ===== src/Fifo/Open/Laws.antt =====
-- The order in which the two programs open the pipes, and which descriptors they get. An `open` of a
-- named pipe waits for the other end, so that two programs that differ in the order would wait for
-- ever.
use ipc_bench.Prelude.{ℕ, ◌≡◌, sym, ap, ◌∙◌, ◌⊎◌, some, List, [], ◌∷◌, arith}
use ipc_bench.Setup.{
  History, Kernel, returned, File, request, response, Mode, read_only, write_only, read_write,
  create, open_file, set_pipe_size,
}
use ipc_bench.Fifo.Open.{open_fifo, client_main, server_main}

-- The opens of a history, the last one first.
abbrev pub opens : History → List (File × Mode)
opens [] = []
opens (open_file file mode ∷ h) = let rest = opens h in (file, mode) ∷ rest
opens (_ ∷ h) = opens h

-- The mode that the other end needs.
abbrev pub other_end : Mode → Mode
other_end read_only = write_only
other_end write_only = read_only
other_end read_write = read_write
other_end create = create

abbrev pub other_ends : List (File × Mode) → List (File × Mode)
other_ends [] = []
other_ends ((file, mode) ∷ l) = (file, other_end mode) ∷ other_ends l

-- The order that both programs keep: the responses first. A program that fails stops on the way.
abbrev pub InOrder : Mode → Mode → List (File × Mode) → Type 0
InOrder first second l =
    (l ≡ (response, first) ∷ []) ⊎ (l ≡ (request, second) ∷ (response, first) ∷ [])

client_main-InOrder :
    (kernel : Kernel) → InOrder read_only write_only (opens (client_main kernel []).1)
unfolding client_main open_fifo
client_main-InOrder kernel = ground arith

server_main-InOrder :
    (kernel : Kernel) → InOrder write_only read_only (opens (server_main kernel []).1)
unfolding server_main open_fifo
server_main-InOrder kernel = ground arith

client_main-opens :
    (kernel : Kernel) (read write : ℕ)
    → (client_main kernel []).0 ≡ returned (read, write)
    → (opens (client_main kernel []).1 ≡ (request, write_only) ∷ (response, read_only) ∷ [])
      × (kernel.answer [] (open_file response read_only) ≡ some read)
      × (kernel.answer
            (set_pipe_size read 102400 ∷ open_file response read_only ∷ [])
            (open_file request write_only)
          ≡ some write)
unfolding client_main open_fifo
client_main-opens kernel read write e = (ground arith, ground arith, ground arith)

server_main-opens :
    (kernel : Kernel) (read write : ℕ)
    → (server_main kernel []).0 ≡ returned (read, write)
    → (opens (server_main kernel []).1 ≡ (request, read_only) ∷ (response, write_only) ∷ [])
      × (kernel.answer [] (open_file response write_only) ≡ some write)
      × (kernel.answer
            (set_pipe_size write 1048576 ∷ open_file response write_only ∷ [])
            (open_file request read_only)
          ≡ some read)
unfolding server_main open_fifo
server_main-opens kernel read write e = (ground arith, ground arith, ground arith)

-- Both programs open the pipe of the responses first and that of the requests second, also where they
-- fail on the way; when both come through, each open of the one meets the other end at the same place
-- of the other, and each gets the descriptor of its reading end first and that of its writing end
-- second: the client the reading end of the responses and the writing end of the requests, the server
-- the reading end of the requests and the writing end of the responses.
pub fifo_opens_meet :
    (client server : Kernel)
    → let c = client_main client [] in
      let s = server_main server [] in
      InOrder read_only write_only (opens c.1)
      × InOrder write_only read_only (opens s.1)
      × ((r w r' w' : ℕ)
          → c.0 ≡ returned (r, w)
          → s.0 ≡ returned (r', w')
          → (opens c.1 ≡ other_ends (opens s.1))
            × (client.answer [] (open_file response read_only) ≡ some r)
            × (client.answer
                  (set_pipe_size r 102400 ∷ open_file response read_only ∷ [])
                  (open_file request write_only)
                ≡ some w)
            × (server.answer [] (open_file response write_only) ≡ some w')
            × (server.answer
                  (set_pipe_size w' 1048576 ∷ open_file response write_only ∷ [])
                  (open_file request read_only)
                ≡ some r'))
fifo_opens_meet client server = (
  client_main-InOrder client,
  server_main-InOrder server,
  λ r w r' w' ec es.
      let (oc, rc, wc) = client_main-opens client r w ec in
      let (os, ws, rs) = server_main-opens server r' w' es in
      (oc ∙ sym (ap other_ends os), rc, wc, ws, rs),
)
