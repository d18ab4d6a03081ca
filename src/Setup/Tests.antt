-- ===== src/Setup/Tests.antt =====
-- A kernel on which all calls succeed, one on which `bind` and `listen` fail, and the theorems on the
-- mains at them.
use ipc_bench.Prelude.{ℕ, ◌≡◌, ◌⊎◌, refl, ap, Option, none, some, [], ◌∷◌, arith}
use ipc_bench.Setup.{
  Call, History, Kernel, Result, returned, exited, open_file, read_byte, write_byte, socket, accept,
  option, bind, listen, connect, reuse_address, File, Mode, response, request, read_only,
  write_only, set_pipe_size,
}
use ipc_bench.Setup.Order.{Guarded, Happened}
use ipc_bench.Tcp.Connect as TcpConnect
use ipc_bench.Tcp.Connect.Laws as TcpCalls
use ipc_bench.Tcp.Connect.Laws.{IsKernel, IsConnected, create_socket-IsConnected}
use ipc_bench.Tcp.Listen as TcpListen
use ipc_bench.Tcp.Listen.Laws as TcpListenCalls
use ipc_bench.Tcp.Listen.Laws.{create_socket-ignores_bind, tcp_rendezvous}
use ipc_bench.Domain.Connect as DomainConnect
use ipc_bench.Domain.Connect.Laws as DomainCalls
use ipc_bench.Domain.Listen as DomainListen
use ipc_bench.Domain.Listen.Laws as DomainListenCalls
use ipc_bench.Domain.Listen.Laws.{domain_rendezvous}
use ipc_bench.Fifo.Open.{client_main, server_main}
use ipc_bench.Fifo.Open.Laws.{opens, other_ends, InOrder, fifo_opens_meet}

abbrev willing_answer : History → Call → Option ℕ
willing_answer h (open_file file mode) = some 3
willing_answer h (read_byte fd) = some 1
willing_answer h (write_byte fd) = some 1
willing_answer h (socket address) = some 4
willing_answer h (accept fd) = some 5
willing_answer h (option none r) = none
willing_answer h _ = some 0

abbrev willing : Kernel
willing = record { answer = willing_answer; addresses = λ h. some (7 ∷ []) }

willing-IsKernel : IsKernel willing
willing-IsKernel = record { refuses = λ h r. refl; fresh = λ h address e. ground arith }

abbrev busy_answer : History → Call → Option ℕ
busy_answer h (bind fd address) = none
busy_answer h (listen fd) = none
busy_answer h c = willing_answer h c

-- The port is taken.
abbrev busy : Kernel
busy = record { answer = busy_answer; addresses = λ h. some (7 ∷ []) }

create_socket-IsConnected_example :
    let run = TcpConnect.create_socket willing (some 9) [] in
    (run.0 ≡ exited) ⊎ ((n : ℕ) × (run.0 ≡ returned (some n)) × IsConnected willing [] n run.1)
create_socket-IsConnected_example = create_socket-IsConnected willing willing-IsKernel (some 9) []

-- A server whose `bind` and `listen` fail passes its socket on all the same.
busy_server_goes_on : (TcpListen.create_socket busy (some 9) []).0 ≡ returned (some 4)
busy_server_goes_on =
    ap (λ r. r.0) (create_socket-ignores_bind busy (some 9) [] 7 4 0 [] refl refl refl refl refl)

tcp_rendezvous_example :
    Guarded TcpListenCalls.is_write
      (Happened (TcpListenCalls.Listening willing))
      (TcpListen.main willing (some 9) 2 []).1
    × Guarded TcpCalls.is_connect
        (Happened (TcpCalls.ByteRead willing))
        (TcpConnect.main willing (some 8) 2 []).1
tcp_rendezvous_example = tcp_rendezvous willing willing (some 9) (some 8) 2 2

domain_rendezvous_example :
    Guarded DomainListenCalls.is_write
      (Happened (DomainListenCalls.Listening willing))
      (DomainListen.main willing 2 []).1
    × Guarded DomainCalls.is_connect
        (Happened (DomainCalls.ByteRead willing))
        (DomainConnect.main willing 2 []).1
domain_rendezvous_example = domain_rendezvous willing willing 2 2

fifo_opens_meet_example :
    let c = client_main willing [] in
    let s = server_main willing [] in
    InOrder read_only write_only (opens c.1)
    × InOrder write_only read_only (opens s.1)
    × ((r w r' w' : ℕ)
        → c.0 ≡ returned (r, w)
        → s.0 ≡ returned (r', w')
        → (opens c.1 ≡ other_ends (opens s.1))
          × (willing_answer [] (open_file response read_only) ≡ some r)
          × (willing_answer
                (set_pipe_size r 102400 ∷ open_file response read_only ∷ [])
                (open_file request write_only)
              ≡ some w)
          × (willing_answer [] (open_file response write_only) ≡ some w')
          × (willing_answer
                (set_pipe_size w' 1048576 ∷ open_file response write_only ∷ [])
                (open_file request read_only)
              ≡ some r'))
fifo_opens_meet_example = fifo_opens_meet willing willing

-- On the willing kernel the mains return the descriptors of their connections.
mains_return :
    ((TcpConnect.main willing (some 9) 1 []).0 ≡ returned 4)
    × ((TcpListen.main willing (some 9) 1 []).0 ≡ returned 5)
    × ((DomainConnect.main willing 1 []).0 ≡ returned 4)
    × ((DomainListen.main willing 1 []).0 ≡ returned 5)
unfolding TcpConnect.main TcpListen.main DomainConnect.main DomainListen.main ipc_bench.Setup.retry
    ipc_bench.Common.Sockets.set_socket_both_buffer_sizes ipc_bench.Common.Sockets.set_io_flag
mains_return = (refl, refl, refl, refl)
