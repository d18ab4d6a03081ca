-- ===== src/Domain/Listen/Laws.antt =====
-- What the Unix domain server has called before it calls the client.
use ipc_bench.Prelude.{
  ℕ, ◌≡◌, refl, Bool, true, false, Option, none, some, [], ◌∷◌, inl, inr, arith, Option-cases,
}
use ipc_bench.Common.Sockets.{set_socket_both_buffer_sizes}
use ipc_bench.Setup.{
  Call, Descriptor, Kernel, History, M, Result, returned, exited, waiting, ◌>>=◌, bind_result, exit,
  call, retry, is_empty, finish_setup, socket_fifo, read_write, open_file, write_byte, socket,
  remove_path, bind, listen, accept, close,
}
use ipc_bench.Setup.Order.{
  Makes, pure-Makes, exit-Makes, call-Makes, bind-Makes, option-Makes, test-Makes,
  with_options-Makes, retry-Makes, finish_setup-Makes, Guarded, free-Guarded, Makes-Guarded,
  Happened, Happened-cons, retry_lem,
}
use ipc_bench.Domain.Connect.{open_fifo}
use ipc_bench.Domain.Connect as Connect
use ipc_bench.Domain.Connect.Laws.{ByteRead, is_connect, domain_connects_after_byte}
use ipc_bench.Domain.Listen.{setup_socket, create_socket, accept_connection, main}

-- `listen` succeeded on a socket that was bound just before.
abbrev pub Listening : Kernel → History → Call → Type 0
Listening kernel h c =
    (n bound heard : ℕ) × (before : History) × (c ≡ listen (some n))
    × (h ≡ bind (some n) 0 ∷ before)
    × (kernel.answer before (bind (some n) 0) ≡ some bound)
    × (kernel.answer h c ≡ some heard)

abbrev pub is_write : Call → Bool
is_write (write_byte fd) = true
is_write _ = false

abbrev Free : Call → Type 0
Free c = is_write c ≡ false

create_socket-Makes : (kernel : Kernel) → Makes Free (create_socket kernel)
unfolding create_socket setup_socket
create_socket-Makes kernel = bind-Makes (call-Makes kernel (socket 0) refl) (λ fd.
    option-Makes fd exit-Makes (λ n.
      bind-Makes
        (bind-Makes (call-Makes kernel remove_path refl) (λ _.
          bind-Makes (call-Makes kernel (bind (some n) 0) refl) (λ code.
            option-Makes code exit-Makes (λ _.
              bind-Makes (call-Makes kernel (listen (some n)) refl)
                (λ code'. option-Makes code' exit-Makes (λ _. pure-Makes tt))))))
        (λ _. pure-Makes (some n))))

accept_connection-Makes :
    (kernel : Kernel) (listening : ℕ) → Makes Free (accept_connection kernel listening)
unfolding accept_connection
accept_connection-Makes kernel listening =
    bind-Makes (call-Makes kernel (accept (some listening)) refl) (λ connection.
      option-Makes connection (pure-Makes none) (λ n.
        bind-Makes (with_options-Makes kernel (some n) set_socket_both_buffer_sizes (λ _. refl))
          (λ _.
            bind-Makes (call-Makes kernel (close (some listening)) refl)
              (λ _. pure-Makes (some n)))))

create_socket-Happened :
    (kernel : Kernel) (h : History) (n : ℕ)
    → (create_socket kernel h).0 ≡ returned (some n)
    → Happened (Listening kernel) (create_socket kernel h).1
unfolding create_socket setup_socket
create_socket-Happened kernel h n e =
    let before = remove_path ∷ socket 0 ∷ h in
    let h' = bind (some n) 0 ∷ before in
    elim (Option-cases (kernel.answer before (bind (some n) 0))) [
      | inl e' ↦ absurd (let f : ⊥ = ground arith in f)
      | inr (b, eb) ↦ elim (Option-cases (kernel.answer h' (listen (some n)))) [
        | inl e' ↦ absurd (let f : ⊥ = ground arith in f)
        | inr (l, el) ↦
            ([], listen (some n), h', ground arith, (n, b, l, before, refl, refl, eb, el))
      ]
    ]

-- The main function behind the first loop.
call_client : Kernel → ℕ → ℕ → M ℕ
call_client kernel rounds listening = do
  fifo ← open_fifo kernel
  count ← call kernel (write_byte fifo)
  elim (is_empty count) [
    | true ↦ exit
    | false ↦ do
      connection ← retry rounds (accept_connection kernel listening)
      finish_setup kernel connection
  ]

-- Before every byte that the server writes to the pipe, a socket was bound to the path and then set to
-- listen, both with success: the client that waits for the byte finds a server that listens.
pub domain_writes_after_listen :
    (kernel : Kernel) (rounds : ℕ)
    → Guarded is_write (Happened (Listening kernel)) (main kernel rounds []).1
unfolding main call_client
domain_writes_after_listen kernel rounds =
    listened created.0 created.1
      (λ n e. retry_lem P (create_socket kernel) (create_socket-Happened kernel) rounds [] n e)
      (Makes-Guarded is_write P (retry-Makes rounds (create_socket-Makes kernel)) [] tt)
  where
    P : History → Type 0
    P = Happened (Listening kernel)

    created : Result ℕ × History
    created = retry rounds (create_socket kernel) []

    served :
        (n : ℕ)
        → Makes Free (do
          connection ← retry rounds (accept_connection kernel n)
          finish_setup kernel connection)
    served n =
        bind-Makes (retry-Makes rounds (accept_connection-Makes kernel n))
          (λ c. finish_setup-Makes kernel c refl)

    listened :
        (r : Result ℕ) (h : History)
        → ((n : ℕ) → r ≡ returned n → P h)
        → Guarded is_write P h
        → Guarded is_write P (bind_result (r, h) (call_client kernel rounds)).1
    listened exited h p g = g
    listened waiting h p g = g
    listened (returned n) h p g =
        Makes-Guarded is_write P (test-Makes (is_empty count) exit-Makes (served n)) base (
          (λ _. Happened-cons (Listening kernel) (open_file socket_fifo read_write) h (p n refl)),
          free-Guarded is_write P (open_file socket_fifo read_write) h refl g,
        )
      where
        fifo : Descriptor
        fifo = kernel.answer h (open_file socket_fifo read_write)

        base : History
        base = write_byte fifo ∷ open_file socket_fifo read_write ∷ h

        count : Option ℕ
        count = kernel.answer (open_file socket_fifo read_write ∷ h) (write_byte fifo)

-- Before every byte that the server writes to the pipe, a socket was bound to the path and then set to
-- listen, both with success; before every `connect` of the client its read of the pipe did not fail.
pub domain_rendezvous :
    (server client : Kernel) (rounds rounds' : ℕ)
    → Guarded is_write (Happened (Listening server)) (main server rounds []).1
      × Guarded is_connect (Happened (ByteRead client)) (Connect.main client rounds' []).1
domain_rendezvous server client rounds rounds' =
    (domain_writes_after_listen server rounds, domain_connects_after_byte client rounds')
