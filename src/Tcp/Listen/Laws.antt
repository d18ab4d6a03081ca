-- ===== src/Tcp/Listen/Laws.antt =====
-- Which failures the TCP server notices, and what it has done when it calls the client.
use mathlib.Core.Path.{subst}
use ipc_bench.Prelude.{
  ℕ, sym, ◌≡◌, ◌⊎◌, inl, inr, Option-cases, Bool-cases, ap, refl, Bool, true, false, Option, none,
  some, List, [], ◌∷◌, arith, if◌then◌else◌,
}
use ipc_bench.Setup.{
  Call, Descriptor, Kernel, History, M, Result, returned, exited, waiting, ◌>>=◌, ◌>>◌, bind_result,
  pure, exit, call, retry, is_one, is_empty, finish_setup, write_byte, socket, reuse_address, bind,
  listen, accept, close, open_file, tcp_fifo, read_write,
}
use ipc_bench.Setup.Order.{
  Makes, pure-Makes, exit-Makes, call-Makes, bind-Makes, option-Makes, test-Makes, if-Makes,
  retry-Makes, finish_setup-Makes, Guarded, free-Guarded, Makes-Guarded, Happened, Happened-cons,
  retry_lem,
}
use ipc_bench.Tcp.Connect.{open_fifo, get_server_information}
use ipc_bench.Tcp.Connect.Laws.{setup_socket-Makes, get_server_information-Makes}
use ipc_bench.Tcp.Connect as Connect
use ipc_bench.Tcp.Connect.Laws.{ByteRead, is_connect, tcp_connects_after_byte}
use ipc_bench.Tcp.Listen.{handle_blocking, get_address, create_socket, accept_communication, main}

-- If the first address gives a socket and it can be reused, `create_socket` returns that socket
-- whatever `bind` and `listen` answer other than 1: also if both fail with -1.
pub create_socket-ignores_bind :
    (kernel : Kernel) (garbage : Descriptor) (h : History) (address n code : ℕ) (addresses : List ℕ)
    → let h₁ = socket address ∷ h in
      let h₂ = reuse_address (some n) ∷ h₁ in
      let h₃ = bind (some n) address ∷ h₂ in
      kernel.addresses h ≡ some (address ∷ addresses)
      → kernel.answer h (socket address) ≡ some n
      → kernel.answer h₁ (reuse_address (some n)) ≡ some code
      → is_one (kernel.answer h₂ (bind (some n) address)) ≡ false
      → is_one (kernel.answer h₃ (listen (some n))) ≡ false
      → create_socket kernel garbage h ≡ (returned (some n), listen (some n) ∷ h₃)
unfolding create_socket get_address handle_blocking get_server_information
create_socket-ignores_bind kernel garbage h address n code addresses e₁ e₂ e₃ e₄ e₅ =
    ground (arith, e₁, e₂, e₃, e₄, e₅)

-- The last calls made a socket, set it to be reused and asked for it to be bound; where `bind` answers
-- 1, it is closed again.
abbrev pub IsAsked : Kernel → ℕ → History → Type 0
IsAsked kernel n h =
    (address code : ℕ) × (before : History) × let made =
        reuse_address (some n) ∷ socket address ∷ before in
      (kernel.answer before (socket address) ≡ some n)
      × (kernel.answer (socket address ∷ before) (reuse_address (some n)) ≡ some code)
      × ((h ≡ bind (some n) address ∷ made)
          ⊎ ((is_one (kernel.answer made (bind (some n) address)) ≡ true)
              × (h ≡ close (some n) ∷ bind (some n) address ∷ made)))

-- `listen` on the socket that was just made and for which `bind` was called. It did not answer 1.
abbrev pub Listening : Kernel → History → Call → Type 0
Listening kernel h c =
    (n : ℕ) × (c ≡ listen (some n)) × IsAsked kernel n h × (is_one (kernel.answer h c) ≡ false)

abbrev pub is_write : Call → Bool
is_write (write_byte fd) = true
is_write _ = false

abbrev Free : Call → Type 0
Free c = is_write c ≡ false

get_address-Makes :
    (kernel : Kernel) (fd : Descriptor) (addresses : List ℕ)
    → Makes Free (get_address kernel fd addresses)
unfolding get_address handle_blocking
get_address-Makes kernel fd [] = pure-Makes (none, fd)
get_address-Makes kernel fd (a ∷ addresses) = bind-Makes (call-Makes kernel (socket a) refl) (λ fd'.
    option-Makes fd' (get_address-Makes kernel none addresses) (λ n.
      bind-Makes
        (bind-Makes (call-Makes kernel (reuse_address (some n)) refl)
          (λ code. option-Makes code exit-Makes (λ _. pure-Makes tt)))
        (λ _. bind-Makes (call-Makes kernel (bind (some n) a) refl) (λ code.
          test-Makes (is_one code)
            (bind-Makes (call-Makes kernel (close (some n)) refl)
              (λ _. pure-Makes (some a, some n)))
            (pure-Makes (some a, some n))))))

create_socket-Makes :
    (kernel : Kernel) (garbage : Descriptor) → Makes Free (create_socket kernel garbage)
unfolding create_socket
create_socket-Makes kernel garbage = bind-Makes (get_server_information-Makes kernel) (λ addresses.
    bind-Makes (get_address-Makes kernel garbage addresses) (λ found.
      option-Makes found.0 (pure-Makes none) (λ _.
        bind-Makes (call-Makes kernel (listen found.1) refl)
          (λ code. if-Makes (is_one code) (pure-Makes none) (pure-Makes found.1)))))

accept_communication-Makes :
    (kernel : Kernel) (listening : ℕ) → Makes Free (accept_communication kernel listening)
unfolding accept_communication
accept_communication-Makes kernel listening =
    bind-Makes (call-Makes kernel (accept (some listening)) refl) (λ connection.
      option-Makes connection (pure-Makes none) (λ n.
        bind-Makes (setup_socket-Makes kernel (some n) (λ _. refl)) (λ _. pure-Makes (some n))))

-- The part of `create_socket` behind `get_address`.
after_address : Kernel → Option ℕ × Descriptor → M Descriptor
after_address kernel (valid_address, fd) = elim valid_address [
  | none ↦ pure none
  | some _ ↦ do code ← call kernel (listen fd); if is_one code then pure none else pure fd
]

-- What `get_address` finds is such a socket.
IsFound : Kernel → Result (Option ℕ × Descriptor) → History → Type 0
IsFound kernel (returned (some a, fd)) h = (n : ℕ) × (fd ≡ some n) × IsAsked kernel n h
IsFound kernel _ h = Unit

get_address-IsFound :
    (kernel : Kernel) (addresses : List ℕ) (fd : Descriptor) (h : History)
    → let found = get_address kernel fd addresses h in IsFound kernel found.0 found.1
unfolding get_address handle_blocking IsFound
get_address-IsFound kernel [] fd h = tt
get_address-IsFound kernel (a ∷ addresses) fd h = elim (Option-cases (kernel.answer h (socket a))) [
  | inl e ↦ rw e (get_address-IsFound kernel addresses none (socket a ∷ h))
  | inr (n, e) ↦
      let h₁ = socket a ∷ h in
      let h₂ = reuse_address (some n) ∷ h₁ in
      elim (Option-cases (kernel.answer h₁ (reuse_address (some n)))) [
        | inl e₁ ↦ rw (e, e₁) tt
        | inr (code, e₁) ↦
            let found = get_address kernel fd (a ∷ addresses) h in
            let h₃ = bind (some n) a ∷ h₂ in
            elim (Bool-cases (is_one (kernel.answer h₂ (bind (some n) a)))) [
              | inl e₂ ↦
                  let eq : found ≡ (returned (some a, some n), close (some n) ∷ h₃) =
                    ground (arith, e, e₁, e₂) in
                  subst (λ r. IsFound kernel r.0 r.1) (sym eq)
                    (n, refl, (a, code, h, (e, e₁, inr (e₂, refl))))
              | inr e₂ ↦
                  let eq : found ≡ (returned (some a, some n), h₃) = ground (arith, e, e₁, e₂) in
                  subst (λ r. IsFound kernel r.0 r.1) (sym eq)
                    (n, refl, (a, code, h, (e, e₁, inl refl)))
            ]
      ]
]

after_address-Happened :
    (kernel : Kernel) (r : Result (Option ℕ × Descriptor)) (h : History) (n : ℕ)
    → IsFound kernel r h
    → (bind_result (r, h) (after_address kernel)).0 ≡ returned (some n)
    → Happened (Listening kernel) (bind_result (r, h) (after_address kernel)).1
unfolding after_address IsFound
after_address-Happened kernel exited h n f e = absurd (let z : ⊥ = ground arith in z)
after_address-Happened kernel waiting h n f e = absurd (let z : ⊥ = ground arith in z)
after_address-Happened kernel (returned (none, fd)) h n f e = absurd (let z : ⊥ = ground arith in z)
after_address-Happened kernel (returned (some a, fd)) h n (m, is_socket, asked) e =
    heard (is_one (kernel.answer h (listen fd))) refl e
  where
    heard :
        (b : Bool)
        → is_one (kernel.answer h (listen fd)) ≡ b
        → ((if b then pure none else pure fd) (listen fd ∷ h)).0 ≡ returned (some n)
        → Happened (Listening kernel) ((if b then pure none else pure fd) (listen fd ∷ h)).1
    heard true e' z = absurd (let f : ⊥ = ground arith in f)
    heard false e' z = ([], listen fd, h, refl, (m, ap listen is_socket, asked, e'))

create_socket-Happened :
    (kernel : Kernel) (garbage : Descriptor) (h : History) (n : ℕ)
    → (create_socket kernel garbage h).0 ≡ returned (some n)
    → Happened (Listening kernel) (create_socket kernel garbage h).1
unfolding create_socket after_address
create_socket-Happened kernel garbage h n e =
    looked (get_server_information kernel h).0 (get_server_information kernel h).1 e
  where
    looked :
        (r : Result (List ℕ)) (h' : History)
        → let after =
            bind_result
              (r, h')
              (λ addresses. get_address kernel garbage addresses >>= after_address kernel) in
          after.0 ≡ returned (some n) → Happened (Listening kernel) after.1
    looked exited h' z = absurd (let f : ⊥ = ground arith in f)
    looked waiting h' z = absurd (let f : ⊥ = ground arith in f)
    looked (returned addresses) h' z =
        let found = get_address kernel garbage addresses h' in
        after_address-Happened kernel found.0 found.1 n
          (get_address-IsFound kernel addresses garbage h') z

-- The main function behind the first loop.
call_client : Kernel → ℕ → ℕ → M ℕ
call_client kernel rounds listening = do
  fifo ← open_fifo kernel
  count ← call kernel (write_byte fifo)
  elim (is_empty count) [
    | true ↦ exit
    | false ↦ do
      connection ← retry rounds (accept_communication kernel listening)
      call kernel (close (some listening))
      finish_setup kernel connection
  ]

-- Before every byte that the server writes to the pipe, `listen` was called on a socket for which `bind`
-- was called: the client finds a server that listens, if neither of them failed with -1.
pub tcp_writes_after_listen :
    (kernel : Kernel) (garbage : Descriptor) (rounds : ℕ)
    → Guarded is_write (Happened (Listening kernel)) (main kernel garbage rounds []).1
unfolding main call_client
tcp_writes_after_listen kernel garbage rounds =
    listened created.0 created.1
      (λ n e.
        retry_lem P (create_socket kernel garbage) (create_socket-Happened kernel garbage) rounds []
          n e)
      (Makes-Guarded is_write P (retry-Makes rounds (create_socket-Makes kernel garbage)) [] tt)
  where
    P : History → Type 0
    P = Happened (Listening kernel)

    created : Result ℕ × History
    created = retry rounds (create_socket kernel garbage) []

    served :
        (n : ℕ)
        → Makes Free (do
          connection ← retry rounds (accept_communication kernel n)
          call kernel (close (some n))
          finish_setup kernel connection)
    served n = bind-Makes (retry-Makes rounds (accept_communication-Makes kernel n)) (λ c.
        bind-Makes (call-Makes kernel (close (some n)) refl)
          (λ _. finish_setup-Makes kernel c refl))

    listened :
        (r : Result ℕ) (h : History)
        → ((n : ℕ) → r ≡ returned n → P h)
        → Guarded is_write P h
        → Guarded is_write P (bind_result (r, h) (call_client kernel rounds)).1
    listened exited h p g = g
    listened waiting h p g = g
    listened (returned n) h p g =
        Makes-Guarded is_write P (test-Makes (is_empty count) exit-Makes (served n)) base (
          (λ _. Happened-cons (Listening kernel) (open_file tcp_fifo read_write) h (p n refl)),
          free-Guarded is_write P (open_file tcp_fifo read_write) h refl g,
        )
      where
        fifo : Descriptor
        fifo = kernel.answer h (open_file tcp_fifo read_write)

        base : History
        base = write_byte fifo ∷ open_file tcp_fifo read_write ∷ h

        count : Option ℕ
        count = kernel.answer (open_file tcp_fifo read_write ∷ h) (write_byte fifo)

-- Before every byte that the server writes to the pipe, it made a socket, set it to be reused, called
-- `bind` for it, and behind that (and a `close` where `bind` answered 1) `listen` on it, which did not
-- answer 1; whether `bind` or `listen` failed with -1 the server does not know. Before every `connect`
-- of the client a byte came through the pipe.
pub tcp_rendezvous :
    (server client : Kernel) (garbage garbage' : Descriptor) (rounds rounds' : ℕ)
    → Guarded is_write (Happened (Listening server)) (main server garbage rounds []).1
      × Guarded is_connect (Happened (ByteRead client)) (Connect.main client garbage' rounds' []).1
tcp_rendezvous server client garbage garbage' rounds rounds' =
    (tcp_writes_after_listen server garbage rounds, tcp_connects_after_byte client garbage' rounds')
