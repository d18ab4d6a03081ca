-- ===== src/Tcp/Connect/Laws.antt =====
-- What a descriptor of the TCP client stands for, and which failures it notices.
use mathlib.Core.List.{append_assoc}
use ipc_bench.Prelude.{
  ℕ, sym, ◌≡◌, ◌≢◌, ◌⊎◌, inl, inr, refl, Bool, true, false, Option, none, some, List, [], ◌∷◌, ◌++◌,
  All, arith, ap, ◌∙◌, Option-cases,
}
use ipc_bench.Common.Sockets.{
  Request, set_buffer, send, buffer_size, set_socket_both_buffer_sizes, set_io_flag,
}
use ipc_bench.Setup.{
  Descriptor, Kernel, History, Result, returned, exited, ◌>>=◌, is_one, socket, connect, close,
  option, M, Call, read_byte, is_empty, retry, finish_setup, pure, exit, open_file, tcp_fifo,
  read_write,
}
use ipc_bench.Setup.Order.{
  Makes, pure-Makes, exit-Makes, call-Makes, bind-Makes, option-Makes, test-Makes, if-Makes,
  with_options-Makes, retry-Makes, finish_setup-Makes, Guarded, free-Guarded, Makes-Guarded_after,
  Happened, Happened-cons,
}
use ipc_bench.Tcp.Connect.{main, get_address, setup_socket, get_server_information, create_socket}

-- What the manuals say: no socket option is set on -1 (EBADF), and `socket` does not give the
-- descriptor 1, at which the standard output is open.
pub record IsKernel (kernel : Kernel) : Type 0 where
  pub refuses : (h : History) (r : Request) → kernel.answer h (option none r) ≡ none
  pub fresh : (h : History) (address : ℕ) → kernel.answer h (socket address) ≢ some 1

pub setup_socket-Makes :
    {Q : Call → Type 0} (kernel : Kernel) (fd : Descriptor)
    → ((r : Request) → Q (option fd r))
    → Makes Q (setup_socket kernel fd)
unfolding setup_socket
setup_socket-Makes kernel fd q =
    bind-Makes (with_options-Makes kernel fd set_socket_both_buffer_sizes q) (λ _.
      bind-Makes (with_options-Makes kernel fd set_io_flag q)
        (λ ok. if-Makes ok (pure-Makes tt) exit-Makes))

abbrev pub IsOption : ℕ → Call → Type 0
IsOption n c = (r : Request) × (c ≡ option (some n) r)

-- From the history `h` on, the calls of `final` made a socket for one of the addresses of `getaddrinfo`
-- and connected it to that address; behind that are requests on the descriptor alone.
abbrev pub IsConnected : Kernel → History → ℕ → History → Type 0
IsConnected kernel h n final =
    (addresses tried later : List ℕ) × (address code : ℕ) × (before : History) × (earlier
      requests : List Call)
    × (before ≡ earlier ++ h)
    × (kernel.addresses h ≡ some addresses)
    × (addresses ≡ tried ++ (address ∷ later))
    × (kernel.answer before (socket address) ≡ some n)
    × (kernel.answer (socket address ∷ before) (connect (some n) address) ≡ some code)
    × All (IsOption n) requests
    × (final ≡ requests ++ (connect (some n) address ∷ socket address ∷ before))

module _ (kernel : Kernel) (law : IsKernel kernel) where
  get_address_lem :
      (addresses : List ℕ) (fd : Descriptor) (h : History)
      → ((get_address kernel fd addresses h).0 ≡ returned none)
        ⊎ ((n : ℕ) × (n ≢ 1)
            × (tried later : List ℕ) × (address code : ℕ) × (before : History) × (earlier : List
                Call)
            × (before ≡ earlier ++ h)
            × (addresses ≡ tried ++ (address ∷ later))
            × (kernel.answer before (socket address) ≡ some n)
            × (kernel.answer (socket address ∷ before) (connect (some n) address) ≡ some code)
            × (get_address kernel fd addresses h
                ≡ (returned (some n), connect (some n) address ∷ socket address ∷ before)))
  unfolding get_address
  get_address_lem [] fd h = inl refl
  get_address_lem (a ∷ addresses) fd h = elim (Option-cases (kernel.answer h (socket a))) [
    | inl e ↦ elim (get_address_lem addresses none (socket a ∷ h)) [
      | inl none_left ↦ inl (rw e none_left)
      | inr
            (
              n, ne, tried, later, address, code, before, earlier, late, split, made, joined,
              result,
            ) ↦
          inr (
            n,
            ne,
            a ∷ tried,
            later,
            address,
            code,
            before,
            earlier ++ (socket a ∷ []),
            late ∙ sym (append_assoc earlier (socket a ∷ []) h),
            ap (λ l. a ∷ l) split,
            made,
            joined,
            rw e result,
          )
    ]
    | inr (n, e) ↦ elim (Option-cases (kernel.answer (socket a ∷ h) (connect (some n) a))) [
      | inl e' ↦ inl (rw (e, e') refl)
      | inr (code, e') ↦ inr (
        n,
        λ z. law.fresh h a (e ∙ ap some z),
        [],
        addresses,
        a,
        code,
        h,
        [],
        refl,
        refl,
        e,
        e',
        rw (e, e') refl,
      )
    ]
  ]

  setup_socket-none : (h : History) → (setup_socket kernel none h).0 ≡ exited
  unfolding setup_socket set_socket_both_buffer_sizes
  setup_socket-none h = ground (arith, law.refuses h (set_buffer send buffer_size))

  setup_socket_lem :
      (fd : Descriptor) (h : History)
      → ((setup_socket kernel fd h).0 ≡ exited) ⊎ ((setup_socket kernel fd h).0 ≡ returned tt)
  unfolding setup_socket
  setup_socket_lem fd h = ground arith

  -- Over a kernel as documented `create_socket` ends the process, or it returns a descriptor that in this
  -- run was made as a socket for one of the addresses of `getaddrinfo` and connected to that address,
  -- with no call behind it but requests on its options: it never returns -1, for which the main function
  -- would try again.
  pub create_socket-IsConnected :
      (garbage : Descriptor) (h : History)
      → let run = create_socket kernel garbage h in
        (run.0 ≡ exited) ⊎ ((n : ℕ) × (run.0 ≡ returned (some n)) × IsConnected kernel h n run.1)
  unfolding create_socket get_server_information
  create_socket-IsConnected garbage h = elim (Option-cases (kernel.addresses h)) [
    | inl e ↦ inl (ground (arith, e))
    | inr (addresses, e) ↦ elim (get_address_lem addresses garbage h) [
      | inl e' ↦
          let h' = (get_address kernel garbage addresses h).1 in
          inl (ground (arith, e, e', setup_socket-none h'))
      | inr
            (
              n, ne, tried, later, address, code, before, earlier, late, split, made, joined,
              result,
            ) ↦
          let h' = connect (some n) address ∷ socket address ∷ before in
          let (requests, final, only) =
            (setup_socket-Makes {Q = IsOption n} kernel (some n) (λ r. (r, refl))).at h' in
          elim (setup_socket_lem (some n) h') [
            | inl e'' ↦ inl (ground (arith, e, result, e'', ne))
            | inr e'' ↦ inr (
              n,
              ground (arith, e, result, e'', ne),
              (
                addresses,
                tried,
                later,
                address,
                code,
                before,
                earlier,
                requests,
                late,
                e,
                split,
                made,
                joined,
                only,
                ground (arith, e, result, e'', final, ne),
              ),
            )
          ]
    ]
  ]

-- A byte came through the pipe.
abbrev pub ByteRead : Kernel → History → Call → Type 0
ByteRead kernel h c =
    (fd : Descriptor) × (c ≡ read_byte fd) × (is_empty (kernel.answer h c) ≡ false)

abbrev pub is_connect : Call → Bool
is_connect (connect fd address) = true
is_connect _ = false

get_address-Makes :
    (kernel : Kernel) (fd : Descriptor) (addresses : List ℕ)
    → Makes (λ _. Unit {0}) (get_address kernel fd addresses)
unfolding get_address
get_address-Makes kernel fd [] = bind-Makes (call-Makes kernel (close fd) tt) (λ _. pure-Makes none)
get_address-Makes kernel fd (a ∷ addresses) = bind-Makes (call-Makes kernel (socket a) tt) (λ fd'.
    option-Makes fd' (get_address-Makes kernel none addresses) (λ n.
      bind-Makes (call-Makes kernel (connect (some n) a) tt) (λ code.
        option-Makes code
          (bind-Makes (call-Makes kernel (close (some n)) tt) (λ _. pure-Makes none))
          (λ _. pure-Makes (some n)))))

pub get_server_information-Makes :
    {Q : Call → Type 0} (kernel : Kernel) → Makes Q (get_server_information kernel)
unfolding get_server_information
get_server_information-Makes {Q} kernel = record { at = λ h. looked h (kernel.addresses h) }
  where
    looked :
        (h : History) (found : Option (List ℕ))
        → (calls : List Call) × ((elim found as (λ _. Result (List ℕ) × History) [
          | none ↦ exit h
          | some addresses ↦ pure addresses h
        ]).1
            ≡ calls ++ h)
          × All Q calls
    looked h none = ([], refl, tt)
    looked h (some addresses) = ([], refl, tt)

create_socket-Makes :
    (kernel : Kernel) (garbage : Descriptor) → Makes (λ _. Unit {0}) (create_socket kernel garbage)
unfolding create_socket
create_socket-Makes kernel garbage = bind-Makes (get_server_information-Makes kernel) (λ addresses.
    bind-Makes (get_address-Makes kernel garbage addresses) (λ fd.
      test-Makes (is_one fd) (pure-Makes none)
        (bind-Makes (setup_socket-Makes kernel fd (λ _. tt)) (λ _. pure-Makes fd))))

-- Before every `connect` of the client a byte came through the pipe: it waits for the server.
pub tcp_connects_after_byte :
    (kernel : Kernel) (garbage : Descriptor) (rounds : ℕ)
    → Guarded is_connect (Happened (ByteRead kernel)) (main kernel garbage rounds []).1
unfolding main
tcp_connects_after_byte kernel garbage rounds =
    after_read (is_empty (kernel.answer (open_file tcp_fifo read_write ∷ []) (read_byte fifo))) refl
  where
    fifo : Descriptor
    fifo = kernel.answer [] (open_file tcp_fifo read_write)

    rest : M ℕ
    rest = do
      connection ← retry rounds (create_socket kernel garbage)
      finish_setup kernel connection

    rest-Makes : Makes (λ _. Unit {0}) rest
    rest-Makes =
        bind-Makes (retry-Makes rounds (create_socket-Makes kernel garbage))
          (λ n. finish_setup-Makes kernel n tt)

    base : History
    base = read_byte fifo ∷ open_file tcp_fifo read_write ∷ []

    base-Guarded : Guarded is_connect (Happened (ByteRead kernel)) base
    base-Guarded =
        free-Guarded is_connect (Happened (ByteRead kernel)) (read_byte fifo)
          (open_file tcp_fifo read_write ∷ []) refl
          (free-Guarded is_connect (Happened (ByteRead kernel)) (open_file tcp_fifo read_write) []
            refl tt)

    after_read :
        (b : Bool)
        → is_empty (kernel.answer (open_file tcp_fifo read_write ∷ []) (read_byte fifo)) ≡ b
        → Guarded is_connect
            (Happened (ByteRead kernel))
            ((elim b as (λ _. M ℕ) [ true ↦ exit | false ↦ rest ]) base).1
    after_read true e = base-Guarded
    after_read false e =
        Makes-Guarded_after is_connect (Happened (ByteRead kernel))
          (Happened-cons (ByteRead kernel)) rest-Makes base
          ([], read_byte fifo, open_file tcp_fifo read_write ∷ [], refl, (fifo, refl, e))
          base-Guarded
