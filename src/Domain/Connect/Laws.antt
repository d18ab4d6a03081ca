-- ===== src/Domain/Connect/Laws.antt =====
-- When the Unix domain client tries again, what its descriptor stands for, and when it connects.
use ipc_bench.Prelude.{
  ℕ, ◌≡◌, ◌↔◌, refl, Bool, true, false, Option, none, some, [], ◌∷◌, inl, inr, arith, Option-cases,
}
use ipc_bench.Common.Sockets.{set_socket_both_buffer_sizes}
use ipc_bench.Setup.{
  Call, Descriptor, Kernel, History, M, returned, ◌>>=◌, exit, with_options, retry, finish_setup,
  socket_fifo, read_write, open_file, read_byte, socket, connect,
}
use ipc_bench.Setup.Order.{
  Makes, pure-Makes, exit-Makes, call-Makes, bind-Makes, option-Makes, with_options-Makes,
  retry-Makes, finish_setup-Makes, Guarded, free-Guarded, Makes-Guarded_after, Happened,
  Happened-cons,
}
use ipc_bench.Domain.Connect.{setup_socket, create_connection, main}

-- The client tries again exactly if it gets no socket; a descriptor that it returns is connected by
-- the last call.
pub create_connection_lem :
    (kernel : Kernel) (h : History)
    → ((create_connection kernel h).0 ≡ returned none ↔ kernel.answer h (socket 0) ≡ none)
      × ((n : ℕ)
          → (create_connection kernel h).0 ≡ returned (some n)
          → (before : History) × (code : ℕ) × ((create_connection kernel h).1
              ≡ connect (some n) 0 ∷ before)
            × (kernel.answer before (connect (some n) 0) ≡ some code))
unfolding create_connection setup_socket
create_connection_lem kernel h = ((λ e. ground arith, λ e. ground arith), connected)
  where
    connected :
        (n : ℕ)
        → (create_connection kernel h).0 ≡ returned (some n)
        → (before : History) × (code : ℕ) × ((create_connection kernel h).1
            ≡ connect (some n) 0 ∷ before)
          × (kernel.answer before (connect (some n) 0) ≡ some code)
    connected n e =
        let before = (with_options kernel (some n) set_socket_both_buffer_sizes (socket 0 ∷ h)).1 in
        elim (Option-cases (kernel.answer before (connect (some n) 0))) [
          | inl e' ↦ absurd (let f : ⊥ = ground arith in f)
          | inr (code, e') ↦ (before, code, ground arith, e')
        ]

abbrev pub ByteRead : Kernel → History → Call → Type 0
ByteRead kernel h c =
    (fd : Descriptor) × (count : ℕ) × (c ≡ read_byte fd) × (kernel.answer h c ≡ some count)

abbrev pub is_connect : Call → Bool
is_connect (connect fd address) = true
is_connect _ = false

create_connection-Makes : (kernel : Kernel) → Makes (λ _. Unit {0}) (create_connection kernel)
unfolding create_connection setup_socket
create_connection-Makes kernel = bind-Makes (call-Makes kernel (socket 0) tt) (λ fd.
    option-Makes fd (pure-Makes none) (λ n.
      bind-Makes
        (bind-Makes (with_options-Makes kernel (some n) set_socket_both_buffer_sizes (λ _. tt))
          (λ _.
            bind-Makes (call-Makes kernel (connect (some n) 0) tt)
              (λ code. option-Makes code exit-Makes (λ _. pure-Makes tt))))
        (λ _. pure-Makes (some n))))

-- Before every `connect` of the client its read of the pipe did not fail.
pub domain_connects_after_byte :
    (kernel : Kernel) (rounds : ℕ)
    → Guarded is_connect (Happened (ByteRead kernel)) (main kernel rounds []).1
unfolding main
domain_connects_after_byte kernel rounds = after_read (kernel.answer before (read_byte fifo)) refl
  where
    P : History → Type 0
    P = Happened (ByteRead kernel)

    before : History
    before = open_file socket_fifo read_write ∷ []

    fifo : Descriptor
    fifo = kernel.answer [] (open_file socket_fifo read_write)

    rest : M ℕ
    rest = do connection ← retry rounds (create_connection kernel); finish_setup kernel connection

    rest-Makes : Makes (λ _. Unit {0}) rest
    rest-Makes =
        bind-Makes (retry-Makes rounds (create_connection-Makes kernel))
          (λ n. finish_setup-Makes kernel n tt)

    base-Guarded : Guarded is_connect P (read_byte fifo ∷ before)
    base-Guarded =
        free-Guarded is_connect P (read_byte fifo) before refl
          (free-Guarded is_connect P (open_file socket_fifo read_write) [] refl tt)

    after_read :
        (count : Option ℕ)
        → kernel.answer before (read_byte fifo) ≡ count
        → Guarded is_connect P
            ((elim count as (λ _. M ℕ) [ none ↦ exit | some _ ↦ rest ]) (read_byte fifo ∷ before)).1
    after_read none e = base-Guarded
    after_read (some k) e =
        Makes-Guarded_after is_connect P (Happened-cons (ByteRead kernel)) rest-Makes
          (read_byte fifo ∷ before) ([], read_byte fifo, before, refl, (fifo, k, refl, e))
          base-Guarded
