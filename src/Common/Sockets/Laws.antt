-- ===== src/Common/Sockets/Laws.antt =====
-- Which requests the functions make, and what they do on failures.
use ipc_bench.Prelude.{ℕ, ◌+◌, ◌≡◌, true, false, none, some, [], ◌∷◌, arith}
use ipc_bench.Common.Sockets.{
  set_buffer, get_flags, set_flags, Kernel, send, receive_direction, has_nonblock, with_nonblock,
  without_nonblock, set_socket_both_buffer_sizes, set_io_flag, set_socket_non_blocking,
  unset_socket_non_blocking,
}

-- Both buffers are set, in this order, and a failure of the first leaves the second alone.
pub set_socket_both_buffer_sizes_lem :
    (kernel : Kernel)
    → set_socket_both_buffer_sizes kernel ≡ elim (kernel (set_buffer send 64000)) [
      | none ↦ (set_buffer send 64000 ∷ [], none)
      | some _ ↦ (
        set_buffer send 64000 ∷ set_buffer receive_direction 64000 ∷ [],
        kernel (set_buffer receive_direction 64000),
      )
    ]
unfolding set_socket_both_buffer_sizes
set_socket_both_buffer_sizes_lem kernel = ground arith

-- On flags `f` that the kernel reports and lets be set: switching to non-blocking sets the flags
-- with the bit and returns those, switching back sets them without the bit and returns the old
-- ones; the two differ from each other in that bit alone, and the test sees it.
pub non_blocking_lem :
    (kernel : Kernel) (f : ℕ)
    → kernel get_flags ≡ some f
    → kernel (set_flags (with_nonblock f)) ≡ some 0
    → kernel (set_flags (without_nonblock f)) ≡ some 0
    → (set_socket_non_blocking kernel
        ≡ (get_flags ∷ set_flags (with_nonblock f) ∷ [], some (with_nonblock f)))
      × (unset_socket_non_blocking kernel
          ≡ (get_flags ∷ set_flags (without_nonblock f) ∷ [], some f))
      × (set_io_flag kernel ≡ (get_flags ∷ set_flags (with_nonblock f) ∷ [], some true))
      × (has_nonblock (with_nonblock f) ≡ true)
      × (has_nonblock (without_nonblock f) ≡ false)
      × (with_nonblock f ≡ without_nonblock f + 0x800)
unfolding set_socket_non_blocking unset_socket_non_blocking set_io_flag
non_blocking_lem kernel f get set unset =
    (ground arith, ground arith, ground arith, ground arith, ground arith, ground arith)
