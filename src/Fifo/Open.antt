-- ===== src/Fifo/Open.antt =====
-- source/fifo/client.c and source/fifo/server.c: how the two open their pipes, up to `communicate`.
pub mod Laws
use ipc_bench.Prelude.{ℕ, none, some}
use ipc_bench.Setup.{
  Descriptor, Kernel, M, ◌>>=◌, ◌>>◌, pure, exit, call, File, Mode, request, response, read_only,
  write_only, open_file, set_pipe_size, catch_interrupt,
}

-- `open_fifo`, for the size that it gives the pipe.
unfoldable pub open_fifo : ℕ → Kernel → File → Mode → M Descriptor
open_fifo size kernel file mode = do
  fd ← call kernel (open_file file mode)
  elim fd [
    | none ↦ pure none
    | some n ↦ do
      code ← call kernel (set_pipe_size n size)
      elim code [ none ↦ pure none | some _ ↦ pure (some n) ]
  ]

-- A pipe that does not open ends the process.
abbrev pub or_exit : Descriptor → M ℕ
or_exit none = exit
or_exit (some n) = pure n

-- The main functions, behind the signals: the two descriptors for `communicate`, the one to read from
-- first.
unfoldable pub client_main : Kernel → M (ℕ × ℕ)
unfolding open_fifo
client_main kernel = do
  fd ← open_fifo 102400 kernel response read_only
  client_read_stream ← or_exit fd
  fd' ← open_fifo 102400 kernel request write_only
  client_write_stream ← or_exit fd'
  code ← call kernel catch_interrupt
  elim code [ none ↦ exit | some _ ↦ pure (client_read_stream, client_write_stream) ]

unfoldable pub server_main : Kernel → M (ℕ × ℕ)
unfolding open_fifo
server_main kernel = do
  fd ← open_fifo 1048576 kernel response write_only
  client_write_stream ← or_exit fd
  fd' ← open_fifo 1048576 kernel request read_only
  client_read_stream ← or_exit fd'
  code ← call kernel catch_interrupt
  elim code [ none ↦ exit | some _ ↦ pure (client_read_stream, client_write_stream) ]
