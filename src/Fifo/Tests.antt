-- ===== src/Fifo/Tests.antt =====
-- Transfers over a pipe and a socket that hand over a few bytes at a time.
use ipc_bench.Prelude.{◌≡◌, refl, arith, ltb, min, if◌then◌else◌}
use ipc_bench.Transfer.{failed, done, Call, transfer_loop}
use ipc_bench.Transfer.Spec.{Fits, IsTransfer}
use ipc_bench.Transfer.Socket.{SocketCall, msg_dontwait}
use ipc_bench.Fifo.{read_from_pipe, write_to_pipe, pipe_helpers-IsTransfer}

-- 7 bytes at most per call, and the pipe is empty (or full) behind the first 20.
abbrev sevens : Call
sevens offset size = if ltb offset 20 then done (min 7 size) else failed

sevens-Fits : Fits sevens
sevens-Fits offset size n e = ground arith

read_of_sevens :
    read_from_pipe sevens 10 30 ≡ record { whole_reqs = 2; spare_bytes = 1; total_bytes = 21 }
unfolding read_from_pipe transfer_loop
read_of_sevens = refl

write_of_sevens :
    write_to_pipe sevens 10 15 ≡ record { whole_reqs = 1; spare_bytes = 5; total_bytes = 15 }
unfolding write_to_pipe transfer_loop
write_of_sevens = refl

pipe_helpers-IsTransfer_example :
    IsTransfer sevens 10 30 (read_from_pipe sevens 10 30)
    × IsTransfer sevens 10 30 (write_to_pipe sevens 10 30)
pipe_helpers-IsTransfer_example =
    pipe_helpers-IsTransfer sevens sevens 10 30 sevens-Fits sevens-Fits (omega arith) (omega arith)

-- A blocking call moves all that is asked for.
abbrev socket : SocketCall
socket msg_dontwait offset size = sevens offset size
socket _ offset size = done size
