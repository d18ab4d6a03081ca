-- ===== src/Lib.antt =====
-- A verification library of ipc-bench, the benchmarks of inter-process communication under source/.
--
-- The program. Each transport (a folder of source/) is a pair of processes, a server and a client,
-- that a parent starts with the same options. Over the named pipes (fifo), TCP sockets (tcp) and
-- Unix domain sockets (domain) a client keeps a window of requests in flight and stamps each of
-- them, and the server echoes the bytes; over shared memory (shm) and a mapped file (mmap) the two
-- take turns by a guard byte that they spin on, over an eventfd (eventfd) by tokens in its counter,
-- over a message queue (mq) by messages of two types, over a pipe (pipe) and by signals alone
-- (signal) with SIGUSR1 and SIGUSR2, over shared memory (shm-sync) by a condition variable, and
-- over ZeroMQ (zeromq) by requests and replies. source/common has what they share: options,
-- statistics, the start of the children, signals and socket options.
--
-- The files.
--   Prelude: shared helpers. Prelude/Words is `size_t` and `bench_t` with the wrap-around at 2 ^ 64
--     written out, Prelude/Int is `int`, Prelude/Lists the indexed lists that stand for C arrays.
--   Common: source/common. Common/Arguments is parse_arguments and check_flag (arguments.c);
--     Common/Benchmarks is setup_benchmarks and benchmark, Common/Analysis is analyze_array and its
--     comparison (benchmarks.c); Common/Process is find_build_path, the names and copy_arguments
--     (process.c); Common/Parent is setup_parent, start_children, start_child and start_process
--     (parent.c, process.c); Common/Signals is the three setups (signals.c); Common/Sockets the
--     options and flags (sockets.c); Common/Clock now (benchmarks.c), with the rounding of a
--     `double`. The proofs are in the Laws file below each.
--   Transfer: the loop that source/fifo/helper.c, source/tcp/helper.c and source/domain/helper.c
--     share. A call of the kernel is a function of the offset and size that it is asked for.
--     Transfer/Spec is the contract of a transfer, Transfer/Laws the proof of it.
--   Fifo, Tcp, Domain: read_from_pipe, write_to_pipe, read_from_socket and write_to_socket; their
--     Client and Server files are the communicate functions of source/fifo/client.c and server.c, of
--     source/tcp and of source/domain, over rounds of answers of the kernel (their Rounds files).
--   Window: those six communicate functions. They run the same loops over transfers and a way to
--     note a first read, which are parameters here and are filled by Fifo, Tcp and Domain.
--     Window/Times is updateWriteTimes and updateReadWriteTimes; Window/Client and Window/Server
--     have one function for each part of the loop's body (read_phase, stamp_phase, write_phase) and
--     their local variables as a record; Window/Client/Report and Window/Server/Report are the ends
--     of the functions. Window/System runs a client and a server together, one round at a time in
--     any order, over byte streams that deliver only what was written.
--   Handshake: the protocol of the guard, shm_wait, shm_notify, mmap_wait, mmap_notify and
--     communicate of source/shm and source/mmap, as a step relation with one step for each access to
--     the guard and each pass over the memory. Shm and Mmap say what a memset does to the guard.
--   Eventfd: source/eventfd/eventfd-bi.c, one step for each read and write of the counter. The
--     eventfd is a parameter, with what eventfd(2) says of reads and writes as hypotheses.
--     Eventfd/Uni is source/eventfd/eventfd-uni.c.
--   Mq: source/mq, one step for each call on the message queue, with the failures that `throw`. The
--     queue is a parameter, with what msgop(2) says of it as hypotheses.
--   Setup: how the programs of fifo, tcp and domain come to their connection, as sequences of kernel
--     calls. The kernel is a parameter: its answers may depend on all calls before. Tcp/Connect and
--     Tcp/Listen are the socket functions and the mains of source/tcp/client.c and server.c,
--     Domain/Connect and Domain/Listen those of source/domain, Fifo/Open open_fifo and the mains of
--     source/fifo. Setup/Order has the lemmas on which calls come before which.
--   Pingpong: the turns by SIGUSR1 and SIGUSR2 (notify_server, notify_client and wait_for_signal of
--     source/common/signals.c), one step for each call, over the bytes in a pipe, from the fork of the
--     two processes on: a signal that comes before the setup of its receiver is caught or ends it. Pipe
--     is source/pipe/pipe.c, and Pipe/Main what its main does with the ends of the pipe; Signal is
--     source/signal, with no bytes at all. Signals are a parameter, with what signal(7) says of
--     those that are pending as hypotheses.
--   ShmSync: sync_wait, sync_notify and communicate of source/shm-sync, one step for each call on
--     the mutex and the condition variable. These are a parameter, with what pthread_mutex_lock(3)
--     and pthread_cond_wait(3) say as hypotheses. ShmSync/Segment is where create_sync puts them.
--   Zeromq: the two communicate functions of source/zeromq, one step for each call on a socket,
--     with the failures that `throw`. The request and reply sockets are a parameter, with what
--     zmq_socket(3), zmq_send(3) and zmq_recv(3) say as hypotheses. Zeromq/Main is the two mains,
--     which make the context and the socket and end them, as sequences of calls; how `communicate`
--     ends is an argument.
--   Shm/Main, Mmap/Main, ShmSync/Main: the mains of these transports and the functions that they
--     call, as sequences of calls in the same way. In shm and mmap `communicate` is one access to all
--     bytes that it may touch; in shm-sync how it ends is an argument. An access to memory that is not
--     there (after a `mmap` or `shmat` that failed, or behind `shmdt`) ends the process. Setup/Memory
--     says what a history has attached, mapped and made long enough.
--   Mq/Create: the two create_mq functions of source/mq and the signal between them, one step for
--     each call, from the `fork` of the client on.
--   Threads: source/other/pthread-test.c, one step for each call on the mutex and each access to the
--     sum. Threads/Interleaved is interleaved_add, with its condition variable.
--
-- The processes of shm, mmap, eventfd, mq, pipe, signal, shm-sync and zeromq share memory or an
-- object of the kernel or of a library: their steps interleave in any order, and Reach is the
-- states that they can get to.
--
-- Bounds and fuel. The transfer loop has `num` rounds of fuel for `num` bytes: each round that goes
-- on moves a byte, so the fuel never runs out before the loop ends (Transfer/Laws). The communicate
-- loops run over a list of rounds, whose end leaves them `running`: no result is then reported
-- (Window/Client/Termination has rounds that are enough). Small arguments (Window/Sizes) have
-- requests of at least one byte and a total with three windows below 2 ^ 63 bytes. Lawful transfers
-- (Window/Laws) move no more than they are asked for and split what they moved into whole requests
-- and a rest; those of Fifo, Tcp and Domain are lawful if no call returns more than it was asked
-- for.
--
-- The loops of the mains that try a socket again have `rounds` of fuel; a run that uses it up ends
-- in `waiting` (Setup).
--
-- Not modelled: floating-point results (mean, deviation, message rate) and printing; the contents of
-- the buffers; the calls that make the object of eventfd; in the mains of fifo, tcp
-- and domain, the processor that they run on and the handlers set without a test; the mains of the
-- parents; try-outs under other folders but for source/other/pthread-test.c, and code that no
-- program calls.
pub mod Prelude
pub mod Common
pub mod Transfer
pub mod Fifo
pub mod Tcp
pub mod Domain
pub mod Window
pub mod Handshake
pub mod Shm
pub mod Mmap
pub mod Eventfd
pub mod Mq
pub mod Setup
pub mod Pingpong
pub mod Pipe
pub mod Signal
pub mod ShmSync
pub mod Zeromq
pub mod Threads
