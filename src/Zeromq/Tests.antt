-- ===== src/Zeromq/Tests.antt =====
-- Sockets as the phase of the exchange, a run into the first request, and the theorem at it.
use ipc_bench.Prelude.{ℕ, suc, ◌≡◌, ◌≢◌, ◌⊎◌, refl, arith}
use ipc_bench.Prelude.Int.{pos}
use ipc_bench.Zeromq.{
  Answer, blocks, fails, done, Phase, idle, requested, received, replied, ReqRep, IsReqRep,
  ServerPc, ClientPc, ServerMove, ClientMove, Reach, start, server_step, client_step,
}
use ipc_bench.Zeromq.Progress.{IsDone, CanMove, server_left, client_left, zeromq_progress}

abbrev req_send : ℕ → Phase → Answer Phase
req_send n idle = done n (requested n)
req_send n _ = fails

abbrev req_recv : ℕ → Phase → Answer Phase
req_recv n (replied m) = done m idle
req_recv n idle = fails
req_recv n _ = blocks

abbrev rep_send : ℕ → Phase → Answer Phase
rep_send n received = done n (replied n)
rep_send n _ = fails

abbrev rep_recv : ℕ → Phase → Answer Phase
rep_recv n (requested m) = done m received
rep_recv n received = fails
rep_recv n _ = blocks

abbrev lib : ReqRep
lib = record {
  Link = Phase;
  initial = idle;
  phase = λ p. p;
  req_send = req_send;
  req_recv = req_recv;
  rep_send = rep_send;
  rep_recv = rep_recv;
}

lib-IsReqRep : IsReqRep lib
lib-IsReqRep = record {
  starts = refl;
  req_sends = λ n l e. (requested n, rw e refl, refl);
  rep_receives = λ n m l e. (received, rw e refl, refl);
  rep_sends = λ n l e. (replied n, rw e refl, refl);
  req_receives = λ n m l e. (idle, rw e refl, refl);
  rep_waits_idle = λ n l e. rw e refl;
  rep_waits_replied = λ n m l e. rw e refl;
  req_waits_requested = λ n m l e. rw e refl;
  req_waits_received = λ n l e. rw e refl;
}

-- Both wait for a message; the one of the client is under way.
asked-Reach : Reach lib (pos 100) 2 (requested 100) (ServerPc.receiving 1) (ClientPc.receiving 1)
asked-Reach =
    client_step (client_step (server_step start (ServerMove.enter 1)) (ClientMove.enter 1))
      (ClientMove.send 1 100 refl refl)

zeromq_progress_example :
    (ServerPc.receiving 1 ≢ ServerPc.failed)
    × (ClientPc.receiving 1 ≢ ClientPc.failed)
    × ((client_left (ClientPc.receiving 1) ≡ server_left (ServerPc.receiving 1))
        ⊎ (client_left (ClientPc.receiving 1) ≡ suc (server_left (ServerPc.receiving 1))))
    × (IsDone (ServerPc.receiving 1) (ClientPc.receiving 1)
        ⊎ CanMove lib 100 (requested 100) (ServerPc.receiving 1) (ClientPc.receiving 1))
zeromq_progress_example = zeromq_progress lib lib-IsReqRep 100 (omega arith) asked-Reach
