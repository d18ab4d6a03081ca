-- ===== src/Zeromq/Progress.antt =====
-- How far apart the two processes are, and whether one of them can go on.
use ipc_bench.Prelude.{ℕ, zero, suc, ◌^◌, ◌<◌, ◌≡◌, ◌≢◌, ◌⊎◌, inl, inr, refl, arith}
use ipc_bench.Prelude.Int.{pos}
use ipc_bench.Zeromq.{
  Phase, idle, requested, received, replied, ReqRep, IsReqRep, ServerPc, ClientPc, ServerMove,
  ClientMove, Reach,
}
use ipc_bench.Zeromq.Calls.{
  ServerWaits, ClientIdle, ClientWaits, Fits, server_sends, client_sends, not_short, bytes,
}
use ipc_bench.Zeromq.Invariant.{Inv, Reach-Inv}

abbrev pub IsDone : ServerPc → ClientPc → Type 0
IsDone v c = (v ≡ ServerPc.finished) × (c ≡ ClientPc.finished)

-- The messages that are left, the current one included.
abbrev pub server_left : ServerPc → ℕ
server_left (ServerPc.loop_test k) = k
server_left (ServerPc.receiving k) = suc k
server_left (ServerPc.sending k) = suc k
server_left _ = 0

abbrev pub client_left : ClientPc → ℕ
client_left (ClientPc.loop_test k) = k
client_left (ClientPc.sending k) = suc k
client_left (ClientPc.receiving k) = suc k
client_left _ = 0

-- A step of either process.
abbrev pub CanMove : (lib : ReqRep) → ℕ → lib.Link → ServerPc → ClientPc → Type 0
CanMove lib size l v c =
    ((l' : lib.Link) × (v' : ServerPc) × ServerMove lib (pos size) l v l' v')
    ⊎ ((l' : lib.Link) × (c' : ClientPc) × ClientMove lib (pos size) l c l' c')

abbrev InStep : ServerPc → ClientPc → Type 0
InStep v c =
    (v ≢ ServerPc.failed)
    × (c ≢ ClientPc.failed)
    × ((client_left c ≡ server_left v) ⊎ (client_left c ≡ suc (server_left v)))

ServerWaits-left :
    (left : ℕ) (v : ServerPc) → ServerWaits left v → (v ≢ ServerPc.failed) × (server_left v ≡ left)
ServerWaits-left left (ServerPc.loop_test k) w = (λ e. ground arith, w)
ServerWaits-left left (ServerPc.receiving k) w = (λ e. ground arith, w)
ServerWaits-left left ServerPc.finished w = (λ e. ground arith, omega arith)
ServerWaits-left left (ServerPc.sending k) w = elim w [ ]
ServerWaits-left left ServerPc.failed w = elim w [ ]

ClientWaits-left :
    (left : ℕ) (c : ClientPc) → ClientWaits left c → (c ≢ ClientPc.failed) × (client_left c ≡ left)
ClientWaits-left left (ClientPc.receiving k) w = (λ e. ground arith, w)
ClientWaits-left left (ClientPc.loop_test k) w = elim w [ ]
ClientWaits-left left (ClientPc.sending k) w = elim w [ ]
ClientWaits-left left ClientPc.finished w = elim w [ ]
ClientWaits-left left ClientPc.failed w = elim w [ ]

ClientIdle-left :
    (left : ℕ) (c : ClientPc) → ClientIdle left c → (c ≢ ClientPc.failed) × (client_left c ≡ left)
ClientIdle-left left (ClientPc.loop_test k) w = (λ e. ground arith, w)
ClientIdle-left left (ClientPc.sending k) w = (λ e. ground arith, w)
ClientIdle-left left ClientPc.finished w = (λ e. ground arith, omega arith)
ClientIdle-left left (ClientPc.receiving k) w = elim w [ ]
ClientIdle-left left ClientPc.failed w = elim w [ ]

Fits-InStep : (size : ℕ) (p : Phase) (v : ServerPc) (c : ClientPc) → Fits size p v c → InStep v c
Fits-InStep size idle v c (left, w, i) =
    let (v_ok, a) = ServerWaits-left left v w in
    let (c_ok, b) = ClientIdle-left left c i in (v_ok, c_ok, inl (omega arith))
Fits-InStep size (requested n) v c (left, same, w, i) =
    let (v_ok, a) = ServerWaits-left (suc left) v w in
    let (c_ok, b) = ClientWaits-left (suc left) c i in (v_ok, c_ok, inl (omega arith))
Fits-InStep size received (ServerPc.sending k) c (left, w, i) =
    let (c_ok, b) = ClientWaits-left (suc left) c i in (λ e. ground arith, c_ok, inl (omega arith))
Fits-InStep size received (ServerPc.loop_test k) c (left, w, i) = elim w [ ]
Fits-InStep size received (ServerPc.receiving k) c (left, w, i) = elim w [ ]
Fits-InStep size received ServerPc.finished c (left, w, i) = elim w [ ]
Fits-InStep size received ServerPc.failed c (left, w, i) = elim w [ ]
Fits-InStep size (replied n) v c (left, same, w, i) =
    let (v_ok, a) = ServerWaits-left left v w in
    let (c_ok, b) = ClientWaits-left (suc left) c i in (v_ok, c_ok, inr (omega arith))

module _ (lib : ReqRep) (law : IsReqRep lib) (size : ℕ) (small : size < 2 ^ 31) where
  abbrev length : ℕ
  length = bytes lib law size small

  -- The client behind a request, and the server between two messages.
  waiting_moves :
      (l : lib.Link) (k j : ℕ) (p : Phase)
      → lib.phase l ≡ p
      → Fits length p (ServerPc.receiving k) (ClientPc.receiving j)
      → CanMove lib size l (ServerPc.receiving k) (ClientPc.receiving j)
  waiting_moves l k j idle e (left, w, i) = elim i [ ]
  waiting_moves l k j (requested n) e (left, same, w, i) =
      let (l', moves, q) = law.rep_receives length n l e in
      inl (
        l',
        ServerPc.sending k,
        ServerMove.receive k n moves (rw same (not_short lib law size small)),
      )
  waiting_moves l k j received e (left, w, i) = elim w [ ]
  waiting_moves l k j (replied n) e (left, same, w, i) =
      let (l', moves, q) = law.req_receives length n l e in
      inr (
        l',
        ClientPc.loop_test j,
        ClientMove.receive j n moves (rw same (not_short lib law size small)),
      )

  last_moves :
      (l : lib.Link) (j : ℕ) (p : Phase)
      → lib.phase l ≡ p
      → Fits length p ServerPc.finished (ClientPc.receiving j)
      → CanMove lib size l ServerPc.finished (ClientPc.receiving j)
  last_moves l j idle e (left, w, i) = elim i [ ]
  last_moves l j (requested n) e (left, same, w, i) = absurd (let f : ⊥ = omega arith in f)
  last_moves l j received e (left, w, i) = elim w [ ]
  last_moves l j (replied n) e (left, same, w, i) =
      let (l', moves, q) = law.req_receives length n l e in
      inr (
        l',
        ClientPc.loop_test j,
        ClientMove.receive j n moves (rw same (not_short lib law size small)),
      )

  client_gone : (k : ℕ) (p : Phase) → Fits length p (ServerPc.receiving k) ClientPc.finished → ⊥
  client_gone k idle (left, w, i) = omega arith
  client_gone k (requested n) (left, same, w, i) = i
  client_gone k received (left, w, i) = i
  client_gone k (replied n) (left, same, w, i) = i

  client_moves :
      (l : lib.Link) (v : ServerPc) (j : ℕ)
      → Inv lib law size small l v (ClientPc.sending j)
      → CanMove lib size l v (ClientPc.sending j)
  client_moves l v j f =
      let (w, (l', moves, q)) = client_sends lib law size small l v j (lib.phase l) refl f in
      inr (l', ClientPc.receiving j, ClientMove.send j length moves (not_short lib law size small))

  moves :
      (l : lib.Link) (v : ServerPc) (c : ClientPc)
      → Inv lib law size small l v c
      → IsDone v c ⊎ CanMove lib size l v c
  moves l (ServerPc.loop_test zero) c f = inr (inl (l, ServerPc.finished, ServerMove.leave))
  moves l (ServerPc.loop_test (suc k)) c f = inr (inl (l, ServerPc.receiving k, ServerMove.enter k))
  moves l (ServerPc.sending k) c f =
      let (w, (l', moves, q)) = server_sends lib law size small l c k (lib.phase l) refl f in
      inr (
        inl
          (l', ServerPc.loop_test k, ServerMove.send k length moves (not_short lib law size small)))
  moves l v (ClientPc.loop_test zero) f = inr (inr (l, ClientPc.finished, ClientMove.leave))
  moves l v (ClientPc.loop_test (suc k)) f = inr (inr (l, ClientPc.sending k, ClientMove.enter k))
  moves l v (ClientPc.sending j) f = inr (client_moves l v j f)
  moves l (ServerPc.receiving k) (ClientPc.receiving j) f =
      inr (waiting_moves l k j (lib.phase l) refl f)
  moves l ServerPc.finished (ClientPc.receiving j) f = inr (last_moves l j (lib.phase l) refl f)
  moves l (ServerPc.receiving k) ClientPc.finished f = absurd (client_gone k (lib.phase l) f)
  moves l ServerPc.finished ClientPc.finished f = inl (refl, refl)
  moves l ServerPc.failed c f =
      absurd ((Fits-InStep length (lib.phase l) ServerPc.failed c f).0 refl)
  moves l v ClientPc.failed f =
      absurd ((Fits-InStep length (lib.phase l) v ClientPc.failed f).1 refl)

  -- Over request and reply sockets as documented and for a size that fits into an `int`: in every
  -- reachable state neither process has failed, what the client has left is what the server has left
  -- or one message more, and one of the two can go on unless both are done.
  pub zeromq_progress :
      {count : ℕ} {l : lib.Link} {v : ServerPc} {c : ClientPc}
      → Reach lib (pos size) count l v c
      → (v ≢ ServerPc.failed)
        × (c ≢ ClientPc.failed)
        × ((client_left c ≡ server_left v) ⊎ (client_left c ≡ suc (server_left v)))
        × (IsDone v c ⊎ CanMove lib size l v c)
  zeromq_progress {l} {v} {c} r =
      let f = Reach-Inv lib law size small r in
      let (v_ok, c_ok, step) = Fits-InStep length (lib.phase l) v c f in
      (v_ok, c_ok, step, moves l v c f)
