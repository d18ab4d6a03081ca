-- ===== src/Zeromq/Calls.antt =====
-- What the next call of a process comes to, wherever the exchange stands.
use mathlib.Core.Path.{subst}
use ipc_bench.Prelude.{ℕ, suc, ◌<◌, ◌^◌, ◌≡◌, ◌⊎◌, inl, inr, sym, ap, ◌∙◌, Bool, true, false, arith}
use ipc_bench.Prelude.Int.{pos, to_size}
use ipc_bench.Mq.{is_short}
use ipc_bench.Zeromq.{
  Answer, blocks, fails, done, Phase, idle, requested, received, replied, ReqRep, IsReqRep, Moves,
  ServerPc, ClientPc,
}

-- The messages that the server has not answered, and those that the client has no answer to, with the
-- current one. No number fits where the process cannot stand. The server between the messages:
abbrev pub ServerWaits : ℕ → ServerPc → Type 0
ServerWaits left (ServerPc.loop_test k) = k ≡ left
ServerWaits left (ServerPc.receiving k) = suc k ≡ left
ServerWaits left ServerPc.finished = left ≡ 0
ServerWaits left _ = ⊥

-- The server with a request to answer:
abbrev pub ServerServes : ℕ → ServerPc → Type 0
ServerServes left (ServerPc.sending k) = suc k ≡ left
ServerServes left _ = ⊥

-- The client without a request of its own under way:
abbrev pub ClientIdle : ℕ → ClientPc → Type 0
ClientIdle left (ClientPc.loop_test k) = k ≡ left
ClientIdle left (ClientPc.sending k) = suc k ≡ left
ClientIdle left ClientPc.finished = left ≡ 0
ClientIdle left _ = ⊥

-- The client behind its request:
abbrev pub ClientWaits : ℕ → ClientPc → Type 0
ClientWaits left (ClientPc.receiving k) = suc k ≡ left
ClientWaits left _ = ⊥

-- What fits together, at the size of the messages.
abbrev pub Fits : ℕ → Phase → ServerPc → ClientPc → Type 0
Fits size idle v c = (left : ℕ) × ServerWaits left v × ClientIdle left c
Fits size (requested n) v c =
    (left : ℕ) × (n ≡ size) × ServerWaits (suc left) v × ClientWaits (suc left) c
Fits size received v c = (left : ℕ) × ServerServes (suc left) v × ClientWaits (suc left) c
Fits size (replied n) v c = (left : ℕ) × (n ≡ size) × ServerWaits left v × ClientWaits (suc left) c

module _ (lib : ReqRep) (law : IsReqRep lib) (size : ℕ) (small : size < 2 ^ 31) where
  -- The size as the calls get it.
  abbrev pub bytes : ℕ
  bytes = to_size (pos size)

  -- The phase and the length behind a call that returned.
  phase_after : Answer lib.Link → Phase
  phase_after (done n l) = lib.phase l
  phase_after _ = idle

  -- What the next call of a process comes to, wherever the exchange stands.
  pub server_receives :
      (l : lib.Link) (c : ClientPc) (k : ℕ) (p : Phase)
      → lib.phase l ≡ p
      → Fits bytes p (ServerPc.receiving k) c
      → (lib.rep_recv bytes l ≡ blocks)
        ⊎ (ClientWaits (suc k) c × Moves lib (lib.rep_recv bytes l) bytes received)
  server_receives l c k idle e f = inl (law.rep_waits_idle bytes l e)
  server_receives l c k (requested n) e (left, same, v, w) = inr (
    rw v w,
    subst (λ m. Moves lib (lib.rep_recv bytes l) m received) same (law.rep_receives bytes n l e),
  )
  server_receives l c k received e (left, v, w) = elim v [ ]
  server_receives l c k (replied n) e f = inl (law.rep_waits_replied bytes n l e)

  pub server_sends :
      (l : lib.Link) (c : ClientPc) (k : ℕ) (p : Phase)
      → lib.phase l ≡ p
      → Fits bytes p (ServerPc.sending k) c
      → ClientWaits (suc k) c × Moves lib (lib.rep_send bytes l) bytes (replied bytes)
  server_sends l c k idle e (left, v, w) = elim v [ ]
  server_sends l c k (requested n) e (left, same, v, w) = elim v [ ]
  server_sends l c k received e (left, v, w) = (rw v w, law.rep_sends bytes l e)
  server_sends l c k (replied n) e (left, same, v, w) = elim v [ ]

  pub client_sends :
      (l : lib.Link) (v : ServerPc) (k : ℕ) (p : Phase)
      → lib.phase l ≡ p
      → Fits bytes p v (ClientPc.sending k)
      → ServerWaits (suc k) v × Moves lib (lib.req_send bytes l) bytes (requested bytes)
  client_sends l v k idle e (left, w, c) = (rw c w, law.req_sends bytes l e)
  client_sends l v k (requested n) e (left, same, w, c) = elim c [ ]
  client_sends l v k received e (left, w, c) = elim c [ ]
  client_sends l v k (replied n) e (left, same, w, c) = elim c [ ]

  pub client_receives :
      (l : lib.Link) (v : ServerPc) (k : ℕ) (p : Phase)
      → lib.phase l ≡ p
      → Fits bytes p v (ClientPc.receiving k)
      → (lib.req_recv bytes l ≡ blocks)
        ⊎ (ServerWaits k v × Moves lib (lib.req_recv bytes l) bytes idle)
  client_receives l v k idle e (left, w, c) = elim c [ ]
  client_receives l v k (requested n) e f = inl (law.req_waits_requested bytes n l e)
  client_receives l v k received e f = inl (law.req_waits_received bytes l e)
  client_receives l v k (replied n) e (left, same, w, c) =
      let agree : k ≡ left = omega arith in
      inr (
        rw agree w,
        subst (λ m. Moves lib (lib.req_recv bytes l) m idle) same (law.req_receives bytes n l e),
      )

  pub not_short : is_short bytes (pos size) ≡ false
  not_short = ground arith

  -- What an answer that is known fixes.
  pub known :
      {a : Answer lib.Link} {n m : ℕ} {l : lib.Link} {p : Phase}
      → a ≡ done n l
      → Moves lib a m p
      → (lib.phase l ≡ p) × (is_short n (pos size) ≡ is_short m (pos size))
  unfolding phase_after
  known {n} {m} e (l', e', q) = (ap phase_after (sym e ∙ e') ∙ q, ap short (sym e ∙ e'))
    where
      short : Answer lib.Link → Bool
      short (done n l) = is_short n (pos size)
      short _ = true

  pub never_fails : {a : Answer lib.Link} {m : ℕ} {p : Phase} → a ≡ fails → Moves lib a m p → ⊥
  never_fails e (l', e', q) = ground arith

  pub never_short :
      {a : Answer lib.Link} {n : ℕ} {l : lib.Link} {p : Phase}
      → a ≡ done n l
      → is_short n (pos size) ≡ true
      → Moves lib a bytes p
      → ⊥
  never_short e h m = ground (arith, (known e m).1, not_short)

  pub blocked : {a : Answer lib.Link} {n : ℕ} {l : lib.Link} → a ≡ blocks → a ≡ done n l → ⊥
  blocked e e' = ground arith

  pub blocked_fails : {a : Answer lib.Link} → a ≡ blocks → a ≡ fails → ⊥
  blocked_fails e e' = ground arith
