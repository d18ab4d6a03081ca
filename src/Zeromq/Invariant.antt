-- ===== src/Zeromq/Invariant.antt =====
-- What every step of the two processes keeps.
use mathlib.Core.Path.{subst}
use ipc_bench.Prelude.{ℕ, suc, ◌<◌, ◌^◌, inl, inr, refl, sym}
use ipc_bench.Prelude.Int.{pos}
use ipc_bench.Zeromq.{
  Phase, idle, requested, received, replied, ReqRep, IsReqRep, ServerPc, ClientPc, ServerMove,
  ClientMove, Reach, start, server_step, client_step,
}
use ipc_bench.Zeromq.Calls.{
  Fits, bytes, server_receives, server_sends, client_sends, client_receives, known, never_fails,
  never_short, blocked_fails, blocked,
}

module _ (lib : ReqRep) (law : IsReqRep lib) (size : ℕ) (small : size < 2 ^ 31) where
  -- The invariant.
  abbrev pub Inv : lib.Link → ServerPc → ClientPc → Type 0
  Inv l v c = Fits (bytes lib law size small) (lib.phase l) v c

  server_leaves :
      (c : ClientPc) (p : Phase)
      → Fits (bytes lib law size small) p (ServerPc.loop_test 0) c
      → Fits (bytes lib law size small) p ServerPc.finished c
  server_leaves c idle (left, v, w) = (left, sym v, w)
  server_leaves c (requested n) (left, same, v, w) = (left, same, sym v, w)
  server_leaves c received (left, v, w) = elim v [ ]
  server_leaves c (replied n) (left, same, v, w) = (left, same, sym v, w)

  server_enters :
      (c : ClientPc) (k : ℕ) (p : Phase)
      → Fits (bytes lib law size small) p (ServerPc.loop_test (suc k)) c
      → Fits (bytes lib law size small) p (ServerPc.receiving k) c
  server_enters c k idle f = f
  server_enters c k (requested n) f = f
  server_enters c k received (left, v, w) = elim v [ ]
  server_enters c k (replied n) f = f

  client_leaves :
      (v : ServerPc) (p : Phase)
      → Fits (bytes lib law size small) p v (ClientPc.loop_test 0)
      → Fits (bytes lib law size small) p v ClientPc.finished
  client_leaves v idle (left, w, c) = (left, w, sym c)
  client_leaves v (requested n) (left, same, w, c) = elim c [ ]
  client_leaves v received (left, w, c) = elim c [ ]
  client_leaves v (replied n) (left, same, w, c) = elim c [ ]

  client_enters :
      (v : ServerPc) (k : ℕ) (p : Phase)
      → Fits (bytes lib law size small) p v (ClientPc.loop_test (suc k))
      → Fits (bytes lib law size small) p v (ClientPc.sending k)
  client_enters v k idle f = f
  client_enters v k (requested n) (left, same, w, c) = elim c [ ]
  client_enters v k received (left, w, c) = elim c [ ]
  client_enters v k (replied n) (left, same, w, c) = elim c [ ]

  ServerMove-Inv :
      {l l' : lib.Link} {v v' : ServerPc} (c : ClientPc)
      → ServerMove lib (pos size) l v l' v'
      → Inv l v c
      → Inv l' v' c
  ServerMove-Inv {l} c ServerMove.leave f = server_leaves c (lib.phase l) f
  ServerMove-Inv {l} c (ServerMove.enter k) f = server_enters c k (lib.phase l) f
  ServerMove-Inv {l} c (ServerMove.receive k n {l'} e h) f =
      elim (server_receives lib law size small l c k (lib.phase l) refl f) [
        | inl b ↦ absurd (blocked lib law size small b e)
        | inr (w, m) ↦
            subst (λ p. Fits (bytes lib law size small) p (ServerPc.sending k) c)
              (sym (known lib law size small e m).0) (k, refl, w)
      ]
  ServerMove-Inv {l} c (ServerMove.receive_short k n e h) f =
      elim (server_receives lib law size small l c k (lib.phase l) refl f) [
        | inl b ↦ absurd (blocked lib law size small b e)
        | inr (w, m) ↦ absurd (never_short lib law size small e h m)
      ]
  ServerMove-Inv {l} c (ServerMove.receive_fails k e) f =
      elim (server_receives lib law size small l c k (lib.phase l) refl f) [
        | inl b ↦ absurd (blocked_fails lib law size small b e)
        | inr (w, m) ↦ absurd (never_fails lib law size small e m)
      ]
  ServerMove-Inv {l} c (ServerMove.send k n {l'} e h) f =
      let (w, m) = server_sends lib law size small l c k (lib.phase l) refl f in
      subst (λ p. Fits (bytes lib law size small) p (ServerPc.loop_test k) c)
        (sym (known lib law size small e m).0) (k, refl, refl, w)
  ServerMove-Inv {l} c (ServerMove.send_short k n e h) f = absurd (
      never_short lib law size small e h
        (server_sends lib law size small l c k (lib.phase l) refl f).1)
  ServerMove-Inv {l} c (ServerMove.send_fails k e) f = absurd (
      never_fails lib law size small e
        (server_sends lib law size small l c k (lib.phase l) refl f).1)

  ClientMove-Inv :
      {l l' : lib.Link} (v : ServerPc) {c c' : ClientPc}
      → ClientMove lib (pos size) l c l' c'
      → Inv l v c
      → Inv l' v c'
  ClientMove-Inv {l} v ClientMove.leave f = client_leaves v (lib.phase l) f
  ClientMove-Inv {l} v (ClientMove.enter k) f = client_enters v k (lib.phase l) f
  ClientMove-Inv {l} v (ClientMove.send k n {l'} e h) f =
      let (w, m) = client_sends lib law size small l v k (lib.phase l) refl f in
      subst (λ p. Fits (bytes lib law size small) p v (ClientPc.receiving k))
        (sym (known lib law size small e m).0) (k, refl, w, refl)
  ClientMove-Inv {l} v (ClientMove.send_short k n e h) f = absurd (
      never_short lib law size small e h
        (client_sends lib law size small l v k (lib.phase l) refl f).1)
  ClientMove-Inv {l} v (ClientMove.send_fails k e) f = absurd (
      never_fails lib law size small e
        (client_sends lib law size small l v k (lib.phase l) refl f).1)
  ClientMove-Inv {l} v (ClientMove.receive k n {l'} e h) f =
      elim (client_receives lib law size small l v k (lib.phase l) refl f) [
        | inl b ↦ absurd (blocked lib law size small b e)
        | inr (w, m) ↦
            subst (λ p. Fits (bytes lib law size small) p v (ClientPc.loop_test k))
              (sym (known lib law size small e m).0) (k, w, refl)
      ]
  ClientMove-Inv {l} v (ClientMove.receive_short k n e h) f =
      elim (client_receives lib law size small l v k (lib.phase l) refl f) [
        | inl b ↦ absurd (blocked lib law size small b e)
        | inr (w, m) ↦ absurd (never_short lib law size small e h m)
      ]
  ClientMove-Inv {l} v (ClientMove.receive_fails k e) f =
      elim (client_receives lib law size small l v k (lib.phase l) refl f) [
        | inl b ↦ absurd (blocked_fails lib law size small b e)
        | inr (w, m) ↦ absurd (never_fails lib law size small e m)
      ]

  pub Reach-Inv :
      {count : ℕ} {l : lib.Link} {v : ServerPc} {c : ClientPc}
      → Reach lib (pos size) count l v c
      → Inv l v c
  Reach-Inv {count} start =
      subst
        (λ p.
          Fits (bytes lib law size small) p (ServerPc.loop_test count) (ClientPc.loop_test count))
        (sym law.starts) (count, refl, refl)
  Reach-Inv {c} (server_step r m) = ServerMove-Inv c m (Reach-Inv r)
  Reach-Inv {v} (client_step r m) = ClientMove-Inv v m (Reach-Inv r)
