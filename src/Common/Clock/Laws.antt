-- ===== src/Common/Clock/Laws.antt =====
-- The resolution of `now` and how far its reading is from the time of the clock.
use ipc_bench.Prelude.{ℕ, ◌+◌, ◌-◌, ◌*◌, ◌%◌, ◌^◌, ◌≤◌, ◌<◌, ◌≡◌, refl, arith}
use ipc_bench.Common.Clock.{unit_of, nearest, to_double, now}

unit_of_now : (n : ℕ) → 2 ^ 60 ≤ n → n < 2 ^ 61 → unit_of 11 1 n ≡ 256
unfolding unit_of
unit_of_now n lo hi = ground arith

nearest-256 :
    (n : ℕ) → (nearest 256 n % 256 ≡ 0) × (nearest 256 n ≤ n + 128) × (n ≤ nearest 256 n + 128)
unfolding nearest
nearest-256 n = ground arith

nearest_mono : (m n : ℕ) → m ≤ n → nearest 256 m ≤ nearest 256 n
unfolding nearest
nearest_mono m n h = ground arith

nearest-exact : (n : ℕ) → n % 256 ≡ 0 → nearest 256 n ≡ n
unfolding nearest
nearest-exact n h = ground arith

now_lem :
    (s n : ℕ)
    → 2 ^ 60 ≤ s * 10 ^ 9
    → s * 10 ^ 9 + n < 2 ^ 61
    → now s n ≡ nearest 256 (s * 10 ^ 9 + n)
unfolding now to_double
now_lem s n lo hi =
    let t = s * 10 ^ 9 in
    let e : unit_of 11 1 t ≡ 256 = unit_of_now t lo (omega arith) in
    let e' : nearest 256 t ≡ t = nearest-exact t (omega arith) in
    let e'' : unit_of 11 1 (t + n) ≡ 256 = unit_of_now (t + n) (omega arith) hi in
    rw (e, e', e'') refl

-- Between 2006 and 2043 (2 ^ 60 to 2 ^ 61 nanoseconds) the clock shows multiples of 256 ns, off by 128 at
-- most; it does not go back, and a measured interval is a multiple of 256 ns, off by 256 at most.
pub now_resolution :
    (s n s' n' : ℕ)
    → 2 ^ 60 ≤ s * 10 ^ 9
    → s * 10 ^ 9 + n ≤ s' * 10 ^ 9 + n'
    → s' * 10 ^ 9 + n' < 2 ^ 61
    → 2 ^ 60 ≤ s' * 10 ^ 9
    → let time = s * 10 ^ 9 + n in
      let interval = s' * 10 ^ 9 + n' - time in
      (now s n % 256 ≡ 0)
      × (now s n ≤ time + 128)
      × (time ≤ now s n + 128)
      × (now s n ≤ now s' n')
      × ((now s' n' - now s n) % 256 ≡ 0)
      × (now s' n' - now s n ≤ interval + 256)
      × (interval ≤ now s' n' - now s n + 256)
now_resolution s n s' n' lo order hi lo' =
    let t = s * 10 ^ 9 + n in
    let t' = s' * 10 ^ 9 + n' in
    let e = now_lem s n lo (omega arith) in
    let e' = now_lem s' n' lo' hi in
    let (even, above, below) = nearest-256 t in
    let (even', above', below') = nearest-256 t' in
    let order' = nearest_mono t t' order in
    rw (e, e') (even, above, below, order', omega arith, omega arith, omega arith)
