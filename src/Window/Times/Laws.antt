-- ===== src/Window/Times/Laws.antt =====
-- What the two updates do to each slot of the array of times.
use ipc_bench.Prelude.{
  ℕ, zero, suc, ◌+◌, ◌-◌, ◌^◌, ◌≤◌, ◌<◌, ◌≡◌, refl, ◌∙◌, ◌&&◌, List, [], ◌∷◌, some, arith, min, ltb,
  leb, ◌==◌, if◌then◌else◌, length, get_elem?, get_or, set, length-set, sub64,
}
use ipc_bench.Window.Times.{fill_times, end_index, update_write_times, update_read_write_times}

lt-length_of_get_elem? : (times : List ℕ) (j x : ℕ) → get_elem? times j ≡ some x → j < length times
lt-length_of_get_elem? [] j x e = ground arith
lt-length_of_get_elem? (y ∷ times) zero x e = omega arith
lt-length_of_get_elem? (y ∷ times) (suc j) x e = omega (arith, lt-length_of_get_elem? times j x e)

get_or_of_get_elem? : (times : List ℕ) (j x : ℕ) → get_elem? times j ≡ some x → get_or times j 0 ≡ x
get_or_of_get_elem? [] j x e = ground arith
get_or_of_get_elem? (y ∷ times) zero x e = ground arith
get_or_of_get_elem? (y ∷ times) (suc j) x e = get_or_of_get_elem? times j x e

get_elem?-set :
    (times : List ℕ) (i j x v : ℕ)
    → get_elem? times j ≡ some x
    → get_elem? (set times i v) j ≡ some (if i == j then v else x)
get_elem?-set [] i j x v e = ground arith
get_elem?-set (y ∷ times) zero zero x v e = ground arith
get_elem?-set (y ∷ times) zero (suc j) x v e = ground arith
get_elem?-set (y ∷ times) (suc i) zero x v e = ground arith
get_elem?-set (y ∷ times) (suc i) (suc j) x v e = ground (arith, get_elem?-set times i j x v e)

length-fill_times :
    (f : ℕ → ℕ) (rounds i : ℕ) (times : List ℕ)
    → length (fill_times f rounds i times) ≡ length times
unfolding fill_times
length-fill_times f zero i times = refl
length-fill_times f (suc rounds) i times =
    length-fill_times f rounds (i + 1) _ ∙ length-set times i (f (get_or times i 0))

get_elem?-fill_times :
    (f : ℕ → ℕ) (rounds i : ℕ) (times : List ℕ) (j x : ℕ)
    → get_elem? times j ≡ some x
    → get_elem? (fill_times f rounds i times) j
      ≡ some (if leb i j && ltb j (i + rounds) then f x else x)
unfolding fill_times
get_elem?-fill_times f zero i times j x e = ground arith
get_elem?-fill_times f (suc rounds) i times j x e = ground (
  arith,
  get_or_of_get_elem? times j x e,
  get_elem?-fill_times f rounds (i + 1) (set times i (f (get_or times i 0))) j
      (if i == j then f (get_or times i 0) else x)
      (get_elem?-set times i j x (f (get_or times i 0)) e),
)

-- The arrays keep their length.
pub length-update_times :
    (time total start num : ℕ) (times : List ℕ)
    → (length (update_write_times time times total start num) ≡ length times)
      × (length (update_read_write_times time times total start num) ≡ length times)
unfolding update_write_times update_read_write_times
length-update_times time total start num times =
    let rounds = end_index total start num - start in
    (
      ground (arith, length-fill_times (λ _. time) rounds start times),
      ground (arith, length-fill_times (λ sent. sub64 time sent) rounds start times),
    )

-- Neither update touches the memory from `total` slots on, whatever the indices are: also where
-- `start + num` wraps around.
pub update_times_in_bounds :
    (time total start num j x : ℕ) (times : List ℕ)
    → total ≤ j
    → get_elem? times j ≡ some x
    → (get_elem? (update_write_times time times total start num) j ≡ some x)
      × (get_elem? (update_read_write_times time times total start num) j ≡ some x)
unfolding update_write_times update_read_write_times
update_times_in_bounds time total start num j x times out e =
    let rounds = end_index total start num - start in
    (
      ground (arith, get_elem?-fill_times (λ _. time) rounds start times j x e),
      ground (arith, get_elem?-fill_times (λ sent. sub64 time sent) rounds start times j x e),
    )

-- A slot from `start` on, below `start + num` and `total`, is stamped with `time`; every
-- other slot stays.
pub get_elem?-update_write_times :
    (time total start num j x : ℕ) (times : List ℕ)
    → start + num < 2 ^ 64
    → get_elem? times j ≡ some x
    → get_elem? (update_write_times time times total start num) j
      ≡ some (if leb start j && ltb j (min total (start + num)) then time else x)
unfolding update_write_times
get_elem?-update_write_times time total start num j x times h e =
    ground (
      arith,
      get_elem?-fill_times (λ _. time) (end_index total start num - start) start times j x e,
    )

-- A slot in that range takes the time that has passed since its stamp; every other slot stays.
pub get_elem?-update_read_write_times :
    (time total start num j x : ℕ) (times : List ℕ)
    → start + num < 2 ^ 64
    → get_elem? times j ≡ some x
    → get_elem? (update_read_write_times time times total start num) j
      ≡ some (if leb start j && ltb j (min total (start + num)) then sub64 time x else x)
unfolding update_read_write_times
get_elem?-update_read_write_times time total start num j x times h e = ground (
  arith,
  get_elem?-fill_times (λ sent. sub64 time sent) (end_index total start num - start) start times j x
      e,
)

-- A slot that lies in the range of a stamp and in that of a later read, below `total`, ends as
-- the time that passed between the two (modulo 2 ^ 64), whatever it held before, if neither range
-- wraps around.
pub latency_lem :
    (sent received total start num start' num' j x : ℕ) (times : List ℕ)
    → start + num < 2 ^ 64
    → start' + num' < 2 ^ 64
    → start ≤ j
    → start' ≤ j
    → j < min total (start + num)
    → j < min total (start' + num')
    → get_elem? times j ≡ some x
    → get_elem?
        (update_read_write_times received
          (update_write_times sent times total start num)
          total
          start'
          num')
        j
      ≡ some (sub64 received sent)
latency_lem sent received total start num start' num' j x times h h' lo lo' hi hi' e = ground (
  arith,
  get_elem?-update_write_times sent total start num j x times h e,
  get_elem?-update_read_write_times received total start' num' j sent
      (update_write_times sent times total start num) h',
)
