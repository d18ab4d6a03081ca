-- ===== src/Common/Analysis/Laws.antt =====
-- The extremes of the latencies, the reads of the median, and the comparison that sorts them.
use ipc_bench.Prelude.{
  ℕ, zero, suc, ◌+◌, ◌-◌, ◌*◌, ◌/◌, ◌%◌, ◌^◌, ◌≤◌, ◌<◌, ◌≡◌, ◌≢◌, refl, sym, ◌⊎◌, inl, inr, true,
  some, List, [], ◌∷◌, arith, ltb, ◌==◌, if◌then◌else◌, length, All, get_elem?, add64, Bool-cases,
}
use ipc_bench.Prelude.Int.{pos, is_negative, is_positive}
use ipc_bench.Common.Analysis.{
  compare_ull_longs, find_extremes, twice_median, Summary, analyze_array,
}

-- The extremes lie among the values, and enclose them.
abbrev pub Among : ℕ → List ℕ → Type 0
Among a [] = ⊥
Among a (x ∷ xs) = (a ≡ x) ⊎ Among a xs

abbrev pub Encloses : ℕ → ℕ → List ℕ → Type 0
Encloses least most = All (λ x. (least ≤ x) × (x ≤ most))

find_extremes-Encloses :
    (arr : List ℕ) (least most : ℕ)
    → least ≤ most
    → let (a, b) = find_extremes least most arr in (a ≤ least) × (most ≤ b) × Encloses a b arr
unfolding find_extremes
find_extremes-Encloses [] least most h = omega arith
find_extremes-Encloses (x ∷ arr) least most h =
    let least' : ℕ = if ltb x least then x else least in
    let most' : ℕ = if ltb x least then most else if ltb most x then x else most in
    let (e₁, e₂, e₃) = find_extremes-Encloses arr least' most' (ground arith) in
    (ground arith, ground arith, ((ground arith, ground arith), e₃))

find_extremes-Among :
    (arr : List ℕ) (least most : ℕ)
    → let (a, b) = find_extremes least most arr in
      ((a ≡ least) ⊎ Among a arr) × ((b ≡ most) ⊎ Among b arr)
unfolding find_extremes
find_extremes-Among [] least most = (inl refl, inl refl)
find_extremes-Among (x ∷ arr) least most =
    let least' : ℕ = if ltb x least then x else least in
    let most' : ℕ = if ltb x least then most else if ltb most x then x else most in
    let (e₁, e₂) = find_extremes-Among arr least' most' in (ground arith, ground arith)

get_elem?-of-lt : (arr : List ℕ) (i : ℕ) → i < length arr → (x : ℕ) × (get_elem? arr i ≡ some x)
get_elem?-of-lt [] i h = elim h [ ]
get_elem?-of-lt (x ∷ arr) zero h = (x, refl)
get_elem?-of-lt (x ∷ arr) (suc i) h = get_elem?-of-lt arr i (omega arith)

twice_median-in_bounds :
    (arr : List ℕ) (size : ℕ)
    → size ≡ length arr
    → 0 < size
    → (m : ℕ) × (twice_median size arr ≡ some m)
unfolding twice_median
twice_median-in_bounds arr size e h = elim (Bool-cases (size % 2 == 0)) [
  | inl even ↦
      let (a, ea) = get_elem?-of-lt arr (size / 2 - 1) (ground arith) in
      let (b, eb) = get_elem?-of-lt arr (size / 2) (omega arith) in (add64 a b, ground arith)
  | inr odd ↦ let (a, ea) = get_elem?-of-lt arr (size / 2) (omega arith) in (2 * a, ground arith)
]

-- An analysis of at least one latency reads nothing outside the array, if `qsort` keeps its
-- length; it reports the least and the largest latency: both are among the latencies, and all
-- others lie between.
pub analyze_array_lem :
    (qsort : List ℕ → List ℕ) (x : ℕ) (arr : List ℕ)
    → ((l : List ℕ) → length (qsort l) ≡ length l)
    → (s : Summary) × (analyze_array qsort (x ∷ arr) ≡ some s)
      × Among s.least (x ∷ arr)
      × Among s.most (x ∷ arr)
      × Encloses s.least s.most (x ∷ arr)
unfolding analyze_array
analyze_array_lem qsort x arr keeps =
    let (m, em) =
      twice_median-in_bounds (qsort (x ∷ arr)) (length (x ∷ arr)) (sym (keeps (x ∷ arr)))
        (omega arith) in
    let (in_least, in_most) = find_extremes-Among arr x x in
    let (le_least, le_most, enclosed) = find_extremes-Encloses arr x x (omega arith) in
    let (least, most) = find_extremes x x arr in
    (
      record { least = least; most = most; median_doubled = m },
      ground (arith, em),
      in_least,
      in_most,
      ((le_least, le_most), enclosed),
    )

-- The comparison of two equal latencies is 0. If the first is the larger one by less than 2 ^ 31,
-- it is positive; if it is the smaller one by 2 ^ 31 at most, it is negative.
compare_ull_longs_near :
    (a b : ℕ)
    → a < 2 ^ 64
    → b < 2 ^ 64
    → (a ≡ b → compare_ull_longs a b ≡ pos 0)
      × (b < a → a < b + 2 ^ 31 → is_positive (compare_ull_longs a b) ≡ true)
      × (a < b → b ≤ a + 2 ^ 31 → is_negative (compare_ull_longs a b) ≡ true)
unfolding compare_ull_longs
compare_ull_longs_near a b ha hb = (λ h. ground arith, λ h k. ground arith, λ h k. ground arith)

-- The comparison has the wrong sign on latencies that are 2 ^ 31 or more and less than 2 ^ 32
-- apart: the larger one counts as the smaller, and the smaller as the larger (unless they are
-- exactly 2 ^ 31 apart).
compare_ull_longs_far :
    (a b : ℕ)
    → a < 2 ^ 64
    → b + 2 ^ 31 ≤ a
    → a < b + 2 ^ 32
    → (is_negative (compare_ull_longs a b) ≡ true)
      × (a ≢ b + 2 ^ 31 → is_positive (compare_ull_longs b a) ≡ true)
unfolding compare_ull_longs
compare_ull_longs_far a b ha lo hi = (ground arith, λ ne. ground arith)

-- The sign of the comparison of two latencies that are less than 2 ^ 32 apart. It is 0 for equal ones,
-- and the sign of the difference if they are less than 2 ^ 31 apart (or the first is smaller by
-- exactly that); for the others it is the opposite.
pub compare_ull_longs_sign :
    (a b : ℕ)
    → a < 2 ^ 64
    → b < 2 ^ 64
    → (a ≡ b → compare_ull_longs a b ≡ pos 0)
      × (b < a → a < b + 2 ^ 31 → is_positive (compare_ull_longs a b) ≡ true)
      × (a < b → b ≤ a + 2 ^ 31 → is_negative (compare_ull_longs a b) ≡ true)
      × (b + 2 ^ 31 ≤ a → a < b + 2 ^ 32 → is_negative (compare_ull_longs a b) ≡ true)
      × (a + 2 ^ 31 < b → b < a + 2 ^ 32 → is_positive (compare_ull_longs a b) ≡ true)
compare_ull_longs_sign a b ha hb =
    let (equal, larger, smaller) = compare_ull_longs_near a b ha hb in
    (
      equal,
      larger,
      smaller,
      λ lo hi. (compare_ull_longs_far a b ha lo hi).0,
      λ lo hi. (compare_ull_longs_far b a hb (omega arith) hi).1 (λ e. omega arith),
    )
