-- ===== src/Common/Analysis.antt =====
-- source/common/benchmarks.c: `analyze_array` on the latencies. The mean and the deviation are
-- floating-point and left out; the median is given doubled.
pub mod Laws
use ipc_bench.Prelude.{
  ℕ, ◌+◌, ◌-◌, ◌*◌, ◌/◌, ◌%◌, Option, none, some, List, [], ◌∷◌, ltb, ◌==◌, if◌then◌else◌, length,
  get_elem?, add64, sub64,
}
use ipc_bench.Prelude.Int.{ℤ, to_int}

-- `compareULLongs`: the difference of two `unsigned long long`, as an `int`.
unfoldable pub compare_ull_longs : ℕ → ℕ → ℤ
compare_ull_longs a b = to_int (sub64 a b)

-- `compar`
unfoldable pub compar : ℕ → ℕ → ℤ
compar a b = to_int (sub64 a b)

-- The loop over the elements behind the first.
unfoldable pub find_extremes : ℕ → ℕ → List ℕ → ℕ × ℕ
find_extremes least most [] = (least, most)
find_extremes least most (x ∷ arr) =
    find_extremes (if ltb x least then x else least)
      (if ltb x least then most else if ltb most x then x else most) arr

-- Twice the median of an array of `size` elements; the sum of the two in the middle is an
-- `unsigned long long`. `none` where an index lies outside the array.
unfoldable pub twice_median : ℕ → List ℕ → Option ℕ
twice_median size arr =
    if size % 2 == 0
    then elim (get_elem? arr (size / 2 - 1)) [
      | none ↦ none
      | some a ↦ elim (get_elem? arr (size / 2)) [ none ↦ none | some b ↦ some (add64 a b) ]
    ]
    else elim (get_elem? arr (size / 2)) [ none ↦ none | some a ↦ some (2 * a) ]

pub record Summary : Type 0 where
  pub least : ℕ
  pub most : ℕ
  pub median_doubled : ℕ

-- `qsort` sorts the array in place, by `compare_ull_longs`. `none` for a read outside the array:
-- of `arr[0]` where there is none, or for the median.
unfoldable pub analyze_array : (List ℕ → List ℕ) → List ℕ → Option Summary
analyze_array qsort [] = none
analyze_array qsort (x ∷ arr) =
    let (least, most) = find_extremes x x arr in
    elim (twice_median (length (x ∷ arr)) (qsort (x ∷ arr))) [
      | none ↦ none
      | some m ↦ some (record { least = least; most = most; median_doubled = m })
    ]
