-- ===== src/Common/Tests.antt =====
-- The shared code at small arguments.
use Prim.Native.String.{String}
use mathlib.Core.Path.{subst}
use ipc_bench.Prelude.{
  ℕ, ◌+◌, ◌-◌, ◌*◌, ◌%◌, ◌^◌, ◌≤◌, ◌<◌, ◌≡◌, ◌≢◌, ◌↔◌, refl, Bool, true, false, List, [], ◌∷◌, ◌++◌,
  some, arith, ap, ◌∙◌, ℕ_discrete, length, get_or, length-append,
}
use ipc_bench.Prelude.Int.{ℤ, pos, is_negative, is_positive}
use ipc_bench.Common.Arguments.{Parsed, parse_arguments}
use ipc_bench.Common.Arguments.Laws.{find_last, value_or, parse_arguments-find_last}
use ipc_bench.Common.Benchmarks.{Benchmarks, int32_max, setup_benchmarks}
use ipc_bench.Common.Benchmarks.Laws.{
  Sample, measure, minimum_of, maximum_of, sum_of, measure_from_setup,
}
use ipc_bench.Common.Analysis.{compare_ull_longs, Summary, analyze_array}
use ipc_bench.Common.Analysis.Laws.{Among, Encloses, analyze_array_lem, compare_ull_longs_sign}
use ipc_bench.Common.Clock.{now}
use ipc_bench.Common.Clock.Laws.{now_resolution}
use ipc_bench.Common.Process.{
  codes, repository, build_path, is_match, find_build_path, allocated, written_end,
}
use ipc_bench.Common.Process.Laws.{get_or-append, find_build_path_lem}
use ipc_bench.Common.Process.Names.{server_name, client_name, name_size, child_names_fit}
use ipc_bench.Common.Signals.{Both, default_action, Process, SigAction}

abbrev latencies : List ℕ
latencies = 40 ∷ 10 ∷ 30 ∷ []

-- The order does not matter for the length.
abbrev unsorted : List ℕ → List ℕ
unsorted l = l

analyze_array_example :
    (s : Summary) × (analyze_array unsorted latencies ≡ some s)
    × Among s.least latencies
    × Among s.most latencies
    × Encloses s.least s.most latencies
analyze_array_example = analyze_array_lem unsorted 40 (10 ∷ 30 ∷ []) (λ l. refl)

-- Three seconds against half a second.
compare_ull_longs_sign_example :
    (◌≡◌ {A = ℕ} 3000000000 500000000 → compare_ull_longs 3000000000 500000000 ≡ pos 0)
    × (500000000 < 3000000000
        → 3000000000 < 500000000 + 2 ^ 31
        → is_positive (compare_ull_longs 3000000000 500000000) ≡ true)
    × (3000000000 < 500000000
        → 500000000 ≤ 3000000000 + 2 ^ 31
        → is_negative (compare_ull_longs 3000000000 500000000) ≡ true)
    × (500000000 + 2 ^ 31 ≤ 3000000000
        → 3000000000 < 500000000 + 2 ^ 32
        → is_negative (compare_ull_longs 3000000000 500000000) ≡ true)
    × (3000000000 + 2 ^ 31 < 500000000
        → 500000000 < 3000000000 + 2 ^ 32
        → is_positive (compare_ull_longs 3000000000 500000000) ≡ true)
compare_ull_longs_sign_example =
    compare_ull_longs_sign 3000000000 500000000 (omega arith) (omega arith)

abbrev bench : Benchmarks
bench = record {
  total_start = 0;
  single_start = 0;
  minimum = 0;
  maximum = 0;
  sum = 0;
  squared_sum = 0;
}

abbrev samples : List Sample
samples = (110, 140) ∷ (150, 170) ∷ []

measure_from_setup_example :
    let b = measure samples (setup_benchmarks 100 bench) in
    (b.minimum ≡ minimum_of int32_max samples)
    × (b.maximum ≡ maximum_of samples)
    × (b.sum ≡ sum_of (λ time. time) samples % 2 ^ 64)
    × (b.squared_sum ≡ sum_of (λ time. time * time) samples % 2 ^ 64)
    × (b.total_start ≡ 100)
measure_from_setup_example = measure_from_setup 100 samples bench

-- The number of characters stands in for the value.
abbrev size_of : String → ℤ
size_of s = pos (length (codes s))

abbrev options : List Parsed
options = (b's', "1") ∷ (b'?', "") ∷ (b's', "22") ∷ []

parse_arguments_example : parse_arguments size_of options ≡ record {
  size = value_or size_of (pos 4096) (find_last b's' options);
  count = value_or size_of (pos 1000) (find_last b'c' options);
  rate = value_or size_of (pos 100) (find_last b'r' options);
}
parse_arguments_example = parse_arguments-find_last size_of options

abbrev source_path : List ℕ
source_path = codes "/home/" ++ (repository ++ codes "/c")

no_match_at_7 : is_match source_path 7 ≡ false
unfolding is_match
no_match_at_7 = refl

no_match_at_8 : is_match source_path 8 ≡ false
unfolding is_match
no_match_at_8 = refl

no_later_match :
    (i : ℕ)
    → length (codes "/home/") < i
    → i < length source_path - 8
    → is_match source_path i ≡ false
no_later_match i lo hi = elim (ℕ_discrete i 7) [
  | yes e ↦ ap (is_match source_path) e ∙ no_match_at_7
  | no ne ↦ ap (is_match source_path) (later ne) ∙ no_match_at_8
]
  where
    later : i ≢ 7 → i ≡ 8
    later ne = omega arith

occurs_nowhere_later :
    (b a : List ℕ) → source_path ≡ b ++ (repository ++ a) → length b ≤ length (codes "/home/")
occurs_nowhere_later b a e =
    let tail : length (repository ++ a) ≡ 9 + length a = omega arith in
    let total : length source_path ≡ length b + length (repository ++ a) =
      ap length e ∙ length-append b (repository ++ a) in
    let first : get_or source_path (length b + 0) 0 ≡ b'i' =
      ap (λ l. get_or l (length b + 0) 0) e ∙ get_or-append b (repository ++ a) 0 in
    elim (ℕ_discrete (length b) 7) [
      | yes n ↦
          let p = subst (λ n. get_or source_path (n + 0) 0 ≡ b'i') n first in
          absurd (let f : ⊥ = omega arith in f)
      | no ne ↦ elim (ℕ_discrete (length b) 8) [
        | yes n ↦
            let p = subst (λ n. get_or source_path (n + 0) 0 ≡ b'i') n first in
            absurd (let f : ⊥ = omega arith in f)
        | no ne' ↦ omega arith
      ]
    ]

find_build_path_example :
    (find_build_path source_path ≡ (codes "/home/" ++ repository) ++ build_path)
    × ((written_end source_path ≤ allocated source_path) ↔ (codes "/c" ≢ []))
find_build_path_example = find_build_path_lem (codes "/home/") (codes "/c") occurs_nowhere_later

abbrev action : SigAction
action = record {
  handler = default_action;
  restarts = false;
  mask = record { usr1 = true; usr2 = true };
}

abbrev process : Process
process = record {
  handlers = record { usr1 = default_action; usr2 = default_action };
  blocked = record { usr1 = false; usr2 = false };
}

abbrev first_fails : Both Bool
first_fails = record { usr1 = false; usr2 = true }

child_names_fit_example :
    ((length (server_name source_path (codes "domain")) < name_size)
      ↔ (length (codes "/home/") + 2 * length (codes "domain") ≤ 68))
    × ((length (client_name source_path (codes "domain")) < name_size)
        ↔ (length (codes "/home/") + 2 * length (codes "domain") ≤ 68))
child_names_fit_example =
    child_names_fit (codes "/home/") (codes "/c") (codes "domain") no_later_match

now_resolution_example :
    let time = 1_700_000_000 * 10 ^ 9 + 100 in
    let interval = 1_700_000_000 * 10 ^ 9 + 700 - time in
    (now 1_700_000_000 100 % 256 ≡ 0)
    × (now 1_700_000_000 100 ≤ time + 128)
    × (time ≤ now 1_700_000_000 100 + 128)
    × (now 1_700_000_000 100 ≤ now 1_700_000_000 700)
    × ((now 1_700_000_000 700 - now 1_700_000_000 100) % 256 ≡ 0)
    × (now 1_700_000_000 700 - now 1_700_000_000 100 ≤ interval + 256)
    × (interval ≤ now 1_700_000_000 700 - now 1_700_000_000 100 + 256)
now_resolution_example =
    now_resolution 1_700_000_000 100 1_700_000_000 700 (omega arith) (omega arith) (omega arith)
      (omega arith)

-- 600 ns are measured as 768.
measured_interval : now 1_700_000_000 700 - now 1_700_000_000 100 ≡ 768
unfolding now
measured_interval = refl
