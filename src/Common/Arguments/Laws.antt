-- ===== src/Common/Arguments/Laws.antt =====
-- Which of several options counts.
use Prim.Native.String.{String}
use mathlib.Core.List.{Mem, mem-cons, not-mem-nil}
use mathlib.Core.Logic.Or
use ipc_bench.Prelude.{
  ℕ, ◌≡◌, ◌↔◌, refl, sym, ℕ_discrete, true, List, [], ◌∷◌, Option, none, some, arith, ◌==◌,
  if◌then◌else◌,
}
use ipc_bench.Prelude.Int.{ℤ, pos}
use ipc_bench.Common.Arguments.{
  Arguments, Parsed, set_option, parse_loop, parse_arguments, check_flag,
}

-- The argument of the last result with this character, searched from the end.
abbrev pub find_last : ℕ → List Parsed → Option String
find_last option [] = none
find_last option ((o, optarg) ∷ parsed) = elim (find_last option parsed) [
  | some last ↦ some last
  | none ↦ if o == option then some optarg else none
]

abbrev pub value_or : (String → ℤ) → ℤ → Option String → ℤ
value_or atoi old none = old
value_or atoi old (some optarg) = atoi optarg

parse_loop-find_last :
    (atoi : String → ℤ) (parsed : List Parsed) (a : Arguments)
    → parse_loop atoi parsed a ≡ record {
      size = value_or atoi a.size (find_last b's' parsed);
      count = value_or atoi a.count (find_last b'c' parsed);
      rate = value_or atoi a.rate (find_last b'r' parsed);
    }
unfolding parse_loop set_option
parse_loop-find_last atoi [] a = refl
parse_loop-find_last atoi ((o, optarg) ∷ parsed) a =
    ground (arith, parse_loop-find_last atoi parsed (set_option atoi (o, optarg) a))

-- Each option of the result is the value of its last occurrence, or its default if there is none;
-- the other results of `getopt_long` change nothing.
pub parse_arguments-find_last :
    (atoi : String → ℤ) (parsed : List Parsed)
    → parse_arguments atoi parsed ≡ record {
      size = value_or atoi (pos 4096) (find_last b's' parsed);
      count = value_or atoi (pos 1000) (find_last b'c' parsed);
      rate = value_or atoi (pos 100) (find_last b'r' parsed);
    }
unfolding parse_arguments
parse_arguments-find_last atoi parsed = parse_loop-find_last atoi parsed _

-- The flag is found exactly if its character is among the results.
pub check_flag-Mem :
    (flag : ℕ) (options : List ℕ) → (check_flag flag options ≡ true) ↔ Mem flag options
unfolding check_flag
check_flag-Mem flag [] = (λ e. cc, λ m. absurd (not-mem-nil m))
check_flag-Mem flag (o ∷ options) = elim (ℕ_discrete o flag) [
  | yes e ↦ (λ _. mem-cons.1 (Or.inl (sym e)), λ _. ground arith)
  | no ne ↦ (
    λ h. mem-cons.1 (Or.inr ((check_flag-Mem flag options).0 (ground arith))),
    λ m.
        Or.elim (hlevel) (mem-cons.0 m) (λ e. absurd (ne (sym e)))
          (λ m'. let e = (check_flag-Mem flag options).1 m' in ground arith),
  )
]
