-- ===== src/Common/Arguments.antt =====
-- source/common/arguments.c: the options that every program reads. `getopt_long` and `atoi` are the
-- C library's: their results are arguments here.
pub mod Laws
use Prim.Native.String.{String}
use ipc_bench.Prelude.{ℕ, Bool, true, false, List, [], ◌∷◌, ◌==◌, if◌then◌else◌}
use ipc_bench.Prelude.Int.{ℤ, pos}

-- `struct Arguments`
pub record Arguments : Type 0 where
  pub size : ℤ
  pub count : ℤ
  pub rate : ℤ

abbrev pub default_message_size : ℤ
default_message_size = pos 4096

-- The default values. The comment beside the last says `dump all messages at once`.
abbrev pub defaults : Arguments
defaults = record { size = default_message_size; count = pos 1000; rate = pos 100 }

-- One result of `getopt_long`: the character that it returns, with `optarg`. The end of the list
-- stands for its -1.
abbrev pub Parsed : Type 0
Parsed = ℕ × String

-- The cases of the `switch`.
set_option : (String → ℤ) → Parsed → Arguments → Arguments
set_option atoi (option, optarg) arguments =
    if option == b's'
    then record arguments { size = atoi optarg }
    else if option == b'c'
    then record arguments { count = atoi optarg }
    else if option == b'r'
    then record arguments { rate = atoi optarg }
    else arguments

-- The `while` loop.
parse_loop : (String → ℤ) → List Parsed → Arguments → Arguments
parse_loop atoi [] arguments = arguments
parse_loop atoi (p ∷ parsed) arguments = parse_loop atoi parsed (set_option atoi p arguments)

unfoldable pub parse_arguments : (String → ℤ) → List Parsed → Arguments
unfolding parse_loop set_option
parse_arguments atoi parsed = parse_loop atoi parsed defaults

-- The results of the second parser are characters alone; `flag` is the first of its name.
unfoldable pub check_flag : ℕ → List ℕ → Bool
check_flag flag [] = false
check_flag flag (option ∷ options) = if option == flag then true else check_flag flag options
