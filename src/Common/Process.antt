-- ===== src/Common/Process.antt =====
-- source/common/process.c: the path of the build folder and the argument vectors of the children.
-- A path is the list of its bytes, without the final NUL.
pub mod Laws
pub mod Arguments
pub mod Names
use Prim.Native.String.{String}
use Prim.Native.Char.{code}
use ipc_bench.Prelude.{
  ℕ, zero, suc, ◌+◌, ◌-◌, Bool, true, false, ◌&&◌, Option, none, some, List, [], ◌∷◌, ◌++◌, ltb,
  ◌==◌, if◌then◌else◌, length, get_or, set, take, drop,
}

abbrev pub codes : String → List ℕ
codes String.[] = []
codes (String.◌∷◌ c s) = code c ∷ codes s

abbrev pub repository : List ℕ
repository = codes "ipc-bench"

abbrev pub build_path : List ℕ
build_path = codes "/build/source"

-- `strncmp(s, t, 9) == 0` for a `t` of 9 characters.
unfoldable pub starts_with : List ℕ → List ℕ → Bool
starts_with [] s = true
starts_with (c ∷ t) [] = false
starts_with (c ∷ t) (d ∷ s) = c == d && starts_with t s

-- The test in the loop: the first and the last of 9 characters, then all of them.
unfoldable pub is_match : List ℕ → ℕ → Bool
unfolding starts_with
is_match path left =
    (get_or path left 0 == b'i' && get_or path (left + 8) 0 == b'h')
    && starts_with repository (drop left path)

-- The loop, at `left = n - 1`; it ends below the first character with `left = -1`, which is the
-- result 0. The result is `left + 1` and `right` stands 8 characters behind `left`.
search : List ℕ → ℕ → ℕ
search path zero = zero
search path (suc left) = elim (is_match path left) [ true ↦ suc left | false ↦ search path left ]

-- The index of `++right`, where the build path is copied to. The path has at least 9 characters.
unfoldable pub copy_index : List ℕ → ℕ
unfolding search is_match
copy_index path = search path (length path - 8) + 8

-- `malloc(strlen(__FILE__) + strlen(BUILD_PATH))`, and the end of what `strcpy` writes: the build
-- path and its NUL.
abbrev pub allocated : List ℕ → ℕ
allocated path = length path + length build_path

unfoldable pub written_end : List ℕ → ℕ
unfolding copy_index
written_end path = copy_index path + length build_path + 1

-- What the buffer holds afterwards, up to its NUL.
unfoldable pub find_build_path : List ℕ → List ℕ
unfolding copy_index
find_build_path path = take (copy_index path) path ++ build_path

-- A string is an `A` here: only pointers are copied. `arguments[i] = argv[i]` for `i` from `i` to
-- `argc - 1`, with the rounds left.
copy_loop {ℓ} : {A : Type ℓ} → List (Option A) → ℕ → ℕ → List (Option A) → List (Option A)
copy_loop argv zero i arguments = arguments
copy_loop argv (suc rounds) i arguments =
    copy_loop argv rounds (i + 1) (set arguments i (get_or argv i none))

-- `none` when the assertion on `argc` fails; a NULL pointer is the `none` of an element.
unfoldable pub copy_arguments {ℓ} :
    {A : Type ℓ} → List (Option A) → ℕ → List (Option A) → Option (List (Option A))
unfolding copy_loop
copy_arguments arguments argc argv =
    if ltb argc 8 then some (set (copy_loop argv (argc - 1) 1 arguments) argc none) else none

-- `char *arguments[8] = {name}`, then the copy.
unfoldable pub child_arguments {ℓ} :
    {A : Type ℓ} → A → ℕ → List (Option A) → Option (List (Option A))
unfolding copy_arguments
child_arguments name argc argv =
    copy_arguments (some name ∷ none ∷ none ∷ none ∷ none ∷ none ∷ none ∷ none ∷ []) argc argv
