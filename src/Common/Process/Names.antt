-- ===== src/Common/Process/Names.antt =====
-- The names of the programs that `start_children` of source/common/process.c writes into two arrays
-- of 100 characters.
use ipc_bench.Prelude.{
  ℕ, ◌+◌, ◌*◌, ◌-◌, ◌≤◌, ◌<◌, ◌≡◌, ◌↔◌, false, List, ◌++◌, arith, length, length-append,
}
use ipc_bench.Common.Process.{codes, repository, build_path, is_match, find_build_path}
use ipc_bench.Common.Process.Laws.{find_build_path-append}

-- `sprintf(name, "%s/%s/%s-%s", build_path, prefix, prefix, role)`, without the NUL.
unfoldable pub child_name : List ℕ → List ℕ → List ℕ → List ℕ
child_name path prefix role =
    path ++ (codes "/" ++ (prefix ++ (codes "/" ++ (prefix ++ (codes "-" ++ role)))))

abbrev pub server_name : List ℕ → List ℕ → List ℕ
server_name path prefix = child_name (find_build_path path) prefix (codes "server")

abbrev pub client_name : List ℕ → List ℕ → List ℕ
client_name path prefix = child_name (find_build_path path) prefix (codes "client")

-- `char server_name[100]`
abbrev pub name_size : ℕ
name_size = 100

length-child_name :
    (path prefix role : List ℕ)
    → length (child_name path prefix role) ≡ length path + 2 * length prefix + length role + 3
unfolding child_name
length-child_name path prefix role = omega (
  arith,
  length-append path (codes "/" ++ (prefix ++ (codes "/" ++ (prefix ++ (codes "-" ++ role))))),
  length-append prefix (codes "/" ++ (prefix ++ (codes "-" ++ role))),
  length-append prefix (codes "-" ++ role),
)

module _ (before after prefix : List ℕ)
    (last : (i : ℕ)
      → length before < i
      → i < length (before ++ (repository ++ after)) - 8
      → is_match (before ++ (repository ++ after)) i ≡ false) where
  -- If `ipc-bench` is in the path of the source file, and `before` is what stands before its last
  -- occurrence, then the names of both children with their NULs fit into their arrays of 100
  -- characters exactly if `before` and twice the prefix have at most 68 characters.
  pub child_names_fit :
      ((length (server_name (before ++ (repository ++ after)) prefix) < name_size)
        ↔ (length before + 2 * length prefix ≤ 68))
      × ((length (client_name (before ++ (repository ++ after)) prefix) < name_size)
          ↔ (length before + 2 * length prefix ≤ 68))
  child_names_fit =
      let path = before ++ (repository ++ after) in
      let e = find_build_path-append before after last in
      let l : length (find_build_path path) ≡ length before + 9 + 13 = rw e (
        omega (
          arith,
          length-append (before ++ repository) build_path,
          length-append before repository,
        )) in
      let s = length-child_name (find_build_path path) prefix (codes "server") in
      let c = length-child_name (find_build_path path) prefix (codes "client") in
      ((λ h. omega arith, λ h. omega arith), (λ h. omega arith, λ h. omega arith))
