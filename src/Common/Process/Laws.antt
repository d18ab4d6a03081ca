-- ===== src/Common/Process/Laws.antt =====
-- Where the build path is put, and what a child receives.
use mathlib.Core.List.{append_assoc}
use ipc_bench.Prelude.{
  ℕ, zero, suc, ◌+◌, ◌-◌, ◌≤◌, ◌<◌, ◌≡◌, ◌≢◌, refl, inl, inr, Bool-cases, true, false, List, [],
  ◌∷◌, ◌++◌, arith, ap, ◌∙◌, sym, ℕ_discrete, ◌↔◌, length, get_or, take, drop, length-append,
}
use ipc_bench.Common.Process.{
  repository, build_path, starts_with, is_match, search, copy_index, find_build_path, allocated,
  written_end,
}

starts_with-append : (t s : List ℕ) → starts_with t (t ++ s) ≡ true
unfolding starts_with
starts_with-append [] s = refl
starts_with-append (c ∷ t) s = ground (arith, starts_with-append t s)

drop-append : (s t : List ℕ) → drop (length s) (s ++ t) ≡ t
drop-append [] t = refl
drop-append (c ∷ s) t = drop-append s t

take-append : (s t : List ℕ) → take (length s) (s ++ t) ≡ s
take-append [] t = refl
take-append (c ∷ s) t = rw (take-append s t)

pub get_or-append : (s t : List ℕ) (i : ℕ) → get_or (s ++ t) (length s + i) 0 ≡ get_or t i 0
get_or-append [] t i = let e : 0 + i ≡ i = omega arith in ap (λ k. get_or t k 0) e
get_or-append (c ∷ s) t i =
    let e : suc (length s) + i ≡ suc (length s + i) = omega arith in
    ap (λ k. get_or (c ∷ (s ++ t)) k 0) e ∙ get_or-append s t i

match-append :
    (before after : List ℕ) → is_match (before ++ (repository ++ after)) (length before) ≡ true
unfolding is_match
match-append before after = ground (
  arith,
  get_or-append before (repository ++ after) 0,
  get_or-append before (repository ++ after) 8,
  drop-append before (repository ++ after),
  starts_with-append repository after,
)

-- The loop stops at the last match at or below its start.
search-last :
    (path : List ℕ) (n left : ℕ)
    → left < n
    → is_match path left ≡ true
    → ((i : ℕ) → left < i → i < n → is_match path i ≡ false)
    → search path n ≡ suc left
unfolding search
search-last path zero left h found later = elim h [ ]
search-last path (suc n) left h found later = elim (ℕ_discrete n left) [
  | yes e ↦ ground arith
  | no ne ↦
      let rest =
        search-last path n left (omega arith) found (λ i lo hi. later i lo (omega arith)) in
      ground (arith, later n)
]

length_pos : (l : List ℕ) → l ≢ [] → 0 < length l
length_pos [] ne = absurd (ne refl)
length_pos (c ∷ l) ne = omega arith

starts_with_sound : (t s : List ℕ) → starts_with t s ≡ true → s ≡ t ++ drop (length t) s
unfolding starts_with
starts_with_sound [] s h = refl
starts_with_sound (c ∷ t) [] h = ground arith
starts_with_sound (c ∷ t) (d ∷ s) h =
    let rest = starts_with_sound t s (ground arith) in let e : c ≡ d = ground arith in ground arith

take-drop : (i : ℕ) (s : List ℕ) → s ≡ take i s ++ drop i s
take-drop zero s = refl
take-drop (suc i) [] = refl
take-drop (suc i) (c ∷ s) = ap (λ l. c ∷ l) (take-drop i s)

length-take : (i : ℕ) (s : List ℕ) → i ≤ length s → length (take i s) ≡ i
length-take zero s h = refl
length-take (suc i) [] h = ground arith
length-take (suc i) (c ∷ s) h = let rest = length-take i s (omega arith) in omega arith

-- A match is an occurrence of `ipc-bench`.
match_lem :
    (path : List ℕ) (i : ℕ)
    → is_match path i ≡ true
    → path ≡ take i path ++ (repository ++ drop 9 (drop i path))
unfolding is_match
match_lem path i h =
    let found : starts_with repository (drop i path) ≡ true = ground arith in
    take-drop i path ∙ ap (λ l. take i path ++ l) (starts_with_sound repository (drop i path) found)

module _ (before after : List ℕ)
    (last : (i : ℕ)
      → length before < i
      → i < length (before ++ (repository ++ after)) - 8
      → is_match (before ++ (repository ++ after)) i ≡ false) where
  abbrev path : List ℕ
  path = before ++ (repository ++ after)

  copy_index-last : copy_index path ≡ length before + 9
  unfolding copy_index
  copy_index-last =
      let e =
        search-last path (length path - 8) (length before)
          (omega (arith, length-append before (repository ++ after))) (match-append before after)
          last in
      omega arith

  pub find_build_path-append : find_build_path path ≡ (before ++ repository) ++ build_path
  unfolding find_build_path
  find_build_path-append =
      let e : length (before ++ repository) ≡ length before + 9 =
        omega (arith, length-append before repository) in
      ap (λ k. take k path ++ build_path) (copy_index-last ∙ sym e)
      ∙ rw (← append_assoc before repository after)
          (ap (λ l. l ++ build_path) (take-append (before ++ repository) after))

  written_end-le-allocated : (written_end path ≤ allocated path) ↔ (after ≢ [])
  unfolding written_end
  written_end-le-allocated =
      let e = copy_index-last in
      let l = length-append before (repository ++ after) in
      (
        λ h. λ none_left. let z : length after ≡ 0 = ap length none_left in omega arith,
        λ more. let z = length_pos after more in omega arith,
      )

-- If `ipc-bench` is in the path of the source file, and it stands nowhere behind the place named here,
-- then the result is the path up to and with this last occurrence, and then the build folder. The copy
-- stays inside the memory that `malloc` gave exactly if something follows that occurrence.
pub find_build_path_lem :
    (before after : List ℕ)
    → ((b a : List ℕ)
        → before ++ (repository ++ after) ≡ b ++ (repository ++ a)
        → length b ≤ length before)
    → let path = before ++ (repository ++ after) in
      (find_build_path path ≡ (before ++ repository) ++ build_path)
      × ((written_end path ≤ allocated path) ↔ (after ≢ []))
find_build_path_lem before after last = (
  find_build_path-append before after none_later,
  written_end-le-allocated before after none_later,
)
  where
    whole : List ℕ
    whole = before ++ (repository ++ after)

    none_later : (i : ℕ) → length before < i → i < length whole - 8 → is_match whole i ≡ false
    none_later i lo hi = elim (Bool-cases (is_match whole i)) [
      | inr e ↦ e
      | inl e ↦
          let far = last (take i whole) (drop 9 (drop i whole)) (match_lem whole i e) in
          let n = length-take i whole (omega arith) in absurd (let f : ⊥ = omega arith in f)
    ]
