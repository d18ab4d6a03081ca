-- ===== src/Common/Process/Arguments.antt =====
-- The argument vectors of the children.
use ipc_bench.Prelude.{
  ℕ, zero, suc, ◌+◌, ◌-◌, ◌≤◌, ◌<◌, ◌≡◌, refl, ◌∙◌, ap, ◌&&◌, Option, none, some, List, [], ◌∷◌,
  arith, ltb, leb, if◌then◌else◌, length, get_or, set,
}
use ipc_bench.Common.Process.{copy_loop, child_arguments}

module _ {ℓ} {A : Type ℓ} where
  -- The slot `i` of an array of pointers; NULL outside.
  abbrev pub slot : List (Option A) → ℕ → Option A
  slot l i = get_or l i none

  slot-set :
      (l : List (Option A)) (i j : ℕ) (v : Option A)
      → i < length l
      → slot (set l i v) j ≡ (if ltb i j then slot l j else if ltb j i then slot l j else v)
  slot-set [] i j v h = elim h [ ]
  slot-set (x ∷ l) zero zero v h = refl
  slot-set (x ∷ l) zero (suc j) v h = ground arith
  slot-set (x ∷ l) (suc i) zero v h = ground arith
  slot-set (x ∷ l) (suc i) (suc j) v h = ground (arith, slot-set l i j v)

  length-set_slot : (l : List (Option A)) (i : ℕ) (v : Option A) → length (set l i v) ≡ length l
  length-set_slot [] i v = refl
  length-set_slot (x ∷ l) zero v = refl
  length-set_slot (x ∷ l) (suc i) v = ap suc (length-set_slot l i v)

  copy_loop-slot :
      (argv : List (Option A)) (rounds i : ℕ) (l : List (Option A)) (j : ℕ)
      → i + rounds ≤ length l
      → (length (copy_loop argv rounds i l) ≡ length l)
        × (slot (copy_loop argv rounds i l) j
            ≡ (if leb i j && ltb j (i + rounds) then slot argv j else slot l j))
  unfolding copy_loop
  copy_loop-slot argv zero i l j h = (refl, ground arith)
  copy_loop-slot argv (suc rounds) i l j h =
      let v = slot argv i in
      let rest =
        copy_loop-slot argv rounds (i + 1) (set l i v) j (omega (arith, length-set_slot l i v)) in
      (rest.0 ∙ length-set_slot l i v, ground (arith, slot-set l i j v))

  -- With at least one and fewer than 8 arguments a child is started with its name, the parent's
  -- arguments behind the first, and NULL after them, in an array that keeps its 8 slots.
  pub child_arguments_lem :
      (name : A) (argc : ℕ) (argv : List (Option A))
      → 0 < argc
      → argc < 8
      → (l : List (Option A)) × (child_arguments name argc argv ≡ some l)
        × (length l ≡ 8)
        × (slot l 0 ≡ some name)
        × ((j : ℕ) → 0 < j → j < argc → slot l j ≡ slot argv j)
        × (slot l argc ≡ none)
  unfolding child_arguments
  child_arguments_lem name argc argv pos small =
      let fresh : List (Option A) =
        some name ∷ none ∷ none ∷ none ∷ none ∷ none ∷ none ∷ none ∷ [] in
      let copied = copy_loop argv (argc - 1) 1 fresh in
      let at = λ (j : ℕ). copy_loop-slot argv (argc - 1) 1 fresh j (omega arith) in
      let room : argc < length copied = omega (arith, (at 0).0) in
      let final = λ (j : ℕ). slot-set copied argc j none room in
      (
        set copied argc none,
        ground arith,
        length-set_slot copied argc none ∙ (at 0).0,
        ground (arith, final 0, (at 0).1),
        λ j lo hi. ground (arith, final j, (at j).1),
        ground (arith, final argc),
      )
