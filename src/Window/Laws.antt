-- ===== src/Window/Laws.antt =====
-- The contract of the transfers as the loops use it, and the invariant rule of their rounds.
use ipc_bench.Prelude.{ℕ, ◌+◌, ◌*◌, ◌^◌, ◌≤◌, ◌<◌, ◌≡◌, All, List, [], ◌∷◌}
use ipc_bench.Window.{Transfer, Turn, Round, leave, again, Run, stopped, running, run}

-- What a client of the transfers relies on; `Fifo`, `Tcp` and `Domain` fill it.
pub record IsLawful (transfer : Transfer) : Type 0 where
  pub bounded : (chunk num : ℕ) → num < 2 ^ 64 → 0 < chunk → (transfer chunk num).total_bytes ≤ num
  pub split :
      (chunk num : ℕ)
      → num < 2 ^ 64
      → 0 < chunk
      → (transfer chunk num).whole_reqs * chunk + (transfer chunk num).spare_bytes
        ≡ (transfer chunk num).total_bytes

pub record IsLawfulTurn (t : Turn) : Type 0 where
  pub reads : IsLawful t.read_from
  pub writes : IsLawful t.write_to

-- Whatever state a run is in, it satisfies `P`; a state in which the loop was left satisfies `Q`.
abbrev pub Ends {κ} : {S : Type 0} → (S → Type κ) → (S → Type κ) → Run S → Type κ
Ends P Q (stopped s) = Q s
Ends P Q (running s) = P s

abbrev pub AfterRound {κ} : {S : Type 0} → (S → Type κ) → (S → Type κ) → Round S → Type κ
AfterRound P Q (leave s) = Q s
AfterRound P Q (again s) = P s

abbrev pub AllLawful : List Turn → Type 0
AllLawful = All IsLawfulTurn

module _ {κ} {S : Type 0} (P Q : S → Type κ) (round : Turn → S → Round S) where
  Ends-of_round :
      (r : Round S) (turns : List Turn)
      → AfterRound P Q r
      → ((s : S) → P s → Ends P Q (run round turns s))
      → Ends P Q (elim r [ leave s ↦ stopped s | again s ↦ run round turns s ])
  Ends-of_round (leave s) turns q next = q
  Ends-of_round (again s) turns p next = next s p

  -- The invariant rule, for rounds that satisfy `L`.
  pub run_inv :
      (L : Turn → Type 0)
      → ((t : Turn) (s : S) → L t → P s → AfterRound P Q (round t s))
      → (turns : List Turn) (s : S) → All L turns
      → P s
      → Ends P Q (run round turns s)
  unfolding run
  run_inv L keep [] s all h = h
  run_inv L keep (t ∷ turns) s all h =
      Ends-of_round (round t s) turns (keep t s all.0 h) (λ s'. run_inv L keep turns s' all.1)

  -- The same, whatever the rounds are.
  pub run_inv_any :
      ((t : Turn) (s : S) → P s → AfterRound P Q (round t s))
      → (turns : List Turn) (s : S) → P s
      → Ends P Q (run round turns s)
  unfolding run
  run_inv_any keep [] s h = h
  run_inv_any keep (t ∷ turns) s h =
      Ends-of_round (round t s) turns (keep t s h) (run_inv_any keep turns)
