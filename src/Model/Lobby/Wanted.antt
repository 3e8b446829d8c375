-- ===== src/Model/Lobby/Wanted.antt =====
-- How many entries a lobby of pkg/lobby/model/lobby.go wants for a battle.
use native.Mathlib.Decide.{ℕ_discrete}
use zdxsv.Prelude.{
  ◌≢◌, ◌⊎◌, ◌||◌, leb, ==_iff, ==_ne, ℕ, ◌≤◌, ◌≡◌, inl, inr, true, arith, Bool-cases, ◌↔◌,
}
use zdxsv.Model.Lobby.{can_start}

-- How many entries of the two sides a lobby wants: lobby 2 one of each, lobby 3 one of any, the others two
-- of each.
abbrev pub Enough : ℕ → ℕ → ℕ → Type 0
Enough i a b =
    (i ≡ 2 → (1 ≤ a) × (1 ≤ b)) × (i ≡ 3 → (1 ≤ a) ⊎ (1 ≤ b)) × (i ≢ 2 → i ≢ 3 → (2 ≤ a) × (2 ≤ b))

some_side : (a b : ℕ) → leb 1 a || leb 1 b ≡ true → (1 ≤ a) ⊎ (1 ≤ b)
some_side a b e = elim (Bool-cases (leb 1 a)) [
  | inl t ↦ inl (ground arith)
  | inr f ↦ inr (ground arith)
]

any_side : (a b : ℕ) → (1 ≤ a) ⊎ (1 ≤ b) → leb 1 a || leb 1 b ≡ true
any_side a b (inl l) = ground arith
any_side a b (inr l) = ground arith

pub can_start-Enough : (i a b : ℕ) → (can_start i a b ≡ true) ↔ Enough i a b
unfolding can_start
can_start-Enough i a b = elim (ℕ_discrete i 2) [
  | yes e ↦ rw ((==_iff i 2).1 e) (
    λ t. ((λ f. (ground arith, ground arith)), (λ f. absurd (omega arith)), λ n m. absurd (n e)),
    λ s. let (l, r) = s.0 e in ground arith,
  )
  | no n ↦ elim (ℕ_discrete i 3) [
    | yes e ↦
        rw (==_ne i 2 n, (==_iff i 3).1 e)
          (
            λ t. ((λ f. absurd (n f)), (λ f. some_side a b t), λ d m. absurd (m e)),
            λ s. any_side a b (s.1 e),
          )
    | no m ↦
        rw (==_ne i 2 n, ==_ne i 3 m)
          (
            λ t. ((λ f. absurd (n f)), (λ f. absurd (m f)), λ d g. (ground arith, ground arith)),
            λ s. let (l, r) = s.2 n m in ground arith,
          )
  ]
]
