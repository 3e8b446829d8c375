-- ===== src/Model/Rule/Choice.antt =====
-- SetBattleGauge and its siblings choose by value.
use native.Mathlib.Decide.{ℕ_discrete}
use zdxsv.Prelude.{
  ℕ, zero, suc, ◌+◌, ◌<◌, ◌≡◌, ◌≢◌, refl, false, List, [], ◌∷◌, ◌==◌, length, arith, All,
}
use zdxsv.Model.Rule.Menu.{RuleElementElement}
use zdxsv.Model.Rule.{Rule, elements, element_value, set, set_matching, set_value}
use zdxsv.Model.Rule.Consistent.{below_ten}

set_matching_miss :
    (es : List RuleElementElement) (i : ℕ) (r : Rule) (k v : ℕ)
    → All (λ e. e.value ≢ v) es
    → set_matching es i r k v ≡ r
unfolding set_matching
set_matching_miss [] i r k v h = refl
set_matching_miss (e ∷ es) i r k v (ne, h) =
    let other : (e.value == v) ≡ false = ground arith in
    rw other (set_matching_miss es (i + 1) r k v h)

-- A value that the menu does not have changes nothing.
pub set_value_unknown :
    (r : Rule) (k v : ℕ) → All (λ e. e.value ≢ v) (elements k) → set_value r k v ≡ r
unfolding set_value
set_value_unknown r k v h = set_matching_miss (elements k) 0 r k v h

abbrev AllBelow : ℕ → (ℕ → Type 0) → Type 0
AllBelow zero P = Unit {0}
AllBelow (suc n) P = AllBelow n P × P n

AllBelow-at : (n : ℕ) (P : ℕ → Type 0) → AllBelow n P → (e : ℕ) → e < n → P e
AllBelow-at zero P h e lt = absurd (omega arith)
AllBelow-at (suc n) P h e lt = elim (ℕ_discrete e n) [
  | yes same ↦ rw same h.1
  | no other ↦ AllBelow-at n P h.0 e (omega arith)
]

abbrev Chosen : Rule → ℕ → ℕ → Type 0
Chosen r k e = set_value r k (element_value k e) ≡ set r k e

-- The values of a menu are distinct, so the loop sets one element.
menus : (r : Rule) (k : ℕ) → k < 10 → AllBelow (length (elements k)) (Chosen r k)
unfolding set_value set_matching element_value
menus r =
    below_ten (λ k. AllBelow (length (elements k)) (Chosen r k)) (((tt, refl), refl), refl)
      (((((tt, refl), refl), refl), refl), refl) (((tt, refl), refl), refl)
      (((((tt, refl), refl), refl), refl), refl)
      (((((((tt, refl), refl), refl), refl), refl), refl), refl) (((tt, refl), refl), refl)
      ((((tt, refl), refl), refl), refl) (((((tt, refl), refl), refl), refl), refl)
      (((((tt, refl), refl), refl), refl), refl) (((((tt, refl), refl), refl), refl), refl)

-- For every element of every menu, choosing by its value is choosing that element.
set_value-set :
    (r : Rule) (k e : ℕ)
    → k < 10
    → e < length (elements k)
    → set_value r k (element_value k e) ≡ set r k e
set_value-set r k e hk he = AllBelow-at (length (elements k)) (Chosen r k) (menus r k hk) e he
