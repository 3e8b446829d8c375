-- ===== src/Model/Rule/Consistent.antt =====
-- The fields of a rule and the map of selected elements tell the same story.
use native.Mathlib.Decide.{ℕ_discrete}
use zdxsv.Prelude.{
  ℕ, zero, suc, ◌<◌, ◌≡◌, refl, ap, ◌∙◌, inl, inr, Bool, true, false, ◌||◌, List, [], ◌∷◌, Option,
  none, some, ◌==◌, ==_iff, if◌then◌else◌, length, get_elem?, arith, Bool-cases, All,
}
use zdxsv.Model.Rule.Menu.{RuleElementElement}
use zdxsv.Model.Rule.{
  Rule, valid_rule, elements, valid_element, element_value, rule_element_default, assign, select,
  set, get, new_rule,
}

-- The field of the rule `rule_id`.
pub field : Rule → ℕ → ℕ
field r rule_id =
    if rule_id == 0
    then r.player_count
    else if rule_id == 1
    then r.battle_count
    else if rule_id == 2
    then r.visible_team
    else if rule_id == 3
    then r.battle_time
    else if rule_id == 4
    then r.battle_gauge
    else if rule_id == 5
    then r.reload_type
    else if rule_id == 6
    then r.damage_level
    else if rule_id == 7
    then r.awake_type
    else if rule_id == 8
    then r.awake_inc_ratio
    else r.awake_dec_ratio

-- The rules whose field is a byte.
abbrev is_byte : ℕ → Bool
is_byte k = k == 1 || k == 2 || k == 5 || k == 6 || k == 7

field-assign :
    (r : Rule) (k v j : ℕ)
    → k < 10
    → j < 10
    → (is_byte k ≡ true → v < 256)
    → field (assign r k v) j ≡ (if j == k then v else field r j)
unfolding field assign
field-assign r k v j hk hj fits = ground arith

selected-assign : (r : Rule) (k v : ℕ) → (assign r k v).selected ≡ r.selected
unfolding assign
selected-assign r k v = ground arith

abbrev IsSmall : RuleElementElement → Type 0
IsSmall e = e.value < 256

elements-IsSmall : (k : ℕ) → is_byte k ≡ true → All IsSmall (elements k)
elements-IsSmall zero h = cc
elements-IsSmall (suc zero) h = omega arith
elements-IsSmall (suc (suc zero)) h = omega arith
elements-IsSmall (suc (suc (suc zero))) h = cc
elements-IsSmall (suc (suc (suc (suc zero)))) h = cc
elements-IsSmall (suc (suc (suc (suc (suc zero))))) h = omega arith
elements-IsSmall (suc (suc (suc (suc (suc (suc zero)))))) h = omega arith
elements-IsSmall (suc (suc (suc (suc (suc (suc (suc zero))))))) h = omega arith
elements-IsSmall (suc (suc (suc (suc (suc (suc (suc (suc k)))))))) h = absurd (ground arith)

value_small :
    (es : List RuleElementElement) (i : ℕ)
    → All IsSmall es
    → (elim (get_elem? es i) as (λ _. ℕ) [ none ↦ 0 | some e ↦ e.value ]) < 256
value_small [] i h = omega arith
value_small (e ∷ es) zero h = h.0
value_small (e ∷ es) (suc i) h = value_small es i h.1

element_value_small : (k e : ℕ) → is_byte k ≡ true → element_value k e < 256
unfolding element_value
element_value_small k e h = value_small (elements k) e (elements-IsSmall k h)

-- Each rule has an element selected that its menu has, and the field has that element's value.
pub IsConsistent : Rule → Type 0
IsConsistent r =
    (j : ℕ) → j < 10 → (field r j ≡ element_value j (get r j)) × (get r j < length (elements j))

field-select :
    (r : Rule) (m : ℕ → Option ℕ) (j : ℕ) → field (record r { selected = m }) j ≡ field r j
unfolding field
field-select r m j = refl

module _ (r : Rule) (k e : ℕ) (valid : valid_element k e ≡ true) where
  valid_range : (k < 10) × (e < length (elements k))
  unfolding valid_element valid_rule
  valid_range = ground arith

  get-set_at : (j : ℕ) → get (set r k e) j ≡ (if j == k then e else get r j)
  unfolding set get
  get-set_at j =
      rw
        (
          valid,
          selected-assign (record r { selected = select k e r.selected }) k (element_value k e),
          get,
        )
        (ground arith)

  field-set_at :
      (j : ℕ) → j < 10 → field (set r k e) j ≡ (if j == k then element_value k e else field r j)
  unfolding set
  field-set_at j hj = rw valid (
      field-assign _ k (element_value k e) j valid_range.0 hj (element_value_small k e)
      ∙ ap (λ x. if j == k then element_value k e else x)
          (field-select r (select k e r.selected) j))

set_invalid : (r : Rule) (k e : ℕ) → valid_element k e ≡ false → set r k e ≡ r
unfolding set
set_invalid r k e h = rw h

-- A choice of any element of any rule, valid or not, keeps each rule's selected element within its
-- menu and each field equal to the selected element's value.
pub set-IsConsistent : (r : Rule) (k e : ℕ) → IsConsistent r → IsConsistent (set r k e)
unfolding IsConsistent
set-IsConsistent r k e c j hj = elim (Bool-cases (valid_element k e)) [
  | inl valid ↦ set_valid valid
  | inr invalid ↦ rw (set_invalid r k e invalid) (c j hj)
]
  where
    set_valid :
        valid_element k e ≡ true
        → (field (set r k e) j ≡ element_value j (get (set r k e) j))
          × (get (set r k e) j < length (elements j))
    set_valid valid =
        rw (field-set_at r k e valid j hj, get-set_at r k e valid j)
          (elim (ℕ_discrete j k) [
            | yes same ↦ rw (same, (==_iff k k).1 refl) (refl, (valid_range r k e valid).1)
            | no other ↦ let ne : (j == k) ≡ false = ground arith in rw ne (c j hj)
          ])

pub below_ten {ℓ} :
    (P : ℕ → Type ℓ)
    → P 0
    → P 1
    → P 2
    → P 3
    → P 4
    → P 5
    → P 6
    → P 7
    → P 8
    → P 9
    → (j : ℕ) → j < 10
    → P j
below_ten P a b c d e f g h i j zero _ = a
below_ten P a b c d e f g h i j (suc zero) _ = b
below_ten P a b c d e f g h i j (suc (suc zero)) _ = c
below_ten P a b c d e f g h i j (suc (suc (suc zero))) _ = d
below_ten P a b c d e f g h i j (suc (suc (suc (suc zero)))) _ = e
below_ten P a b c d e f g h i j (suc (suc (suc (suc (suc zero))))) _ = f
below_ten P a b c d e f g h i j (suc (suc (suc (suc (suc (suc zero)))))) _ = g
below_ten P a b c d e f g h i j (suc (suc (suc (suc (suc (suc (suc zero))))))) _ = h
below_ten P a b c d e f g h i j (suc (suc (suc (suc (suc (suc (suc (suc zero)))))))) _ = i
below_ten P a b c d e f g h i j (suc (suc (suc (suc (suc (suc (suc (suc (suc zero))))))))) _ = j
below_ten P a b c d e f g h i j (suc (suc (suc (suc (suc (suc (suc (suc (suc (suc n)))))))))) l =
    absurd (omega arith)

-- The rule that every battle and room begins with.
pub new_rule-IsConsistent : IsConsistent new_rule
unfolding IsConsistent new_rule get field valid_rule element_value rule_element_default
new_rule-IsConsistent =
    below_ten
      (λ j.
        (field new_rule j ≡ element_value j (get new_rule j))
        × (get new_rule j < length (elements j)))
      (refl, omega arith) (refl, omega arith) (refl, omega arith) (refl, omega arith)
      (refl, omega arith) (refl, omega arith) (refl, omega arith) (refl, omega arith)
      (refl, omega arith) (refl, omega arith)

-- A valid choice is what `Get` returns for its rule, its value stands in that rule's field, and
-- the other rules keep both.
pub set_lem :
    (r : Rule) (k e j : ℕ)
    → valid_element k e ≡ true
    → j < 10
    → (get (set r k e) j ≡ (if j == k then e else get r j))
      × (field (set r k e) j ≡ (if j == k then element_value k e else field r j))
set_lem r k e j valid hj = (get-set_at r k e valid j, field-set_at r k e valid j hj)
