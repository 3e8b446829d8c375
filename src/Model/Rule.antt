-- ===== src/Model/Rule.antt =====
-- pkg/lobby/model/rule.go: the battle rules, chosen from menus of fixed values.
pub mod Menu
pub mod Consistent
pub mod Wire
pub mod Choice
mod Tests
use zdxsv.Prelude.{
  ℕ, zero, suc, ◌+◌, ◌%◌, String, Bool, true, false, ◌&&◌, not, List, [], ◌∷◌, Option, none, some,
  ◌==◌, if◌then◌else◌, ltb, length, get_elem?,
}
use Menu.{RuleElementElement, RuleElement, rule_list}

-- `selected` is the Go map from rule to element.
pub record Rule : Type 0 where
  pub player_count : ℕ
  pub battle_count : ℕ
  pub visible_team : ℕ
  pub battle_time : ℕ
  pub battle_gauge : ℕ
  pub reload_type : ℕ
  pub damage_level : ℕ
  pub awake_type : ℕ
  pub awake_inc_ratio : ℕ
  pub awake_dec_ratio : ℕ
  pub selected : ℕ → Option ℕ

-- The conversion `byte(v)`.
abbrev pub to_byte : ℕ → ℕ
to_byte v = v % 256

pub valid_rule : ℕ → Bool
valid_rule rule_id = ltb rule_id (length rule_list)

abbrev pub elements : ℕ → List RuleElementElement
elements rule_id = elim (get_elem? rule_list rule_id) [ none ↦ [] | some e ↦ e.elements ]

pub valid_element : ℕ → ℕ → Bool
unfolding valid_rule
valid_element rule_id elem_id = valid_rule rule_id && ltb elem_id (length (elements rule_id))

-- `ruleList[ruleID].List[elemID].Value`, where both indices are in range.
pub element_value : ℕ → ℕ → ℕ
element_value rule_id elem_id = elim (get_elem? (elements rule_id) elem_id) [
  | none ↦ 0
  | some e ↦ e.value
]

pub rule_element_default : ℕ → ℕ
rule_element_default rule_id = elim (get_elem? rule_list rule_id) [ none ↦ 0 | some e ↦ e.default ]

-- The `switch` of `Set`.
pub assign : Rule → ℕ → ℕ → Rule
assign r rule_id value =
    if rule_id == 0
    then record r { player_count = value }
    else if rule_id == 1
    then record r { battle_count = to_byte value }
    else if rule_id == 2
    then record r { visible_team = to_byte value }
    else if rule_id == 3
    then record r { battle_time = value }
    else if rule_id == 4
    then record r { battle_gauge = value }
    else if rule_id == 5
    then record r { reload_type = to_byte value }
    else if rule_id == 6
    then record r { damage_level = to_byte value }
    else if rule_id == 7
    then record r { awake_type = to_byte value }
    else if rule_id == 8
    then record r { awake_inc_ratio = value }
    else if rule_id == 9
    then record r { awake_dec_ratio = value }
    else r

abbrev pub select : ℕ → ℕ → (ℕ → Option ℕ) → ℕ → Option ℕ
select rule_id elem_id m k = if k == rule_id then some elem_id else m k

pub set : Rule → ℕ → ℕ → Rule
unfolding valid_element element_value assign
set r rule_id elem_id =
    if not (valid_element rule_id elem_id)
    then r
    else assign (record r { selected = select rule_id elem_id r.selected }) rule_id
        (element_value rule_id elem_id)

-- The loop of `setValue` over the elements from index `i` on; it does not stop at a match.
pub set_matching : List RuleElementElement → ℕ → Rule → ℕ → ℕ → Rule
set_matching [] i r rule_id v = r
set_matching (e ∷ es) i r rule_id v =
    set_matching es (i + 1) (if e.value == v then set r rule_id (to_byte i) else r) rule_id v

pub set_value : Rule → ℕ → ℕ → Rule
unfolding set_matching
set_value r rule_id v = set_matching (elements rule_id) 0 r rule_id v

pub set_battle_gauge : Rule → ℕ → Rule
set_battle_gauge r v = set_value r 4 v

pub set_battle_time : Rule → ℕ → Rule
set_battle_time r v = set_value r 3 v

pub set_battle_count : Rule → ℕ → Rule
set_battle_count r v = set_value r 1 v

pub get : Rule → ℕ → ℕ
unfolding rule_element_default
get r rule_id = elim (r.selected rule_id) [
  | some v ↦ v
  | none ↦ if not (valid_rule rule_id) then 0 else rule_element_default rule_id
]

pub rule_count : ℕ
rule_count = to_byte (length rule_list)

pub rule_title : ℕ → String
rule_title rule_id = elim (get_elem? rule_list rule_id) [ none ↦ "" | some e ↦ e.title ]

pub rule_element_count : ℕ → ℕ
rule_element_count rule_id = to_byte (length (elements rule_id))

pub rule_element_name : ℕ → ℕ → String
rule_element_name rule_id elem_id = elim (get_elem? (elements rule_id) elem_id) [
  | none ↦ ""
  | some e ↦ e.name
]

-- `setupDefaultRule`: each field has the value of its rule's default element.
abbrev pub default_value : ℕ → ℕ
unfolding element_value rule_element_default
default_value rule_id = element_value rule_id (rule_element_default rule_id)

unfoldable pub new_rule : Rule
unfolding element_value rule_element_default
new_rule = record {
  player_count = default_value 0;
  battle_count = to_byte (default_value 1);
  visible_team = to_byte (default_value 2);
  battle_time = default_value 3;
  battle_gauge = default_value 4;
  reload_type = to_byte (default_value 5);
  damage_level = to_byte (default_value 6);
  awake_type = to_byte (default_value 7);
  awake_inc_ratio = default_value 8;
  awake_dec_ratio = default_value 9;
  selected = λ _. none;
}
