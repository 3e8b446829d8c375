-- ===== src/Model/Rule/Tests.antt =====
-- The menus on concrete choices.
use zdxsv.Prelude.{◌+◌, ◌≡◌, refl, length, arith}
use zdxsv.Model.Rule.{
  element_value, valid_element, set, set_value, get, new_rule, rule_title, rule_element_name,
  rule_element_count, rule_count, set_battle_time, set_battle_gauge, set_battle_count, set_matching,
}
use zdxsv.Model.Rule.Consistent.{
  IsConsistent, field, set_lem, set-IsConsistent, new_rule-IsConsistent,
}
use zdxsv.Model.Rule.Wire.{serialize, shown, read16, shown-serialize}

set_lem_example : (get (set new_rule 4 6) 4 ≡ 6) × (field (set new_rule 4 6) 4 ≡ 1200)
unfolding element_value
set_lem_example = set_lem new_rule 4 6 4 (unfold valid_element in refl) (omega arith)

set-IsConsistent_example : IsConsistent (set new_rule 3 9)
set-IsConsistent_example = set-IsConsistent new_rule 3 9 new_rule-IsConsistent

shown-serialize_example :
    (shown (serialize new_rule) ≡ record {
      visible_team = new_rule.visible_team;
      battle_gauge = new_rule.battle_gauge;
      awake_inc_ratio = new_rule.awake_inc_ratio;
      awake_dec_ratio = new_rule.awake_dec_ratio;
      battle_time = new_rule.battle_time;
      reload_type = new_rule.reload_type;
      damage_level = new_rule.damage_level;
      battle_count = new_rule.battle_count;
      awake_type = new_rule.awake_type;
    })
    × (length (serialize new_rule) ≡ 2 + read16 (serialize new_rule) 0)
unfolding new_rule
shown-serialize_example = shown-serialize new_rule (omega arith)

menu_names :
    (rule_title 3 ≡ "作戦時間")
    × (rule_element_name 0 2 ≡ "４人")
    × (rule_element_name 0 3 ≡ "")
    × (rule_element_count 4 ≡ 7)
    × (rule_count ≡ 10)
unfolding rule_title rule_element_name rule_element_count rule_count
menu_names = (refl, refl, refl, refl, refl)

-- 61 seconds is no menu entry; 210 seconds is the fourth one.
chosen_by_value :
    (get (set_battle_time (set_battle_time new_rule 90) 61) 3 ≡ 0)
    × (get (set_battle_time new_rule 210) 3 ≡ 3)
    × (get (set_battle_gauge new_rule 900) 4 ≡ 5)
    × (get (set_battle_count new_rule 10) 1 ≡ 4)
unfolding get set_battle_time set_battle_gauge set_battle_count set_value set_matching set
chosen_by_value = (refl, refl, refl, refl)
