-- ===== src/Model/Rule/Menu.antt =====
-- pkg/lobby/model/rule.go, setupRuleList: the menus.
use zdxsv.Prelude.{ℕ, String, List, [], ◌∷◌}

pub record RuleElementElement : Type 0 where
  pub name : String
  pub value : ℕ

pub record RuleElement : Type 0 where
  pub title : String
  pub default : ℕ
  pub elements : List RuleElementElement

abbrev item : String → ℕ → RuleElementElement
item name value = record { name = name; value = value }

abbrev menu : String → ℕ → List RuleElementElement → RuleElement
menu title default elements = record { title = title; default = default; elements = elements }

abbrev ratios : List RuleElementElement
ratios = item "１０％" 10 ∷ item "５０％" 50 ∷ item "１００％" 100 ∷ item "１５０％" 150 ∷ item "２００％" 200 ∷ []

abbrev pub rule_list : List RuleElement
rule_list =
    menu "人数設定" 2 (item "２人" 2 ∷ item "３人" 3 ∷ item "４人" 4 ∷ [])
    ∷ menu "連続対戦数" 0 (item "任意" 0 ∷ item "１戦" 1 ∷ item "３戦" 3 ∷ item "５戦" 5 ∷ item "１０戦" 10 ∷ [])
    ∷ menu "選択可視範囲" 0 (item "全員オープン" 0 ∷ item "味方のみ" 1 ∷ item "自分のみ" 2 ∷ [])
    ∷ menu "作戦時間" 3
        (item "９０秒" 90 ∷ item "１２０秒" 120 ∷ item "１８０秒" 180 ∷ item "２１０秒" 210 ∷ item "２７０秒" 270 ∷ [])
    ∷ menu "戦力ゲージ" 2 (
        item "１" 1
        ∷ item "３００" 300
        ∷ item "６００" 600
        ∷ item "６１０" 610
        ∷ item "６２５" 625
        ∷ item "９００" 900
        ∷ item "１２００" 1200
        ∷ [])
    ∷ menu "リロード制限" 0 (item "通常" 0 ∷ item "回復なし" 1 ∷ item "制限なし" 2 ∷ [])
    ∷ menu "ダメージレベル" 2 (item "１" 1 ∷ item "２" 2 ∷ item "３" 3 ∷ item "４" 4 ∷ [])
    ∷ menu "覚醒システム" 0 (
        item "任意" 0
        ∷ item "\"強襲\"固定" 1
        ∷ item "\"復活\"固定" 2
        ∷ item "\"機動\"固定" 3
        ∷ item "覚醒なし" 4
        ∷ [])
    ∷ menu "覚醒ゲージ増加量 " 2 ratios
    ∷ menu "覚醒継続時間" 2 ratios
    ∷ []
