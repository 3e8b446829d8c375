-- ===== src/Model/Rule/Wire.antt =====
-- `Rule.Serialize`, and a reader of the block by fixed offsets.
use zdxsv.Prelude.{
  ℕ, ◌+◌, ◌*◌, ◌/◌, ◌%◌, ◌≤◌, ◌<◌, ◌≡◌, refl, List, [], ◌∷◌, ◌++◌, length, get_or, replicate, arith,
}
use zdxsv.Model.Rule.{Rule}

abbrev byte_mask : List ℕ
byte_mask = replicate (16 * 4) 0xff

-- `binary.Write` of a uint16, high byte first.
abbrev pub be16 : ℕ → List ℕ
be16 v = v / 256 % 256 ∷ v % 256 ∷ []

-- The bytes before the masks of the available machines, and those behind them.
abbrev rule_head : List ℕ
rule_head = be16 100 ++ be16 0 ++ 0 ∷ 0 ∷ []

abbrev rule_tail : Rule → List ℕ
rule_tail r =
    0 ∷ r.visible_team ∷ be16 r.battle_gauge
    ++ be16 r.battle_gauge
    ++ be16 r.awake_inc_ratio
    ++ be16 r.awake_dec_ratio
    ++ be16 r.battle_time
    ++ 0 ∷ r.reload_type ∷ 0 ∷ 0 ∷ (r.damage_level + 255) % 256 ∷ r.battle_count ∷ be16 0
    ++ be16 0
    ++ be16 0
    ++ be16 0
    ++ r.awake_type ∷ 0 ∷ be16 0
    ++ be16 1

pub serialize : Rule → List ℕ
serialize r = rule_head ++ byte_mask ++ rule_tail r

-- A uint16 at an offset of the block.
abbrev pub read16 : List ℕ → ℕ → ℕ
read16 b at = get_or b at 0 * 256 + get_or b (at + 1) 0

-- What the console shows of a rule; the number of players is not sent.
pub record Shown : Type 0 where
  pub visible_team : ℕ
  pub battle_gauge : ℕ
  pub awake_inc_ratio : ℕ
  pub awake_dec_ratio : ℕ
  pub battle_time : ℕ
  pub reload_type : ℕ
  pub damage_level : ℕ
  pub battle_count : ℕ
  pub awake_type : ℕ

pub shown : List ℕ → Shown
shown b = record {
  visible_team = get_or b 71 0;
  battle_gauge = read16 b 72;
  awake_inc_ratio = read16 b 76;
  awake_dec_ratio = read16 b 78;
  battle_time = read16 b 80;
  reload_type = get_or b 83 0;
  damage_level = get_or b 86 0 + 1;
  battle_count = get_or b 87 0;
  awake_type = get_or b 96 0;
}

abbrev pub IsInRange : Rule → Type 0
IsInRange r =
    (r.battle_gauge < 65536)
    × (r.awake_inc_ratio < 65536)
    × (r.awake_dec_ratio < 65536)
    × (r.battle_time < 65536)
    × (1 ≤ r.damage_level)
    × (r.damage_level < 256)

-- For a rule whose fields fit their places, the block that is sent, read at its offsets, gives back
-- the nine fields of the rule that it carries, and its length field counts the bytes behind it.
pub shown-serialize :
    (r : Rule)
    → IsInRange r
    → (shown (serialize r) ≡ record {
      visible_team = r.visible_team;
      battle_gauge = r.battle_gauge;
      awake_inc_ratio = r.awake_inc_ratio;
      awake_dec_ratio = r.awake_dec_ratio;
      battle_time = r.battle_time;
      reload_type = r.reload_type;
      damage_level = r.damage_level;
      battle_count = r.battle_count;
      awake_type = r.awake_type;
    })
      × (length (serialize r) ≡ 2 + read16 (serialize r) 0)
unfolding shown serialize
shown-serialize r h = (ground arith, refl)
