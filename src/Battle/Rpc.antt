-- ===== src/Battle/Rpc.antt =====
-- pkg/battle/battlerpc/rpc.go: the battles that the lobby announces, by session.
use zdxsv.Prelude.{ℕ, ◌+◌, ◌%◌, String, List, [], ◌∷◌, Option, none, Bool, insert, remove}

abbrev pub max_room : ℕ
max_room = 128

-- The keys of `P2PMap`, a set, as a test.
pub record User : Type 0 where
  pub user_id : String
  pub session_id : String
  pub name : String
  pub team : String
  pub entry : ℕ
  pub p2p_map : String → Bool

pub record BattleInfo : Type 0 where
  pub users : List User
  pub room_id : ℕ

pub record BattleRpc : Type 0 where
  pub next_room_id : ℕ
  pub session_map : String → Option BattleInfo

abbrev pub new_battle_rpc : BattleRpc
new_battle_rpc = record { next_room_id = 0; session_map = λ s. none }

unfoldable pub get_battle_info : BattleRpc → String → Option BattleInfo
get_battle_info m session_id = m.session_map session_id

unfoldable pub clear_battle_info : BattleRpc → String → BattleRpc
clear_battle_info m session_id = record m { session_map = remove session_id m.session_map }

abbrev pub insert_all :
    (String → Option BattleInfo) → BattleInfo → List User → String → Option BattleInfo
insert_all f info [] = f
insert_all f info (u ∷ us) = insert_all (insert u.session_id info f) info us

unfoldable pub notify_battle_users : BattleRpc → List User → BattleRpc
notify_battle_users m users = record {
  next_room_id = (m.next_room_id + 1) % max_room;
  session_map = insert_all m.session_map (record { users = users; room_id = m.next_room_id }) users;
}
