-- ===== src/Battle/Logic/Tests.antt =====
-- Runs of the announcements and the joins.
use zdxsv.Prelude.{◌≡◌, refl, String, List, [], ◌∷◌, ◌++◌, none, some, true, false, ne_of_str_eq}
use zdxsv.Battle.Room.{Heap}
use zdxsv.Battle.Rpc.{User, BattleInfo, new_battle_rpc, get_battle_info, notify_battle_users}
use zdxsv.Battle.Logic.{
  Logic, new_logic, join, entered, refused, is_fin_data, find_waiting_user, find_user,
}
use zdxsv.Battle.Logic.Sound.{IsSound, announce, new_logic-IsSound, notify_battle_users-IsSound}
use zdxsv.Battle.Logic.Joining.{HasJoined, peers_at, join_lem, join_together}

abbrev user : String → String → User
user id session = record {
  user_id = id;
  session_id = session;
  name = id;
  team = "";
  entry = 1;
  p2p_map = λ k. false;
}

abbrev pair : List User
pair = user "A" "11111111" ∷ user "B" "22222222" ∷ []

abbrev heap : Heap
heap p = record { session_id = ""; user_id = ""; position = 0; room_id = 0 }

abbrev waiting_room : Logic
waiting_room = announce new_logic pair

fin : is_fin_data (4 ∷ 240 ∷ 0 ∷ 0 ∷ []) ≡ true
unfolding is_fin_data
fin = refl

unknown : join heap new_logic 1 "11111111" ≡ refused
unfolding join find_waiting_user get_battle_info
unknown = refl

notify_battle_users-IsSound_example :
    IsSound waiting_room
    × ((s : String) (u : User)
        → find_user s pair ≡ some u
        → get_battle_info (notify_battle_users new_battle_rpc pair) s
          ≡ some (record { users = pair; room_id = 0 }))
    × ((s : String)
        → find_user s pair ≡ none
        → get_battle_info (notify_battle_users new_battle_rpc pair) s
          ≡ get_battle_info new_battle_rpc s)
notify_battle_users-IsSound_example = notify_battle_users-IsSound new_logic pair new_logic-IsSound

abbrev info : BattleInfo
info = record { users = pair; room_id = 0 }

join_lem_example :
    (h' : Heap) × (m' : Logic) × (join heap waiting_room 7 "22222222" ≡ entered h' m' 0)
    × HasJoined heap waiting_room 7 "22222222" 0 "B" h' m'
unfolding get_battle_info notify_battle_users
join_lem_example =
    join_lem heap waiting_room 7 "22222222" info (user "B" "22222222")
      (notify_battle_users-IsSound new_logic pair new_logic-IsSound).0 refl refl

join_together_example :
    (h' : Heap) × (m' : Logic) × (h'' : Heap) × (m'' : Logic) × (join heap waiting_room 7 "22222222"
      ≡ entered h' m' 0)
    × (join h' m' 8 "11111111" ≡ entered h'' m'' 0)
    × (peers_at m'' 0 ≡ peers_at new_logic 0 ++ some 7 ∷ some 8 ∷ [])
join_together_example =
    join_together heap new_logic pair 7 8 "22222222" "11111111" (user "B" "22222222")
      (user "A" "11111111") new_logic-IsSound (ne_of_str_eq "22222222" "11111111" refl) refl refl
