-- ===== src/Battle/Logic.antt =====
-- pkg/battle/logic.go: a console joins the room of its battle.
pub mod Sound
pub mod Joining
mod Tests
use zdxsv.Prelude.{
  ℕ, String, List, [], ◌∷◌, Option, none, some, Bool, true, false, if◌then◌else◌, replicate,
  get_elem?, set, str_eq, ◌==◌, ◌&&◌,
}
use zdxsv.Battle.Room.{Heap, update, Room, new_room, join as join_room}
use zdxsv.Battle.Rpc.{
  User, BattleInfo, BattleRpc, new_battle_rpc, max_room, get_battle_info, clear_battle_info,
}

-- A room is never taken out of `rooms`, so its index stands for the pointer to it.
pub record Logic : Type 0 where
  pub rpc : BattleRpc
  pub rooms : List (Option Room)

abbrev pub new_logic : Logic
new_logic = record { rpc = new_battle_rpc; rooms = replicate max_room none }

abbrev pub find_user : String → List User → Option User
find_user session_id [] = none
find_user session_id (u ∷ us) =
    if str_eq session_id u.session_id then some u else find_user session_id us

abbrev find_in : String → Option BattleInfo → Option User
find_in session_id none = none
find_in session_id (some info) = find_user session_id info.users

pub find_waiting_user : Logic → String → Option User
find_waiting_user m session_id = find_in session_id (get_battle_info m.rpc session_id)

-- The room joined, or nil; or the panic of a nil info or of an index out of range.
pub data Joined : Type 0 where
  refused : Joined
  entered : Heap → Logic → ℕ → Joined
  panicked : Joined

abbrev or_new : ℕ → Option Room → Room
or_new id none = new_room id
or_new id (some r) = r

abbrev enter_room : Heap → Logic → ℕ → ℕ → Option (Option Room) → Joined
enter_room h m p id none = panicked
enter_room h m p id (some r) =
    let (h', r') = join_room h (or_new id r) p in
    entered h' (record m { rooms = set m.rooms id (some r') }) id

abbrev join_info : Heap → Logic → ℕ → String → Option BattleInfo → Joined
join_info h m p session_id none = panicked
join_info h m p session_id (some info) =
    enter_room h (record m { rpc = clear_battle_info m.rpc session_id }) p info.room_id
      (get_elem? m.rooms info.room_id)

abbrev join_user : Heap → Logic → ℕ → String → Option User → Joined
join_user h m p session_id none = refused
join_user h m p session_id (some user) =
    join_info (update h p (record (h p) { user_id = user.user_id; session_id = session_id })) m p
      session_id (get_battle_info m.rpc session_id)

pub join : Heap → Logic → ℕ → String → Joined
join h m p session_id = join_user h m p session_id (find_waiting_user m session_id)

unfoldable pub is_fin_data : List ℕ → Bool
is_fin_data (a ∷ b ∷ c ∷ d ∷ []) = (a == 4) && (b == 240) && (c == 0) && (d == 0)
is_fin_data _ = false
