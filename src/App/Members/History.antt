-- ===== src/App/Members/History.antt =====
-- Whatever the peers of the lobby do, in any order, its lists stay sound: the step relation has one step
-- for each handler of pkg/lobby/app_core.go that changes the state.
use mathlib.Core.Path.{subst}
use zdxsv.Prelude.{
  ℕ, String, Bool, [], Option, none, some, ◌≡◌, ◌≢◌, refl, sym, inl, inr, leb, find, All, In,
  Bool-cases,
}
use zdxsv.Model.User.{User}
use zdxsv.Battle.Rpc.{BattleRpc}
use zdxsv.Model.Rule.{Rule}
use zdxsv.Model.Room.{new_room}
use zdxsv.Model.Lobby.{new_lobby, room_count}
use zdxsv.App.{connect_to_battle_server, RoomRef, App, new_app, room_at, lobby_at}
use zdxsv.App.Rooms.{
  on_request_create_room, on_decide_room_name, on_decide_room_password, on_decide_rule,
  on_decide_rule_finish, on_entry_room_match, on_enter_room, on_exit_room,
}
use zdxsv.App.Lobbies.{
  on_platform_info, on_enter_lobby, on_exit_lobby, on_enter_battle_after_room,
  on_exit_battle_after_room, on_get_battle_after_room_user_count,
}
use zdxsv.App.Leaving.{
  on_send_chat_message, on_close, on_user_logout, on_user_goto_battle, on_user_top_page_jump,
}
use zdxsv.App.Start.{Outside, on_entry_lobby_battle, on_notice_room_battle_start}
use zdxsv.App.SignIn.{
  Accounts, chosen, on_first_data, on_decide_user_id, on_decide_team, on_set_user_binary,
}
use zdxsv.App.Members.{view, IsSound, IsOnline, Moves, Distinct}
use zdxsv.App.Members.Places.{none≢some}
use zdxsv.App.Members.Sound.{moves-IsSound}
use zdxsv.App.Members.Enters.{
  stayed, view-on_decide_room_name, view-on_decide_room_password, view-on_decide_rule,
  on_request_create_room-Moves, on_decide_rule_finish-Moves, view-on_entry_room_match,
  on_enter_room-Moves,
}
use zdxsv.App.Members.Exits.{on_exit_room-OutOfRoom}
use zdxsv.App.Members.Doors.{on_exit_lobby-Away, on_enter_lobby-Moves}
use zdxsv.App.Members.Leaves.{
  view-on_exit_battle_after_room, on_close-Moves, on_user_logout-Moves, on_user_goto_battle-Moves,
  view-on_close_off, on_user_top_page_jump-Moves, on_first_data-Moves, on_decide_user_id-Moves,
  view-on_decide_team, view-on_set_user_binary,
}
use zdxsv.App.Members.Queues.{view-on_entry_lobby_battle, view-on_notice_room_battle_start}
use zdxsv.App.Members.Returns.{
  view-on_platform_info, view-on_send_chat_message, view-on_enter_battle_after_room,
  view-on_get_battle_after_room_user_count,
}

-- Under the name that the peer has, it is not online itself.
abbrev pub IsOff : App → ℕ → Type 0
IsOff a p = find a.users (a.heap p).user_id ≢ some p

-- The steps a peer can take: it signs in once, under an id that nobody is online with; online, it enters a
-- lobby from outside of lobbies, and a room from outside of rooms; it finishes the rule of a room that it
-- is not yet a member of; it takes a side in a room, leaves and signs out while it is online. A connection
-- ends while its peer is online, or when it is in no lobby and no room and nobody is online with its id.
pub data Step : App → App → Type 0 where
  server_connected : (a : App) (server : BattleRpc) → Step a (connect_to_battle_server a server)
  platform_info : (a : App) (p : ℕ) (info : String → String) → Step a (on_platform_info a p info)
  first_data :
      (accounts : Accounts) (a : App) (p : ℕ)
      → IsOff a p
      → (a.peers p).lobby ≡ none
      → (a.peers p).room ≡ none
      → Step a (on_first_data accounts a p)
  decide_user_id :
      (accounts : Accounts) (a : App) (p : ℕ) (user_id name : String)
      → IsOff a p
      → (a.peers p).lobby ≡ none
      → (a.peers p).room ≡ none
      → ((u : User) → chosen accounts a p user_id name ≡ some u → find a.users u.user_id ≡ none)
      → Step a (on_decide_user_id accounts a p user_id name)
  decide_team : (a : App) (p : ℕ) (team : String) → Step a (on_decide_team a p team)
  set_user_binary : (a : App) (p : ℕ) (bin : String) → Step a (on_set_user_binary a p bin)
  enter_lobby :
      (a : App) (is_fingerprint : String → Bool) (p id : ℕ)
      → IsOnline (view a) p
      → (a.peers p).lobby ≡ none
      → Step a (on_enter_lobby a is_fingerprint p id)
  exit_lobby : (a : App) (p : ℕ) → IsOnline (view a) p → Step a (on_exit_lobby a p)
  entry_lobby_battle :
      (o : Outside) (a : App) (p side : ℕ) (rule : Option Rule)
      → Step a (on_entry_lobby_battle o a p side rule)
  request_create_room :
      (a : App) (p id : ℕ)
      → IsOnline (view a) p
      → (a.peers p).room ≡ none
      → Step a (on_request_create_room a p id).1
  decide_room_name : (a : App) (p : ℕ) (name : String) → Step a (on_decide_room_name a p name)
  decide_room_password :
      (a : App) (p : ℕ) (pass : String) → Step a (on_decide_room_password a p pass)
  decide_rule : (a : App) (p rule_id elem_id : ℕ) → Step a (on_decide_rule a p rule_id elem_id).1
  decide_rule_finish :
      (a : App) (p now : ℕ)
      → IsOnline (view a) p
      → ((r : RoomRef) → (a.peers p).room ≡ some r → All (λ u. u ≢ p) (room_at a r).users)
      → Step a (on_decide_rule_finish a p now)
  entry_room_match :
      (a : App) (p side : ℕ) → IsOnline (view a) p → Step a (on_entry_room_match a p side)
  enter_room :
      (a : App) (p id now : ℕ)
      → IsOnline (view a) p
      → (a.peers p).room ≡ none
      → Step a (on_enter_room a p id now).1
  exit_room : (a : App) (p : ℕ) → IsOnline (view a) p → Step a (on_exit_room a p)
  room_battle_start : (o : Outside) (a : App) (p : ℕ) → Step a (on_notice_room_battle_start o a p)
  send_chat_message : (a : App) (p : ℕ) (msg : String) → Step a (on_send_chat_message a p msg)
  enter_battle_after_room : (a : App) (p : ℕ) → Step a (on_enter_battle_after_room a p)
  exit_battle_after_room : (a : App) (p : ℕ) → Step a (on_exit_battle_after_room a p)
  battle_after_room_user_count :
      (a : App) (p : ℕ) → Step a (on_get_battle_after_room_user_count a p).1
  goto_battle : (a : App) (p : ℕ) → IsOnline (view a) p → Step a (on_user_goto_battle a p)
  logout : (a : App) (p : ℕ) → IsOnline (view a) p → Step a (on_user_logout a p)
  top_page_jump : (a : App) (p : ℕ) → IsOnline (view a) p → Step a (on_user_top_page_jump a p)
  close : (a : App) (p : ℕ) → IsOnline (view a) p → Step a (on_close a p)
  close_off :
      (a : App) (p : ℕ)
      → find a.users (a.heap p).user_id ≡ none
      → (a.peers p).lobby ≡ none
      → (a.peers p).room ≡ none
      → Step a (on_close a p)

pub data History : App → Type 0 where
  start : History new_app
  step : {a b : App} → History a → Step a b → History b

pub step-Moves : {a b : App} → Step a b → IsSound (view a) → Moves (view a) (view b)
step-Moves (server_connected a server) s = stayed refl
step-Moves (platform_info a p info) s = stayed (view-on_platform_info a p info)
step-Moves (first_data accounts a p off lone out) s = on_first_data-Moves accounts a p off lone out
step-Moves (decide_user_id accounts a p user_id name off lone out free) s =
    on_decide_user_id-Moves accounts a p off lone out user_id name free
step-Moves (decide_team a p team) s = stayed (view-on_decide_team a p team)
step-Moves (set_user_binary a p bin) s = stayed (view-on_set_user_binary a p bin)
step-Moves (enter_lobby a f p id on lone) s = on_enter_lobby-Moves a p on f id lone
step-Moves (exit_lobby a p on) s = (on_exit_lobby-Away a p on).0
step-Moves (entry_lobby_battle o a p side rule) s =
    stayed (view-on_entry_lobby_battle o a p side rule)
step-Moves (request_create_room a p id on out) s = on_request_create_room-Moves a p s on id out
step-Moves (decide_room_name a p name) s = stayed (view-on_decide_room_name a p name)
step-Moves (decide_room_password a p pass) s = stayed (view-on_decide_room_password a p pass)
step-Moves (decide_rule a p rule_id elem_id) s = stayed (view-on_decide_rule a p rule_id elem_id)
step-Moves (decide_rule_finish a p now on new) s = on_decide_rule_finish-Moves a p s on now new
step-Moves (entry_room_match a p side on) s = stayed (view-on_entry_room_match a p side)
step-Moves (enter_room a p id now on out) s = on_enter_room-Moves a p s on id now out
step-Moves (exit_room a p on) s = (on_exit_room-OutOfRoom a p on).0
step-Moves (room_battle_start o a p) s = stayed (view-on_notice_room_battle_start o a p)
step-Moves (send_chat_message a p msg) s = stayed (view-on_send_chat_message a p msg)
step-Moves (enter_battle_after_room a p) s = stayed (view-on_enter_battle_after_room a p)
step-Moves (exit_battle_after_room a p) s = stayed (view-on_exit_battle_after_room a p)
step-Moves (battle_after_room_user_count a p) s =
    stayed (view-on_get_battle_after_room_user_count a p)
step-Moves (goto_battle a p on) s = on_user_goto_battle-Moves a p s on
step-Moves (logout a p on) s = on_user_logout-Moves a p s on
step-Moves (top_page_jump a p on) s = on_user_top_page_jump-Moves a p s on
step-Moves (close a p on) s = on_close-Moves a p s on
step-Moves (close_off a p free lone out) s = stayed (view-on_close_off a p free lone out)

no_members : (r : RoomRef) → (room_at new_app r).users ≡ []
unfolding new_lobby new_room
no_members r = elim (Bool-cases (leb r.at_room room_count)) [
  | inl e ↦ rw (room_at, lobby_at, new_lobby, e) refl
  | inr e ↦ rw (room_at, lobby_at, new_lobby, e) refl
]

new_app-IsSound : IsSound (view new_app)
unfolding new_lobby
new_app-IsSound = record {
  named = λ id p e. absurd (none≢some p none refl e);
  in_lobbies = λ l id p e. absurd (none≢some p none refl e);
  in_rooms = λ r p i. absurd (subst (In p) (no_members r) i);
  apart = λ r. subst (Distinct (view new_app).names) (sym (no_members r)) tt;
  placed = λ p r e. absurd (none≢some r none refl e);
}

pub history-IsSound : {a : App} → History a → IsSound (view a)
history-IsSound start = new_app-IsSound
history-IsSound (step h s) = moves-IsSound (step-Moves s (history-IsSound h)) (history-IsSound h)
