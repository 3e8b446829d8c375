-- ===== src/App/Tests.antt =====
-- Two peers sign in and enter a lobby; the first makes a room, and the second joins it.
use mathlib.Core.Path.{subst}
use zdxsv.Prelude.{
  ap, ℕ, String, true, false, [], ◌∷◌, Option, none, some, ◌≡◌, ◌≢◌, refl, find, All, In, str_eq,
}
use zdxsv.Model.User.{set_entry, User, zero_user}
use zdxsv.Model.Room.{new_room, enter, set_status, open_room}
use zdxsv.Battle.Rpc.{new_battle_rpc}
use zdxsv.Model.Rule.{new_rule}
use zdxsv.Model.Lobby.{new_lobby, enter as enter_users}
use zdxsv.App.{connect_to_battle_server, LobbyRef, RoomRef, App, new_app, room_at, lobby_at}
use zdxsv.App.SignIn.{Accounts, on_decide_user_id}
use zdxsv.App.Lobbies.{on_exit_lobby, notice_lobby_user_count_all, on_enter_lobby}
use zdxsv.App.Leaving.{on_user_goto_battle, on_close}
use zdxsv.App.Rooms.{on_request_create_room, on_decide_rule_finish, on_enter_room, on_exit_room}
use zdxsv.App.Members.{view, IsSound, IsOnline}
use zdxsv.App.Members.Places.{none≢some}
use zdxsv.App.Members.History.{
  History, start, step, server_connected, decide_user_id, enter_lobby, request_create_room,
  decide_rule_finish, enter_room, history-IsSound,
}
use zdxsv.App.Members.Gone.{on_close-gone, on_exit_room-closes}

abbrev accounts : String → Accounts
accounts id = record {
  register_user = some (record zero_user { user_id = id });
  get_user_list = none;
  last_user = none;
  get_user = λ k. none;
  login_user = λ u. true;
  update_user = λ u. true;
}

abbrev harbour : LobbyRef
harbour = record { at_platform = "console"; at_lobby = 5 }

abbrev room_one : RoomRef
room_one = record { in_lobby = harbour; at_room = 1 }

abbrev id_of : Option User → String
id_of none = ""
id_of (some u) = u.user_id

abbrev ref_of : Option RoomRef → RoomRef
ref_of none = room_one
ref_of (some r) = r

-- The battle server has been connected.
abbrev served_app : App
served_app = connect_to_battle_server new_app new_battle_rpc

ann_in : App
unfolding on_decide_user_id
ann_in = on_decide_user_id (accounts "AAAAAA") served_app 1 "******" "ANN"

signed_in : App
unfolding on_decide_user_id
signed_in = on_decide_user_id (accounts "BBBBBB") ann_in 2 "******" "BOB"

in_lobby : App
unfolding on_enter_lobby
in_lobby = on_enter_lobby (on_enter_lobby signed_in (λ s. false) 1 5) (λ s. false) 2 5

with_room : App
unfolding on_request_create_room
with_room = on_decide_rule_finish (on_request_create_room in_lobby 1 1).1 1 0

party : App
unfolding on_enter_room
party = (on_enter_room with_room 2 1 0).1

signing_in : History signed_in
unfolding on_decide_user_id ann_in signed_in
signing_in =
    step
      (step (step start (server_connected new_app new_battle_rpc)) (
        decide_user_id (accounts "AAAAAA") served_app 1 "******" "ANN"
          (λ e. none≢some 1 none refl e) refl refl (λ u e. refl)))
      (decide_user_id (accounts "BBBBBB") ann_in 2 "******" "BOB" (λ e. none≢some 2 none refl e)
        refl refl (λ u e. subst (λ k. find (ann_in).users k ≡ none) (ap id_of e) refl))

entering : History in_lobby
unfolding on_enter_lobby on_decide_user_id ann_in signed_in in_lobby notice_lobby_user_count_all
    enter_users new_lobby new_room
entering =
    step (step signing_in (enter_lobby signed_in (λ s. false) 1 5 refl refl))
      (enter_lobby (on_enter_lobby signed_in (λ s. false) 1 5) (λ s. false) 2 5 refl refl)

making : History with_room
unfolding on_request_create_room on_decide_rule_finish on_enter_lobby on_decide_user_id ann_in
    signed_in in_lobby with_room notice_lobby_user_count_all enter_users new_lobby new_room
making = step (step entering (request_create_room in_lobby 1 1 refl refl)) (
    decide_rule_finish (on_request_create_room in_lobby 1 1).1 1 0 refl (λ r e.
      subst (λ t. All (λ u. u ≢ 1) (room_at (on_request_create_room in_lobby 1 1).1 t).users)
        (ap ref_of e) tt))

party-History : History party
unfolding on_request_create_room on_decide_rule_finish on_enter_lobby on_decide_user_id ann_in
    signed_in in_lobby with_room party on_enter_room notice_lobby_user_count_all enter_users
    new_lobby new_room enter set_status open_room new_rule
party-History = step making (enter_room with_room 2 1 0 refl refl)

members :
    ((room_at party room_one).users ≡ 1 ∷ 2 ∷ [])
    × IsOnline (view party) 1
    × ((party.peers 1).room ≡ some room_one)
    × (str_eq (room_at party room_one).owner (party.heap 1).user_id ≡ true)
unfolding on_request_create_room on_decide_rule_finish on_enter_lobby on_decide_user_id ann_in
    signed_in in_lobby with_room party on_enter_room notice_lobby_user_count_all enter_users
    new_lobby new_room enter set_status open_room new_rule
members = (refl, refl, refl, refl)

-- Who enters a second room stays among the users of the first one.
abbrev room_two : RoomRef
room_two = record { in_lobby = harbour; at_room = 2 }

twice : App
unfolding on_enter_room
twice = (on_enter_room (on_decide_rule_finish (on_request_create_room with_room 2 2).1 2 0) 2 1 0).1

stays_behind :
    ((room_at twice room_two).users ≡ 2 ∷ []) × ((room_at twice room_one).users ≡ 1 ∷ 2 ∷ [])
unfolding on_request_create_room on_decide_rule_finish on_enter_lobby on_decide_user_id ann_in
    signed_in in_lobby with_room on_enter_room twice notice_lobby_user_count_all enter_users
    new_lobby new_room enter set_status open_room new_rule
stays_behind = (refl, refl)

-- Peer 1 goes to battle, peer 2 signs in with the free id, and the end of the first connection takes peer 2
-- out of the users.
successor : App
unfolding on_decide_user_id on_user_goto_battle ann_in
successor = on_decide_user_id (accounts "AAAAAA") (on_user_goto_battle ann_in 1) 2 "******" "EVE"

taken_out :
    (find successor.users "AAAAAA" ≡ some 2) × (find (on_close successor 1).users "AAAAAA" ≡ none)
unfolding on_decide_user_id on_user_goto_battle ann_in successor on_close on_exit_lobby set_entry
taken_out = (refl, refl)

history-IsSound_example : IsSound (view party)
history-IsSound_example = history-IsSound party-History

on_close-gone_example :
    IsSound (view (on_close party 1))
    × (find (on_close party 1).users ((on_close party 1).heap 1).user_id ≡ none)
    × ((r : RoomRef) → In 1 (room_at (on_close party 1) r).users → ⊥)
    × ((l : LobbyRef) (id : String) → find (lobby_at (on_close party 1) l).users id ≢ some 1)
on_close-gone_example = on_close-gone party 1 history-IsSound_example members.1

on_exit_room-closes_example :
    ((room_at (on_exit_room party 1) room_one).users ≡ [])
    × ((u : ℕ) → In u (room_at party room_one).users → ((on_exit_room party 1).peers u).room ≡ none)
on_exit_room-closes_example =
    on_exit_room-closes party 1 history-IsSound_example members.1 room_one members.2 members.3
