-- ===== src/App/Rooms.antt =====
-- pkg/lobby/app_core.go: the handlers about rooms.
use zdxsv.Prelude.{
  ℕ, ◌-◌, ◌/◌, ◌%◌, ◌^◌, String, Bool, true, false, List, [], ◌∷◌, Option, none, some, ◌==◌,
  if◌then◌else◌, str_eq, find, length,
}
use zdxsv.Model.User.{Heap, entry_none}
use zdxsv.Model.Rule.{set as set_rule, get as get_rule}
use zdxsv.Model.Room.{Room, state_empty, state_full, u16, enter, exit, remove, get_entry_user_count}
use zdxsv.Model.Lobby.{get_room_count}
use zdxsv.App.{
  Notice, room_entry, room_name, room_entry_user_count, room_status, room_user_count,
  room_join_info, exit_room, join_room, remove_room, LobbyRef, RoomRef, App, lobby_at, find_room,
  room_at, set_room, set_peer, set_side, send, send_all, online, keys, ids_of,
}

abbrev pub state_prepare : ℕ
state_prepare = 2

abbrev pub room_in : App → Option LobbyRef → ℕ → Option RoomRef
room_in a none id = none
room_in a (some l) id = find_room a l id

-- The room of that number in the peer's lobby.
abbrev pub peer_room : App → ℕ → ℕ → Option RoomRef
peer_room a p id = room_in a (a.peers p).lobby id

-- `len(r.Users)` as a uint16.
abbrev pub user_count : Room → ℕ
user_count r = length r.users % u16

unfoldable pub on_get_room_count : App → ℕ → ℕ
on_get_room_count a p = elim (a.peers p).lobby [ none ↦ 0 | some l ↦ get_room_count ]

unfoldable pub on_get_room_name : App → ℕ → ℕ → String
on_get_room_name a p id = elim (peer_room a p id) [ none ↦ "error" | some r ↦ (room_at a r).name ]

unfoldable pub on_get_room_join_info : App → ℕ → ℕ → ℕ
on_get_room_join_info a p id = elim (peer_room a p id) [
  | none ↦ 0
  | some r ↦ (room_at a r).max_player
]

unfoldable pub on_get_room_user_count : App → ℕ → ℕ → ℕ
on_get_room_user_count a p id = elim (peer_room a p id) [
  | none ↦ 0
  | some r ↦ user_count (room_at a r)
]

unfoldable pub on_get_room_status : App → ℕ → ℕ → ℕ
on_get_room_status a p id = elim (peer_room a p id) [ none ↦ 0 | some r ↦ (room_at a r).status ]

unfoldable pub on_get_rule_default_index : App → ℕ → ℕ → ℕ → ℕ
on_get_rule_default_index a p id rule_id = elim (peer_room a p id) [
  | none ↦ 0
  | some r ↦ get_rule (room_at a r).rule rule_id
]

-- Whole seconds of a duration in nanoseconds, none where it has passed.
unfoldable pub on_get_room_rest_time : App → ℕ → ℕ → ℕ → ℕ
on_get_room_rest_time a p id now = elim (peer_room a p id) [
  | none ↦ 0
  | some r ↦ ((room_at a r).deadline - now) / 10 ^ 9 % u16
]

abbrev member_strings : Heap → List ℕ → List String
member_strings h [] = []
member_strings h (u ∷ us) = (h u).user_id ∷ (h u).name ∷ (h u).team ∷ member_strings h us

unfoldable pub on_get_room_member : App → ℕ → ℕ → ℕ × List String
on_get_room_member a p id = elim (peer_room a p id) [
  | none ↦ (0, [])
  | some r ↦ (user_count (room_at a r), member_strings a.heap (room_at a r).users)
]

abbrev entry_list : Heap → List ℕ → List (String × ℕ)
entry_list h [] = []
entry_list h (u ∷ us) = ((h u).user_id, (h u).entry) ∷ entry_list h us

-- The count is a byte; the two lists are one of pairs.
unfoldable pub on_get_room_entry_list : App → ℕ → ℕ → ℕ × List (String × ℕ)
on_get_room_entry_list a p id = elim (peer_room a p id) [
  | none ↦ (0, [])
  | some r ↦ (length (room_at a r).users % 256, entry_list a.heap (room_at a r).users)
]

unfoldable pub on_get_room_match_entry_user_count : App → ℕ → ℕ → ℕ × ℕ
on_get_room_match_entry_user_count a p id = elim (peer_room a p id) [
  | none ↦ (0, 0)
  | some r ↦ get_entry_user_count a.heap (room_at a r)
]

-- The loops over `p.Lobby.Users`.
abbrev pub send_lobby : App → Option LobbyRef → List Notice → App
send_lobby a none ns = a
send_lobby a (some l) ns = send_all a (online a (keys (lobby_at a l).users)) ns

abbrev pub set_peer_room : App → ℕ → Option RoomRef → App
set_peer_room a p r = set_peer a p (record (a.peers p) { room = r })

abbrev pub prepare_room : App → ℕ → RoomRef → App
prepare_room a p r =
    send_lobby
      (set_peer_room (set_room a r (record (room_at a r) { status = state_prepare })) p (some r))
      (a.peers p).lobby (room_status (room_at a r).id state_prepare ∷ [])

abbrev pub create_room : App → ℕ → Option RoomRef → Bool × App
create_room a p none = (false, a)
create_room a p (some r) =
    if (room_at a r).status == state_empty then (true, prepare_room a p r) else (false, a)

unfoldable pub on_request_create_room : App → ℕ → ℕ → Bool × App
on_request_create_room a p id = create_room a p (peer_room a p id)

-- A setting of the peer's room, if it has one.
abbrev pub with_own_room : App → Option RoomRef → (Room → Room) → App
with_own_room a none f = a
with_own_room a (some r) f = set_room a r (f (room_at a r))

unfoldable pub on_decide_room_name : App → ℕ → String → App
on_decide_room_name a p name = with_own_room a (a.peers p).room (λ r. record r { name = name })

unfoldable pub on_decide_room_password : App → ℕ → String → App
on_decide_room_password a p pass =
    with_own_room a (a.peers p).room (λ r. record r { password = pass })

unfoldable pub on_decide_rule : App → ℕ → ℕ → ℕ → ℕ × App
on_decide_rule a p rule_id elem_id = (
  elim (a.peers p).room [ none ↦ 0 | some r ↦ 1 ],
  with_own_room a (a.peers p).room (λ r. record r { rule = set_rule r.rule rule_id elem_id }),
)

-- What a lobby's users are told of a room.
abbrev pub room_info : Room → List Notice
room_info r =
    room_status r.id r.status
    ∷ room_user_count r.id (user_count r)
    ∷ room_join_info r.id r.max_player
    ∷ []

abbrev pub enter_room : App → ℕ → RoomRef → ℕ → App
enter_room a p r now = set_room a r (enter a.heap (room_at a r) p now)

abbrev pub finish_rule : App → ℕ → ℕ → Option RoomRef → Option LobbyRef → App
finish_rule a p now none l = a
finish_rule a p now (some r) none = a
finish_rule a p now (some r) (some l) =
    let b = enter_room a p r now in
    send_lobby b (some l) (room_name (room_at b r).id (room_at b r).name ∷ room_info (room_at b r))

unfoldable pub on_decide_rule_finish : App → ℕ → ℕ → App
on_decide_rule_finish a p now = finish_rule a p now (a.peers p).room (a.peers p).lobby

abbrev pub entry_match : App → ℕ → ℕ → Option RoomRef → Option LobbyRef → App
entry_match a p side none l = a
entry_match a p side (some r) none = a
entry_match a p side (some r) (some l) =
    let b = set_side a p side in
    let (aeug, titans) = get_entry_user_count b.heap (room_at b r) in
    send_lobby b (some l) (
      room_entry (room_at b r).id (b.heap p).user_id (b.heap p).entry
      ∷ room_entry_user_count (room_at b r).id aeug titans
      ∷ [])

unfoldable pub on_entry_room_match : App → ℕ → ℕ → App
on_entry_room_match a p side = entry_match a p side (a.peers p).room (a.peers p).lobby

abbrev pub join_members : App → ℕ → RoomRef → App
join_members a p r =
    send_all a (online a (ids_of a.heap (room_at a r).users))
      (join_room (a.heap p).user_id (a.heap p).name (a.heap p).team ∷ [])

abbrev pub admit : App → ℕ → RoomRef → ℕ → App
admit a p r now =
    let b = set_peer_room (enter_room (join_members a p r) p r now) p (some r) in
    send_lobby b (b.peers p).lobby (room_info (room_at b r))

abbrev pub try_room : App → ℕ → ℕ → Option RoomRef → Bool × App
try_room a p now none = (false, a)
try_room a p now (some r) =
    if (room_at a r).status == state_full then (false, a) else (true, admit a p r now)

unfoldable pub on_enter_room : App → ℕ → ℕ → ℕ → Bool × App
on_enter_room a p id now = try_room a p now (peer_room a p id)

-- The owner's room is closed: a member is told, and loses its room and its side.
abbrev pub dismiss_peer : App → Option ℕ → App
dismiss_peer a none = a
dismiss_peer a (some q) = set_side (set_peer_room (send a q (remove_room ∷ [])) q none) q entry_none

abbrev pub dismiss_all : App → String → List ℕ → App
dismiss_all a owner [] = a
dismiss_all a owner (u ∷ us) =
    dismiss_all
      (if str_eq owner (a.heap u).user_id
        then a
        else dismiss_peer a (find a.users (a.heap u).user_id))
      owner us

abbrev pub tell_exit : App → ℕ → RoomRef → App
tell_exit a p r =
    send_all a (online a (ids_of a.heap (room_at a r).users))
      (exit_room (a.heap p).user_id (a.heap p).name (a.heap p).team ∷ [])

-- The members' side of an exit: the room is closed, or the member goes.
abbrev pub leave_room : App → ℕ → RoomRef → App
leave_room a p r =
    if str_eq (room_at a r).owner (a.heap p).user_id
    then (let b = dismiss_all a (room_at a r).owner (room_at a r).users in
        set_room b r (remove (room_at b r)))
    else tell_exit (set_room a r (exit a.heap (room_at a r) (a.heap p).user_id)) p r

abbrev pub exit_from : App → ℕ → Option RoomRef → App
exit_from a p none = a
exit_from a p (some r) =
    let b = set_side (set_peer_room (leave_room a p r) p none) p entry_none in
    send_lobby b (b.peers p).lobby
      (room_name (room_at b r).id (room_at b r).name ∷ room_info (room_at b r))

unfoldable pub on_exit_room : App → ℕ → App
on_exit_room a p = exit_from a p (a.peers p).room
