-- ===== src/App/Lobbies.antt =====
-- pkg/lobby/app_core.go: the handlers about lobbies and about the room after a battle.
use zdxsv.Prelude.{
  ℕ, ◌+◌, ◌%◌, String, Bool, true, false, ◌&&◌, ◌||◌, not, List, [], ◌∷◌, Option, none, some, ◌==◌,
  if◌then◌else◌, str_eq, find, erase, length,
}
use zdxsv.Model.User.{User}
use zdxsv.Model.Room.{u16}
use zdxsv.Model.Lobby.{get_entry_user_count, enter, exit}
use zdxsv.Model.Battle.{Battle, get_position, get_user_by_pos}
use zdxsv.Model.Rule.{Rule}
use zdxsv.App.{
  lobby_user_count, plaza_join_user, battle_after_room_user_count, LobbyRef, RoomRef, App,
  get_lobby, lobby_at, set_lobby, set_peer, set_user, send_all, online,
}
use zdxsv.App.Rooms.{on_exit_room}

-- Battles with a platform, and of them those of a lobby.
abbrev count_platform : (ℕ → Battle) → String → List (String × ℕ) → ℕ
count_platform s platform [] = 0
count_platform s platform ((id, b) ∷ bs) =
    let rest = count_platform s platform bs in
    if str_eq (s b).platform platform then 1 + rest else rest

abbrev count_lobby : (ℕ → Battle) → String → ℕ → List (String × ℕ) → ℕ
count_lobby s platform lobby [] = 0
count_lobby s platform lobby ((id, b) ∷ bs) =
    let rest = count_lobby s platform lobby bs in
    if str_eq (s b).platform platform && (s b).lobby_id == lobby then 1 + rest else rest

unfoldable pub count_battles : App → String → ℕ
count_battles a platform = count_platform a.battle_store platform a.battles

unfoldable pub on_get_plaza_join_user : App → ℕ → ℕ
on_get_plaza_join_user a p = count_battles a (a.peers p).platform % u16

-- The peers of `a.users` on a platform.
abbrev pub on_platform : App → String → List (String × ℕ) → List ℕ
on_platform a platform [] = []
on_platform a platform ((id, p) ∷ es) =
    let rest = on_platform a platform es in
    if str_eq (a.peers p).platform platform then p ∷ rest else rest

abbrev pub notice_user_count : App → Option LobbyRef → App
notice_user_count a none = a
notice_user_count a (some l) = send_all a (on_platform a l.at_platform a.users) (
    lobby_user_count l.at_lobby (length (lobby_at a l).users % u16)
      (count_lobby a.battle_store l.at_platform l.at_lobby a.battles % u16)
    ∷ [])

unfoldable pub notice_lobby_user_count_all : App → String → ℕ → App
notice_lobby_user_count_all a platform id = notice_user_count a (get_lobby a platform id)

-- `PlatformFromInfo` of pkg/lobby/model/platform.go.
unfoldable pub platform_from_info : (String → String) → String
platform_from_info info = if str_eq (info "emulator") "" then "console" else "emu"

abbrev pub is_some {ℓ} : {A : Type ℓ} → Option A → Bool
is_some none = false
is_some (some x) = true

unfoldable pub on_platform_info : App → ℕ → (String → String) → App
on_platform_info a p info =
    if is_some (a.peers p).lobby || is_some (a.peers p).room || is_some (a.peers p).battle
    then a
    else set_peer a p
        (record (a.peers p) { platform_info = info; platform = platform_from_info info })

-- The fingerprint is kept where it matches the pattern.
abbrev pub with_sync : App → (String → Bool) → ℕ → App
with_sync a is_fingerprint p =
    let s = (a.peers p).platform_info "sync" in
    set_user a p (record (a.heap p) { sync = if is_fingerprint s then s else "" })

abbrev pub join_lobby : App → ℕ → LobbyRef → App
join_lobby a p l =
    set_lobby (set_peer a p (record (a.peers p) { lobby = some l })) l
      (enter a.heap (lobby_at a l) p)

abbrev pub enter_lobby : App → (String → Bool) → ℕ → Option LobbyRef → App
enter_lobby a is_fingerprint p none = a
enter_lobby a is_fingerprint p (some l) =
    notice_lobby_user_count_all (join_lobby (with_sync a is_fingerprint p) p l) l.at_platform
      l.at_lobby

-- `is_fingerprint` is the regular expression `syncFingerprint`.
unfoldable pub on_enter_lobby : App → (String → Bool) → ℕ → ℕ → App
on_enter_lobby a is_fingerprint p id =
    enter_lobby a is_fingerprint p (get_lobby a (a.peers p).platform id)

abbrev pub exit_any_room : App → ℕ → Option RoomRef → App
exit_any_room a p none = a
exit_any_room a p (some r) = on_exit_room a p

abbrev pub leave_lobby : App → ℕ → LobbyRef → App
leave_lobby a p l = set_lobby a l (exit (lobby_at a l) (a.heap p).user_id)

abbrev pub exit_this_lobby : App → ℕ → Option LobbyRef → App
exit_this_lobby a p none = a
exit_this_lobby a p (some l) =
    let b = notice_lobby_user_count_all (leave_lobby a p l) l.at_platform l.at_lobby in
    set_peer b p (record (b.peers p) { lobby = none })

unfoldable pub on_exit_lobby : App → ℕ → App
on_exit_lobby a p =
    let b = exit_any_room a p (a.peers p).room in exit_this_lobby b p (b.peers p).lobby

unfoldable pub on_get_lobby_user_count : App → ℕ → ℕ → ℕ
on_get_lobby_user_count a p id = elim (get_lobby a (a.peers p).platform id) [
  | none ↦ 0
  | some l ↦ length (lobby_at a l).users % u16
]

unfoldable pub on_get_lobby_entry_user_count : App → ℕ → ℕ → ℕ × ℕ
on_get_lobby_entry_user_count a p id = elim (get_lobby a (a.peers p).platform id) [
  | none ↦ (0, 0)
  | some l ↦ get_entry_user_count a.heap (lobby_at a l)
]

-- The battle's questions. A nil battle gives zeros.
unfoldable pub on_get_battle_user_count : App → ℕ → ℕ
on_get_battle_user_count a p = elim (a.peers p).battle [
  | none ↦ 0
  | some b ↦ length (a.battle_store b).users % 256
]

unfoldable pub on_get_battle_user_position : App → ℕ → ℕ
on_get_battle_user_position a p = elim (a.peers p).battle [
  | none ↦ 0
  | some b ↦ get_position (a.battle_store b) (a.heap p).user_id
]

unfoldable pub on_get_battle_opponent_user : App → ℕ → ℕ → Option User
on_get_battle_opponent_user a p pos = elim (a.peers p).battle [
  | none ↦ none
  | some b ↦ get_user_by_pos (a.battle_store b) pos
]

unfoldable pub on_get_battle_rule : App → ℕ → Option Rule
on_get_battle_rule a p = elim (a.peers p).battle [
  | none ↦ none
  | some b ↦ some (a.battle_store b).rule
]

unfoldable pub on_get_battle_code : App → ℕ → Option String
on_get_battle_code a p = elim (a.peers p).battle [
  | none ↦ none
  | some b ↦ some (a.battle_store b).battle_code
]

-- A player over UDP is sent to its own proxy.
unfoldable pub on_get_battle_server_address : App → ℕ → List ℕ × ℕ
on_get_battle_server_address a p = elim (a.peers p).battle [
  | none ↦ ([], 0)
  | some b ↦
      if (a.battle_store b).udp_users (a.heap p).user_id
      then ((a.peers p).proxy_ip, (a.peers p).proxy_port)
      else ((a.battle_store b).server_ip, (a.battle_store b).server_port)
]

abbrev pub is_battle : ℕ → Option ℕ → Bool
is_battle b none = false
is_battle b (some c) = c == b

-- The battle's users who are back and wait in its room.
abbrev pub back_users : App → ℕ → List ℕ → List ℕ
back_users a b [] = []
back_users a b (p ∷ ps) =
    let rest = back_users a b ps in
    if (a.peers p).in_battle_after_room && is_battle b (a.peers p).battle then p ∷ rest else rest

abbrev names : List User → List String
names [] = []
names (u ∷ us) = u.user_id ∷ names us

abbrev pub after_room_of : App → ℕ → List ℕ
after_room_of a b = back_users a b (online a (names (a.battle_store b).users))

unfoldable pub notice_battle_after_room_user_count_all : App → ℕ → ℕ × App
notice_battle_after_room_user_count_all a b =
    let count = length (after_room_of a b) % u16 in
    (count, send_all a (after_room_of a b) (battle_after_room_user_count count ∷ []))

-- The peers outside of lobbies hear how many battles there are.
abbrev pub outside : App → String → List (String × ℕ) → List ℕ
outside a platform [] = []
outside a platform ((id, p) ∷ es) =
    let rest = outside a platform es in
    if not (is_some (a.peers p).lobby) && str_eq (a.peers p).platform platform
    then p ∷ rest
    else rest

abbrev pub come_back : App → ℕ → Option ℕ → App
come_back a p none = a
come_back a p (some b) =
    let battle = a.battle_store b in
    let left = record a { battles = erase (a.heap p).session_id a.battles } in
    let told =
      if battle.lobby_id == 0
      then left
      else notice_lobby_user_count_all left battle.platform battle.lobby_id in
    let back =
      set_peer told p (record (told.peers p) { battle = some b; in_battle_after_room = true }) in
    let counted = (notice_battle_after_room_user_count_all back b).1 in
    send_all counted (outside counted battle.platform counted.users)
      (plaza_join_user 1 (count_battles counted battle.platform % u16) ∷ [])

unfoldable pub on_enter_battle_after_room : App → ℕ → App
on_enter_battle_after_room a p = come_back a p (find a.battles (a.heap p).session_id)

abbrev pub leave_after_room : App → ℕ → Option ℕ → App
leave_after_room a p none = a
leave_after_room a p (some b) =
    (notice_battle_after_room_user_count_all (set_peer a p (record (a.peers p) { battle = none }))
      b).1

unfoldable pub on_exit_battle_after_room : App → ℕ → App
on_exit_battle_after_room a p =
    let out = set_peer a p (record (a.peers p) { in_battle_after_room = false }) in
    leave_after_room out p (a.peers p).battle

unfoldable pub on_get_battle_after_room_user_count : App → ℕ → ℕ × App
on_get_battle_after_room_user_count a p = elim (a.peers p).battle [
  | none ↦ (0, a)
  | some b ↦ notice_battle_after_room_user_count_all a b
]
