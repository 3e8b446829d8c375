-- ===== src/App.antt =====
-- pkg/lobby/app.go: the lobby server's state, its peers and what they are sent.
pub mod Rooms
pub mod Leaving
pub mod Lobbies
pub mod Start
pub mod SignIn
pub mod Members
pub mod Handlers
mod Tests
use zdxsv.Prelude.{
  ℕ, ◌+◌, String, Bool, true, false, ◌&&◌, List, [], ◌∷◌, ◌++◌, Option, none, some, ◌==◌,
  if◌then◌else◌, ltb, str_eq, find, erase,
}
use zdxsv.Model.User.{User, Heap, zero_user, entry_none, set_entry}
use zdxsv.Model.Room.{Room, new_room}
use zdxsv.Model.Lobby.{Lobby, new_lobby}
use zdxsv.Model.Battle.{Battle, new_battle}
use zdxsv.Battle.Rpc.{BattleRpc}
use zdxsv.Message.{Message}

-- What the application sends by itself: the notices of msg_lobby.go, msg_room.go, msg_battle.go and
-- msg_login.go, and the question for the result of a battle.
pub data Notice : Type 0 where
  lobby_user_count : ℕ → ℕ → ℕ → Notice
  lobby_entry_user_count : ℕ → ℕ → ℕ → Notice
  plaza_join_user : ℕ → ℕ → Notice
  chat_message : String → String → String → Notice
  room_entry : ℕ → String → ℕ → Notice
  room_name : ℕ → String → Notice
  room_entry_user_count : ℕ → ℕ → ℕ → Notice
  room_status : ℕ → ℕ → Notice
  room_user_count : ℕ → ℕ → Notice
  room_join_info : ℕ → ℕ → Notice
  exit_room : String → String → String → Notice
  join_room : String → String → String → Notice
  remove_room : Notice
  battle_start : Notice
  battle_after_room_user_count : ℕ → Notice
  user_id_list : List (String × String × String) → Notice
  login_ok : Notice
  ask_battle_result : Notice

-- A message to a peer: a notice, or the answer to a question.
pub data Sent : Type 0 where
  notice : Notice → Sent
  reply : Message → Sent

abbrev pub notices : List Notice → List Sent
notices [] = []
notices (n ∷ ns) = notice n ∷ notices ns

-- A lobby is found by platform and id, and a room by its lobby and its id: neither is ever replaced, so
-- these stand for the pointers.
pub record LobbyRef : Type 0 where
  pub at_platform : String
  pub at_lobby : ℕ

pub record RoomRef : Type 0 where
  pub in_lobby : LobbyRef
  pub at_room : ℕ

-- `AppPeer`, with the embedded user in the heap under the same number. Of the connection it has the host
-- of its address as `tcp_ip`, or "" if there is none.
pub record AppPeer : Type 0 where
  pub room : Option RoomRef
  pub lobby : Option LobbyRef
  pub battle : Option ℕ
  pub in_battle_after_room : Bool
  pub platform : String
  pub platform_info : String → String
  pub tcp_ip : String
  pub proxy_ip : List ℕ
  pub proxy_port : ℕ
  pub proxy_p2p_connected : String → Bool
  pub proxy_reg_time : ℕ
  pub proxy_use_time : ℕ

-- `users`, `lobbys` and `battles` as in the source; a platform's lobbies are new until they are used,
-- whether or not they have been made. `next_battle` is the first free pointer to a battle. `mail` has
-- what each peer has been sent, the oldest first.
pub record App : Type 0 where
  pub heap : Heap
  pub peers : ℕ → AppPeer
  pub users : List (String × ℕ)
  pub lobbys : String → ℕ → Lobby
  pub battles : List (String × ℕ)
  pub battle_store : ℕ → Battle
  pub next_battle : ℕ
  pub battle_server : Option BattleRpc
  pub mail : ℕ → List Sent

abbrev pub lobby_count : ℕ
lobby_count = 26

-- `NewPeer` gives the console's platform.
abbrev pub new_peer : AppPeer
new_peer = record {
  room = none;
  lobby = none;
  battle = none;
  in_battle_after_room = false;
  platform = "console";
  platform_info = λ k. "";
  tcp_ip = "";
  proxy_ip = [];
  proxy_port = 0;
  proxy_p2p_connected = λ id. false;
  proxy_reg_time = 0;
  proxy_use_time = 0;
}

abbrev pub new_app : App
new_app = record {
  heap = λ p. zero_user;
  peers = λ p. new_peer;
  users = [];
  lobbys = λ platform id. new_lobby platform id;
  battles = [];
  battle_store = λ b. new_battle "" 0 0;
  next_battle = 0;
  battle_server = none;
  mail = λ p. [];
}

-- `SetBattleServer`, or `connectToBattleServer` with what the other process has.
abbrev pub connect_to_battle_server : App → BattleRpc → App
connect_to_battle_server a server = record a { battle_server = some server }

abbrev pub put_at {ℓ} : {A : Type ℓ} → (ℕ → A) → ℕ → A → ℕ → A
put_at f k v j = if j == k then v else f j

abbrev pub get_lobby : App → String → ℕ → Option LobbyRef
get_lobby a platform id =
    if ltb id lobby_count then some (record { at_platform = platform; at_lobby = id }) else none

abbrev pub lobby_at : App → LobbyRef → Lobby
lobby_at a l = a.lobbys l.at_platform l.at_lobby

abbrev pub set_lobby : App → LobbyRef → Lobby → App
set_lobby a l v = record a {
  lobbys = λ platform id.
      if str_eq platform l.at_platform && id == l.at_lobby then v else a.lobbys platform id;
}

abbrev pub room_ref : LobbyRef → ℕ → Option Room → Option RoomRef
room_ref l id none = none
room_ref l id (some v) = some (record { in_lobby = l; at_room = id })

-- `Lobby.Rooms[roomID]`.
abbrev pub find_room : App → LobbyRef → ℕ → Option RoomRef
find_room a l id = room_ref l id ((lobby_at a l).rooms id)

abbrev pub room_at : App → RoomRef → Room
room_at a r = elim ((lobby_at a r.in_lobby).rooms r.at_room) [
  | none ↦ new_room r.in_lobby.at_lobby r.at_room
  | some v ↦ v
]

abbrev pub set_room : App → RoomRef → Room → App
set_room a r v = set_lobby a r.in_lobby (record (lobby_at a r.in_lobby) {
  rooms = put_at (lobby_at a r.in_lobby).rooms r.at_room (some v);
})

abbrev pub set_peer : App → ℕ → AppPeer → App
set_peer a p v = record a { peers = put_at a.peers p v }

abbrev pub set_user : App → ℕ → User → App
set_user a p v = record a { heap = put_at a.heap p v }

abbrev pub send : App → ℕ → List Notice → App
send a p ns = record a { mail = put_at a.mail p (a.mail p ++ notices ns) }

-- `p.Entry = side`
abbrev pub set_side : App → ℕ → ℕ → App
set_side a p side = record a { heap = set_entry a.heap p side }

abbrev add_peer : Option ℕ → List ℕ → List ℕ
add_peer none ps = ps
add_peer (some p) ps = p ∷ ps

-- A loop over ids that looks each one up in `a.users`: the peers found.
abbrev pub online : App → List String → List ℕ
online a [] = []
online a (id ∷ ids) = let rest = online a ids in add_peer (find a.users id) rest

abbrev pub send_all : App → List ℕ → List Notice → App
send_all a [] ns = a
send_all a (p ∷ ps) ns = send_all (send a p ns) ps ns

abbrev pub keys {ℓ} : {A : Type ℓ} → List (String × A) → List String
keys [] = []
keys ((k, v) ∷ es) = k ∷ keys es

abbrev pub ids_of : Heap → List ℕ → List String
ids_of h [] = []
ids_of h (u ∷ us) = (h u).user_id ∷ ids_of h us
