-- ===== src/App/Members.antt =====
-- Who is where in the lobby of pkg/lobby/app_core.go: the users online, the lobby and the room of each
-- peer, the lists that lobbies and rooms keep, and the answers that each peer was sent. A move is one change of these; the handlers are
-- sequences of moves.
pub mod Places
pub mod Rooms
pub mod Lobbies
pub mod Sound
pub mod Frames
pub mod Enters
pub mod Doors
pub mod Exits
pub mod Leaves
pub mod Returns
pub mod Queues
pub mod Starts
pub mod History
pub mod Gone
use zdxsv.Prelude.{
  ℕ, String, Bool, true, false, ◌&&◌, List, [], ◌∷◌, ◌++◌, Option, none, some, ◌≡◌, ◌≢◌, ◌==◌,
  if◌then◌else◌, str_eq, find, store, erase, All, In,
}
use zdxsv.Message.{Message}
use zdxsv.App.{Sent, notice, reply, LobbyRef, RoomRef, App, put_at, lobby_at, room_at}

pub record View : Type 0 where
  pub names : ℕ → String
  pub online : List (String × ℕ)
  pub lobby_of : ℕ → Option LobbyRef
  pub room_of : ℕ → Option RoomRef
  pub lobby_users : LobbyRef → List (String × ℕ)
  pub room_users : RoomRef → List ℕ
  pub answers : ℕ → List Message

abbrev pub replies : List Sent → List Message
replies [] = []
replies (notice n ∷ s) = replies s
replies (reply m ∷ s) = m ∷ replies s

abbrev pub view : App → View
view a = record {
  names = λ p. (a.heap p).user_id;
  online = a.users;
  lobby_of = λ p. (a.peers p).lobby;
  room_of = λ p. (a.peers p).room;
  lobby_users = λ l. (lobby_at a l).users;
  room_users = λ r. (room_at a r).users;
  answers = λ p. replies (a.mail p);
}

abbrev pub same_lobby : LobbyRef → LobbyRef → Bool
same_lobby s l = str_eq s.at_platform l.at_platform && s.at_lobby == l.at_lobby

abbrev pub same_room : RoomRef → RoomRef → Bool
same_room s r = same_lobby s.in_lobby r.in_lobby && s.at_room == r.at_room

abbrev pub with_lobby : View → ℕ → Option LobbyRef → View
with_lobby v p l = record v { lobby_of = put_at v.lobby_of p l }

abbrev pub with_room : View → ℕ → Option RoomRef → View
with_room v p r = record v { room_of = put_at v.room_of p r }

abbrev pub with_lobby_users : View → LobbyRef → List (String × ℕ) → View
with_lobby_users v l es = record v {
  lobby_users = λ s. if same_lobby s l then es else v.lobby_users s;
}

abbrev pub with_members : View → RoomRef → List ℕ → View
with_members v r us = record v { room_users = λ s. if same_room s r then us else v.room_users s }

-- Without the first one of that id.
abbrev pub without : (ℕ → String) → String → List ℕ → List ℕ
without names id [] = []
without names id (u ∷ us) =
    let rest = without names id us in if str_eq (names u) id then us else u ∷ rest

abbrev pub no_room : (ℕ → Option RoomRef) → Option ℕ → ℕ → Option RoomRef
no_room room_of none = room_of
no_room room_of (some q) = put_at room_of q none

-- The members but the owner, as far as they are online, get no room.
abbrev pub dismissed :
    (ℕ → String) → List (String × ℕ) → String → (ℕ → Option RoomRef) → List ℕ → ℕ → Option RoomRef
dismissed names online owner room_of [] = room_of
dismissed names online owner room_of (u ∷ us) =
    dismissed names online owner
      (if str_eq owner (names u) then room_of else no_room room_of (find online (names u))) us

abbrev pub IsOnline : View → ℕ → Type 0
IsOnline v p = find v.online (v.names p) ≡ some p

pub data Move : View → View → Type 0 where
  stay : (v : View) → Move v v
  -- A peer that is not online takes a name.
  take_name :
      (v : View) (p : ℕ) (id : String)
      → find v.online (v.names p) ≢ some p
      → v.lobby_of p ≡ none
      → v.room_of p ≡ none
      → Move v (record v { names = put_at v.names p id })
  -- It signs in under a name that nobody has.
  sign_in :
      (v : View) (p : ℕ)
      → find v.online (v.names p) ≡ none
      → Move v (record v { online = store (v.names p) p v.online })
  sign_out :
      (v : View) (p : ℕ)
      → IsOnline v p
      → v.lobby_of p ≡ none
      → v.room_of p ≡ none
      → Move v (record v { online = erase (v.names p) v.online })
  enter_lobby :
      (v : View) (p : ℕ) (l : LobbyRef)
      → IsOnline v p
      → v.lobby_of p ≡ none
      → Move v
          (with_lobby_users (with_lobby v p (some l)) l (store (v.names p) p (v.lobby_users l)))
  exit_lobby :
      (v : View) (p : ℕ) (l : LobbyRef)
      → v.lobby_of p ≡ some l
      → v.room_of p ≡ none
      → Move v (with_lobby (with_lobby_users v l (erase (v.names p) (v.lobby_users l))) p none)
  -- The room is created, or found: it is the peer's, which is not yet a member.
  take_room :
      (v : View) (p : ℕ) (r : RoomRef)
      → v.lobby_of p ≡ some r.in_lobby
      → v.room_of p ≡ none
      → Move v (with_room v p (some r))
  join_room :
      (v : View) (p : ℕ) (r : RoomRef)
      → IsOnline v p
      → v.room_of p ≡ some r
      → All (λ u. u ≢ p) (v.room_users r)
      → Move v (with_members v r (v.room_users r ++ p ∷ []))
  leave_room :
      (v : View) (p : ℕ) (r : RoomRef)
      → IsOnline v p
      → v.room_of p ≡ some r
      → Move v (with_room (with_members v r (without v.names (v.names p) (v.room_users r))) p none)
  close_room :
      (v : View) (p : ℕ) (r : RoomRef)
      → IsOnline v p
      → v.room_of p ≡ some r
      → Move v (
          with_room
            (with_members
              (record v {
                room_of = dismissed v.names v.online (v.names p) v.room_of (v.room_users r);
              })
              r
              [])
            p
            none)

-- Several moves, the first one first.
pub data Moves : View → View → Type 0 where
  done : (v : View) → Moves v v
  next : {v w x : View} → Move v w → Moves w x → Moves v x

abbrev pub Distinct : (ℕ → String) → List ℕ → Type 0
Distinct names [] = Unit {0}
Distinct names (u ∷ us) = All (λ w. names w ≢ names u) us × Distinct names us

-- The users in the lists are those online under their ids, and are in the lobby or the room that the
-- list belongs to; a peer's room is one of its lobby.
pub record IsSound (v : View) : Type 0 where
  pub named : (id : String) (p : ℕ) → find v.online id ≡ some p → v.names p ≡ id
  pub in_lobbies :
      (l : LobbyRef) (id : String) (p : ℕ)
      → find (v.lobby_users l) id ≡ some p
      → (v.names p ≡ id) × (v.lobby_of p ≡ some l) × IsOnline v p
  pub in_rooms :
      (r : RoomRef) (p : ℕ) → In p (v.room_users r) → (v.room_of p ≡ some r) × IsOnline v p
  pub apart : (r : RoomRef) → Distinct v.names (v.room_users r)
  pub placed : (p : ℕ) (r : RoomRef) → v.room_of p ≡ some r → v.lobby_of p ≡ some r.in_lobby
