-- ===== src/Model/Lobby.antt =====
-- pkg/lobby/model/lobby.go: a lobby, its users, and the queue of those who wait for a battle.
pub mod Queue
pub mod Wanted
pub mod Group
mod Tests
use zdxsv.Prelude.{
  ℕ, zero, suc, ◌+◌, ◌%◌, String, str_eq, Bool, true, false, ◌&&◌, ◌||◌, List, [], ◌∷◌, ◌++◌,
  Option, none, some, ◌==◌, if◌then◌else◌, ltb, leb, insert, find, store, erase,
}
use zdxsv.Model.Rule.{Rule, new_rule}
use zdxsv.Model.User.{User, Heap, set_entry, entry_none, entry_aeug, entry_titans}
use zdxsv.Model.Room.{Room, new_room, u16}

abbrev pub room_count : ℕ
room_count = 5

unfoldable pub get_room_count : ℕ
get_room_count = room_count

pub record Lobby : Type 0 where
  pub id : ℕ
  pub platform : String
  pub rule : Rule
  pub users : List (String × ℕ)
  pub rooms : ℕ → Option Room
  pub entry_users : List String

-- The rooms 0 to 5.
unfoldable pub new_lobby : String → ℕ → Lobby
new_lobby platform lobby_id = record {
  id = lobby_id;
  platform = platform;
  rule = new_rule;
  users = [];
  rooms = λ i. if leb i room_count then some (new_room lobby_id i) else none;
  entry_users = [];
}

unfoldable pub enter : Heap → Lobby → ℕ → Lobby
enter h l u = record l { users = store (h u).user_id u l.users }

-- The loop that takes the first occurrence of an id out of the queue.
unfoldable pub drop_id : String → List String → List String
drop_id id [] = []
drop_id id (x ∷ xs) = if str_eq x id then xs else x ∷ drop_id id xs

unfoldable pub exit : Lobby → String → Lobby
exit l id = elim (find l.users id) [
  | none ↦ l
  | some _ ↦ record l { users = erase id l.users; entry_users = drop_id id l.entry_users }
]

-- The heap changes as well as the lobby.
unfoldable pub entry : Heap → Lobby → ℕ → ℕ → Heap × Lobby
entry h l u side = (
  set_entry h u side,
  if side == entry_none
      then record l { entry_users = drop_id (h u).user_id l.entry_users }
      else record l { entry_users = l.entry_users ++ (h u).user_id ∷ [] },
)

-- The loop of `GetEntryUserCount`; ids that are not in the lobby are passed over.
unfoldable pub count_side : Heap → (String → Option ℕ) → List String → ℕ → ℕ → ℕ × ℕ
count_side h users [] a b = (a, b)
count_side h users (id ∷ ids) a b = elim (users id) [
  | none ↦ count_side h users ids a b
  | some u ↦
      count_side h users ids (if (h u).entry == entry_aeug then (a + 1) % u16 else a)
        (if (h u).entry == entry_titans then (b + 1) % u16 else b)
]

unfoldable pub get_entry_user_count : Heap → Lobby → ℕ × ℕ
get_entry_user_count h l = count_side h (find l.users) l.entry_users 0 0

-- Lobby 2 wants one user a side, lobby 3 one user, the others two a side.
unfoldable pub can_start : ℕ → ℕ → ℕ → Bool
can_start lobby_id a b =
    if lobby_id == 2
    then leb 1 a && leb 1 b
    else if lobby_id == 3
    then leb 1 a || leb 1 b
    else leb 2 a && leb 2 b

-- `counts[u.Sync]`, which begins at 0 on both sides.
abbrev pub counts_of : (String → Option (ℕ × ℕ)) → String → ℕ × ℕ
counts_of counts sync = elim (counts sync) [ none ↦ (0, 0) | some c ↦ c ]

unfoldable pub add_entry : User → ℕ × ℕ → ℕ × ℕ
add_entry u (a, b) =
    if u.entry == entry_aeug
    then (a + 1, b)
    else if u.entry == entry_titans
    then (a, b + 1)
    else (a, b)

-- The loop of `startGroup`; `first` is the fingerprint of the first user seen.
unfoldable pub group_loop :
    Heap
    → ℕ
    → (String → Option ℕ)
    → List String
    → Option String
    → (String → Option (ℕ × ℕ))
    → String × Bool
group_loop h lobby_id users [] first counts = (elim first [ none ↦ "" | some sync ↦ sync ], false)
group_loop h lobby_id users (id ∷ ids) first counts = elim (users id) [
  | none ↦ group_loop h lobby_id users ids first counts
  | some u ↦
      let sync = (h u).sync in
      let c = add_entry (h u) (counts_of counts sync) in
      let seen = elim first as (λ _. Option String) [ none ↦ some sync | some s ↦ some s ] in
      let rest = group_loop h lobby_id users ids seen (insert sync c counts) in
      if can_start lobby_id c.0 c.1 then (sync, true) else rest
]

unfoldable pub start_group : Heap → Lobby → String × Bool
start_group h l = group_loop h l.id (find l.users) l.entry_users none (λ _. none)

unfoldable pub can_battle_start : Heap → Lobby → Bool
can_battle_start h l = (start_group h l).1

-- The loop of `StartBattleUsers` over the entries of the group `sync`.
unfoldable pub pick_users : Heap → (String → Option ℕ) → String → List String → ℕ → ℕ → List ℕ
pick_users h users sync [] a b = []
pick_users h users sync (id ∷ ids) a b = elim (users id) [
  | none ↦ pick_users h users sync ids a b
  | some u ↦
      if str_eq (h u).sync sync
      then (if (h u).entry == entry_aeug
          then (let rest = pick_users h users sync ids ((a + 1) % u16) b in
              if ltb a 2 then u ∷ rest else rest)
          else if (h u).entry == entry_titans
          then (let rest = pick_users h users sync ids a ((b + 1) % u16) in
              if ltb b 2 then u ∷ rest else rest)
          else pick_users h users sync ids a b)
      else pick_users h users sync ids a b
]

unfoldable pub start_battle_users : Heap → Lobby → List ℕ
start_battle_users h l = pick_users h (find l.users) (start_group h l).0 l.entry_users 0 0
