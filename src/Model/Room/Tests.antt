-- ===== src/Model/Room/Tests.antt =====
-- A room with three members.
use zdxsv.Prelude.{
  ℕ, suc, ◌+◌, ◌≤◌, ◌≡◌, ◌↔◌, refl, String, ne_of_str_eq, true, [], ◌∷◌, ◌++◌, min, length, arith,
  if◌then◌else◌, ◌==◌,
}
use mathlib.Core.List.{Perm}
use zdxsv.Model.User.{zero_user, User, Heap, entry_aeug, entry_titans}
use zdxsv.Model.Room.{
  Room, new_room, state_full, state_recruit, enter, exit, start_battle_users, can_battle_start,
}
use zdxsv.Model.Room.Status.{IsSound, others, enter_lem, terms, terms_for, exit_lem}
use zdxsv.Model.Room.Start.{on_side, start_battle_users_lem, can_battle_start_iff}

abbrev user : String → ℕ → User
user id side = record zero_user { user_id = id; entry = side; sync = "" }

abbrev heap : Heap
heap p = if p == 0 then user "AAAAAA" 1 else if p == 1 then user "BBBBBB" 2 else user "CCCCCC" 1

room : Room
unfolding new_room
room = record (new_room 4 1) { users = 0 ∷ 1 ∷ 2 ∷ []; max_player = 4; status = 3 }

enter_lem_example :
    ((enter heap room 0 0).users ≡ room.users ++ 0 ∷ [])
    × (terms (enter heap room 0 0) ≡ terms_for heap room 0 0 room.users)
    × ((enter heap room 0 0).status ≡ (
        if suc (length room.users) == (enter heap room 0 0).max_player
        then state_full
        else state_recruit))
enter_lem_example = enter_lem heap room 0 0

exit_lem_example :
    ((exit heap room "BBBBBB").users ≡ others heap "BBBBBB" room.users)
    × IsSound (exit heap room "BBBBBB")
unfolding room
exit_lem_example =
    exit_lem heap room "BBBBBB" (
      (ne_of_str_eq _ _ refl, (ne_of_str_eq _ _ refl, tt)),
      ((ne_of_str_eq _ _ refl, tt), (tt, tt)),
    )

start_battle_users_lem_example :
    Perm ((start_battle_users heap room).0 ++ (start_battle_users heap room).1) room.users
    × (on_side heap entry_aeug (start_battle_users heap room).0
        ≡ min 2 (on_side heap entry_aeug room.users))
    × (on_side heap entry_titans (start_battle_users heap room).0
        ≡ min 2 (on_side heap entry_titans room.users))
    × (length (start_battle_users heap room).0
        ≡ min 2 (on_side heap entry_aeug room.users) + min 2 (on_side heap entry_titans room.users))
unfolding room
start_battle_users_lem_example = start_battle_users_lem heap room (omega arith)

can_battle_start_iff_example : (can_battle_start heap room ≡ true) ↔ (
    (1 ≤ on_side heap entry_aeug room.users)
    × (on_side heap entry_aeug room.users ≤ 2)
    × (1 ≤ on_side heap entry_titans room.users)
    × (on_side heap entry_titans room.users ≤ 2))
unfolding room
can_battle_start_iff_example = can_battle_start_iff heap room (omega arith)
