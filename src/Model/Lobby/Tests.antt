-- ===== src/Model/Lobby/Tests.antt =====
-- The lobby of Kennedy Port (id 2), where one user a side is enough.
use zdxsv.Prelude.{
  ℕ, ◌+◌, ◌≡◌, ◌↔◌, refl, String, true, [], ◌∷◌, min, length, arith, if◌then◌else◌, ◌==◌, All,
}
use zdxsv.Prelude.{find}
use zdxsv.Model.User.{zero_user, User, Heap, entry_aeug, entry_titans}
use zdxsv.Model.Room.Start.{on_side}
use zdxsv.Model.Lobby.{
  get_room_count, get_entry_user_count, count_side, exit, drop_id, Lobby, new_lobby, enter, entry,
  can_start, start_group, can_battle_start, group_loop, add_entry, start_battle_users, pick_users,
}
use zdxsv.Model.Lobby.Group.{entries_on, IsReady, can_battle_start-IsReady}
use zdxsv.Model.Lobby.Wanted.{Enough}
use zdxsv.Model.Lobby.Queue.{start_battle_users_sides}

abbrev user : String → ℕ → User
user id side = record zero_user { user_id = id; entry = side; sync = "s" }

abbrev heap : Heap
heap p = if p == 0 then user "AAAAAA" 1 else user "BBBBBB" 2

lobby : Lobby
unfolding new_lobby enter entry
lobby =
    let l = enter heap (enter heap (new_lobby "ps2" 2) 0) 1 in
    (entry heap (entry heap l 0 1).1 1 2).1

starts : can_battle_start heap lobby ≡ true
unfolding lobby can_battle_start start_group group_loop add_entry can_start
starts = refl

can_battle_start-IsReady_example :
    ((can_battle_start heap lobby ≡ true) ↔ ((s : String) × IsReady heap lobby s))
    × (can_battle_start heap lobby ≡ true → IsReady heap lobby (start_group heap lobby).0)
can_battle_start-IsReady_example = can_battle_start-IsReady heap lobby

start_battle_users_sides_example :
    All (λ u. (heap u).sync ≡ (start_group heap lobby).0) (start_battle_users heap lobby)
    × (length (start_battle_users heap lobby)
        ≡ on_side heap entry_aeug (start_battle_users heap lobby)
          + on_side heap entry_titans (start_battle_users heap lobby))
    × (on_side heap entry_aeug (start_battle_users heap lobby)
        ≡ min 2 (
            entries_on heap
              (find lobby.users)
              (start_group heap lobby).0
              entry_aeug
              lobby.entry_users))
    × (on_side heap entry_titans (start_battle_users heap lobby)
        ≡ min 2 (
            entries_on heap
              (find lobby.users)
              (start_group heap lobby).0
              entry_titans
              lobby.entry_users))
    × Enough lobby.id
        (on_side heap entry_aeug (start_battle_users heap lobby))
        (on_side heap entry_titans (start_battle_users heap lobby))
unfolding lobby
start_battle_users_sides_example = start_battle_users_sides heap lobby (omega arith) starts

rooms_below_six : (get_room_count ≡ 5) × (get_entry_user_count heap lobby ≡ (1, 1))
unfolding get_room_count get_entry_user_count count_side lobby
rooms_below_six = (refl, refl)

exit_twice : (exit (exit lobby "AAAAAA") "AAAAAA").entry_users ≡ "BBBBBB" ∷ []
unfolding exit lobby drop_id
exit_twice = refl

-- A user who enters the same side again is in the queue twice, and fights beside himself.
entered_twice : start_battle_users heap (entry heap lobby 0 1).1 ≡ 0 ∷ 1 ∷ 0 ∷ []
unfolding lobby entry start_battle_users pick_users start_group group_loop add_entry can_start
entered_twice = refl
