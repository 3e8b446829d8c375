-- ===== src/App/Members/Sound.antt =====
-- Every sequence of moves keeps the lists of lobbies and rooms sound.
use zdxsv.App.Members.{
  View, IsSound, Move, Moves, stay, take_name, sign_in, sign_out, enter_lobby, exit_lobby,
  take_room, join_room, leave_room, close_room, done, next,
}
use zdxsv.App.Members.Rooms.{
  take_room-IsSound, join_room-IsSound, leave_room-IsSound, close_room-IsSound,
}
use zdxsv.App.Members.Lobbies.{
  take_name-IsSound, sign_in-IsSound, sign_out-IsSound, enter_lobby-IsSound, exit_lobby-IsSound,
}

pub move-IsSound : {v w : View} → Move v w → IsSound v → IsSound w
move-IsSound (stay v) s = s
move-IsSound (take_name v p id off lone out) s = take_name-IsSound v s p id off lone out
move-IsSound (sign_in v p free) s = sign_in-IsSound v s p free
move-IsSound (sign_out v p on lone out) s = sign_out-IsSound v s p on lone out
move-IsSound (enter_lobby v p l on lone) s = enter_lobby-IsSound v s p l on lone
move-IsSound (exit_lobby v p l e out) s = exit_lobby-IsSound v s p l e out
move-IsSound (take_room v p r l n) s = take_room-IsSound v s p r l n
move-IsSound (join_room v p r on e a) s = join_room-IsSound v s p r on e a
move-IsSound (leave_room v p r on e) s = leave_room-IsSound v s p r on e
move-IsSound (close_room v p r on e) s = close_room-IsSound v s p r on e

pub moves-IsSound : {v w : View} → Moves v w → IsSound v → IsSound w
moves-IsSound (done v) s = s
moves-IsSound (next m ms) s = moves-IsSound ms (move-IsSound m s)
