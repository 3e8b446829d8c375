-- ===== src/App/Handlers/Battles.antt =====
-- pkg/lobby/msg_battle.go: the handlers of the messages about the peer's battle.
use zdxsv.Prelude.{
  ℕ, ◌/◌, ◌%◌, ◌^◌, String, List, [], ◌∷◌, Option, none, some, if◌then◌else◌, ltb, leb,
}
use zdxsv.Model.User.{User}
use zdxsv.Model.Rule.{Rule}
use zdxsv.Model.Rule.Wire.{serialize}
use zdxsv.Message.{Message}
use zdxsv.Message.Body.{write, write8, write16, write32}
use zdxsv.App.{App}
use zdxsv.App.Lobbies.{
  on_get_battle_user_count, on_get_battle_user_position, on_get_battle_opponent_user,
  on_get_battle_rule, on_get_battle_code, on_enter_battle_after_room, on_exit_battle_after_room,
  on_get_battle_after_room_user_count,
}
use zdxsv.App.Handlers.{
  Context, Handler, answer_body, answer_empty, answer_error, first8, write_text,
}

-- A number, or an error where it is 0.
abbrev pub answer_number : App → ℕ → Message → ℕ → App
answer_number a p m n = if ltb 0 n then answer_body a p m (write8 [] n) else answer_error a p m []

abbrev pub get_battle_user_count : Handler
get_battle_user_count c a p m = answer_number a p m (on_get_battle_user_count a p)

abbrev pub get_battle_user_position : Handler
get_battle_user_position c a p m = answer_number a p m (on_get_battle_user_position a p)

abbrev pub opponent_user : Context → App → ℕ → Message → Option User → App
opponent_user c a p m none = answer_error a p m (write8 [] (first8 m))
opponent_user c a p m (some u) =
    let head = write8 (write8 [] (first8 m)) u.entry in
    answer_body a p m (
      write8
        (write_text c (write_text c (write_text c (write_text c head u.user_id) u.name) u.team)
          u.bin)
        (first8 m))

abbrev pub get_battle_opponent_user : Handler
get_battle_opponent_user c a p m =
    opponent_user c a p m (on_get_battle_opponent_user a p (first8 m))

-- The class is a uint16 before it is bounded.
abbrev pub class_of : ℕ → ℕ
class_of wins = let c = wins / 100 % 65536 in if leb 14 c then 14 else c

abbrev pub opponent_status : App → ℕ → Message → Option User → App
opponent_status a p m none = answer_error a p m (write8 [] (first8 m))
opponent_status a p m (some u) =
    let head = write32 (write16 (write8 [] (first8 m)) (class_of u.win_count)) 0 in
    answer_body a p m (
      write32
        (write32 (write32 (write32 head (u.battle_count % 2 ^ 32)) (u.win_count % 2 ^ 32))
          (u.lose_count % 2 ^ 32))
        0)

abbrev pub get_battle_opponent_status : Handler
get_battle_opponent_status c a p m =
    opponent_status a p m (on_get_battle_opponent_user a p (first8 m))

abbrev pub rule_answer : App → ℕ → Message → Option Rule → App
rule_answer a p m none = answer_error a p m []
rule_answer a p m (some rule) = answer_body a p m (write [] (serialize rule))

abbrev pub get_battle_rule : Handler
get_battle_rule c a p m = rule_answer a p m (on_get_battle_rule a p)

abbrev pub code_answer : Context → App → ℕ → Message → Option String → App
code_answer c a p m none = answer_error a p m []
code_answer c a p m (some code) = answer_body a p m (write_text c [] code)

abbrev pub get_battle_battle_code : Handler
get_battle_battle_code c a p m = code_answer c a p m (on_get_battle_code a p)

abbrev pub enter_battle_after_room : Handler
enter_battle_after_room c a p m = answer_empty (on_enter_battle_after_room a p) p m

abbrev pub exit_battle_after_room : Handler
exit_battle_after_room c a p m = answer_empty (on_exit_battle_after_room a p) p m

abbrev pub get_battle_after_room_user_count : Handler
get_battle_after_room_user_count c a p m =
    let (n, b) = on_get_battle_after_room_user_count a p in answer_body b p m (write16 [] n)

abbrev pub battle_handlers : List (ℕ × Handler)
battle_handlers =
    (0x6911, get_battle_user_count)
    ∷ (0x6912, get_battle_user_position)
    ∷ (0x6913, get_battle_opponent_user)
    ∷ (0x6917, get_battle_opponent_status)
    ∷ (0x6914, get_battle_rule)
    ∷ (0x6915, get_battle_battle_code)
    ∷ (0x6210, enter_battle_after_room)
    ∷ (0x6211, exit_battle_after_room)
    ∷ (0x6212, get_battle_after_room_user_count)
    ∷ []
