-- ===== src/App/Handlers/Rooms.antt =====
-- pkg/lobby/msg_room.go: the handlers of the messages about rooms.
use zdxsv.Prelude.{ℕ, String, List, [], ◌∷◌, if◌then◌else◌, take}
use zdxsv.Model.Rule.{rule_count, rule_title, rule_element_count, rule_element_name}
use zdxsv.Message.Body.{read8, write8, write16}
use zdxsv.App.Start.{on_notice_room_battle_start}
use zdxsv.App.Rooms.{
  on_get_room_count, on_get_room_name, on_get_room_join_info, on_get_room_user_count,
  on_get_room_status, on_get_rule_default_index, on_get_room_rest_time, on_get_room_member,
  on_get_room_entry_list, on_get_room_match_entry_user_count, on_request_create_room,
  on_decide_room_name, on_decide_room_password, on_decide_rule, on_decide_rule_finish,
  on_entry_room_match, on_enter_room, on_exit_room,
}
use zdxsv.App.Handlers.{
  Context, Handler, answer_body, answer_empty, answer_error, first16, first8, second8, third8,
  read_text, write_text,
}

abbrev pub get_room_count : Handler
get_room_count c a p m = answer_body a p m (write16 [] (on_get_room_count a p))

abbrev pub get_room_name : Handler
get_room_name c a p m =
    answer_body a p m (write_text c (write16 [] (first16 m)) (on_get_room_name a p (first16 m)))

abbrev pub get_room_join_info : Handler
get_room_join_info c a p m = answer_body a p m (
    write16
      (write16
        (write16
          (write16 (write16 (write16 [] (first16 m)) (on_get_room_join_info a p (first16 m))) 0) 0)
        0xffff)
      0)

abbrev pub get_room_user_count : Handler
get_room_user_count c a p m =
    let count = on_get_room_user_count a p (first16 m) in
    answer_body a p m (
      write16
        (write16 (write16 (write16 (write16 [] (first16 m)) count) 0)
          (on_get_room_join_info a p (first16 m)))
        count)

abbrev pub get_room_status : Handler
get_room_status c a p m =
    answer_body a p m (write8 (write16 [] (first16 m)) (on_get_room_status a p (first16 m)))

-- `OnGetRoomPasswordInfo` never finds one.
abbrev pub get_room_password_info : Handler
get_room_password_info c a p m = answer_body a p m (write8 (write16 [] (first16 m)) 0)

abbrev pub request_create_room : Handler
request_create_room c a p m =
    let (ok, b) = on_request_create_room a p (first16 m) in
    if ok
    then answer_body b p m (write16 [] (first16 m))
    else answer_error b p m (write_text c [] "<B>エラー<B> ")

abbrev pub get_rule_count : Handler
get_rule_count c a p m = answer_body a p m (write8 [] rule_count)

-- `OnGetNamePermission` and `OnGetPasswordPermission` are constants.
abbrev pub get_name_permission : Handler
get_name_permission c a p m = answer_body a p m (write8 [] 1)

abbrev pub get_password_permission : Handler
get_password_permission c a p m = answer_body a p m (write8 [] 0)

abbrev pub get_rule_name : Handler
get_rule_name c a p m =
    answer_body a p m (write_text c (write8 [] (second8 m)) (rule_title (second8 m)))

abbrev pub get_rule_permission : Handler
get_rule_permission c a p m = answer_body a p m (write8 (write8 [] (second8 m)) 1)

abbrev pub get_rule_default_index : Handler
get_rule_default_index c a p m =
    answer_body a p m
      (write8 (write8 [] (second8 m)) (on_get_rule_default_index a p (first16 m) (second8 m)))

abbrev pub get_rule_element_name : Handler
get_rule_element_name c a p m = answer_body a p m (
    write_text c (write8 (write8 [] (second8 m)) (third8 m))
      (rule_element_name (second8 m) (third8 m)))

abbrev pub get_rule_control : Handler
get_rule_control c a p m = answer_body a p m (write8 (write8 (write8 [] (second8 m)) (third8 m)) 0)

abbrev pub get_rule_element_count : Handler
get_rule_element_count c a p m =
    answer_body a p m (write8 (write8 [] (second8 m)) (rule_element_count (second8 m)))

abbrev pub decide_room_name : Handler
decide_room_name c a p m = answer_empty (on_decide_room_name a p (read_text c m m.body).0) p m

abbrev pub decide_room_password : Handler
decide_room_password c a p m =
    answer_empty (on_decide_room_password a p (read_text c m m.body).0) p m

abbrev pub decide_rule : Handler
decide_rule c a p m =
    let (rule_id, rest) = read8 m.body in
    let (nazo, b) = on_decide_rule a p rule_id (read8 rest).0 in answer_body b p m (write8 [] nazo)

abbrev pub decide_rule_finish : Handler
decide_rule_finish c a p m = answer_empty (on_decide_rule_finish a p c.outside.now) p m

abbrev pub get_room_rest_time : Handler
get_room_rest_time c a p m =
    answer_body a p m
      (write16 (write16 [] (first16 m)) (on_get_room_rest_time a p (first16 m) c.outside.now))

abbrev write_texts : Context → List ℕ → List String → List ℕ
write_texts c buf [] = buf
write_texts c buf (s ∷ ss) = write_texts c (write_text c buf s) ss

abbrev pub get_room_member : Handler
get_room_member c a p m =
    let (count, users) = on_get_room_member a p (first16 m) in
    answer_body a p m (write_texts c (write16 (write16 [] (first16 m)) count) users)

abbrev write_entries : Context → List ℕ → List (String × ℕ) → List ℕ
write_entries c buf [] = buf
write_entries c buf ((id, side) ∷ es) = write_entries c (write8 (write_text c buf id) side) es

abbrev pub get_room_entry_list : Handler
get_room_entry_list c a p m =
    let (count, entries) = on_get_room_entry_list a p (first16 m) in
    answer_body a p m (write_entries c (write8 (write16 [] (first16 m)) count) (take count entries))

abbrev pub entry_room_match : Handler
entry_room_match c a p m =
    answer_body (on_entry_room_match a p (first8 m)) p m (write8 [] (first8 m))

-- The answer does not say whether the peer was let in.
abbrev pub enter_room : Handler
enter_room c a p m = answer_empty (on_enter_room a p (first16 m) c.outside.now).1 p m

abbrev pub exit_room : Handler
exit_room c a p m = answer_empty (on_exit_room a p) p m

abbrev pub get_room_match_entry_user_count : Handler
get_room_match_entry_user_count c a p m =
    let (aeug, titans) = on_get_room_match_entry_user_count a p (first16 m) in
    answer_body a p m (write16 (write16 (write16 [] (first16 m)) aeug) titans)

abbrev pub notice_room_battle_start : Handler
notice_room_battle_start c a p m = on_notice_room_battle_start c.outside a p

-- The handlers that answer, under their commands.
abbrev pub room_handlers : List (ℕ × Handler)
room_handlers =
    (0x6401, get_room_count)
    ∷ (0x6402, get_room_name)
    ∷ (0x640b, get_room_join_info)
    ∷ (0x6403, get_room_user_count)
    ∷ (0x6404, get_room_status)
    ∷ (0x6405, get_room_password_info)
    ∷ (0x6407, request_create_room)
    ∷ (0x6603, get_rule_count)
    ∷ (0x6601, get_name_permission)
    ∷ (0x6602, get_password_permission)
    ∷ (0x6604, get_rule_name)
    ∷ (0x6605, get_rule_permission)
    ∷ (0x6606, get_rule_default_index)
    ∷ (0x6608, get_rule_element_name)
    ∷ (0x660e, get_rule_control)
    ∷ (0x6607, get_rule_element_count)
    ∷ (0x6609, decide_room_name)
    ∷ (0x660a, decide_room_password)
    ∷ (0x660b, decide_rule)
    ∷ (0x660c, decide_rule_finish)
    ∷ (0x6409, get_room_rest_time)
    ∷ (0x640a, get_room_member)
    ∷ (0x6413, get_room_entry_list)
    ∷ (0x6504, entry_room_match)
    ∷ (0x6406, enter_room)
    ∷ (0x6501, exit_room)
    ∷ (0x6412, get_room_match_entry_user_count)
    ∷ []
