-- ===== src/App/Handlers/Lobbies.antt =====
-- pkg/lobby/msg_lobby.go and pkg/lobby/msg_login.go: the handlers of the messages about lobbies and about
-- signing in and out.
use zdxsv.Prelude.{ℕ, List, [], ◌∷◌}
use zdxsv.Message.Body.{write, write8, write16}
use zdxsv.App.Start.{on_entry_lobby_battle}
use zdxsv.App.SignIn.{on_decide_user_id, on_decide_team, on_set_user_binary}
use zdxsv.App.Lobbies.{
  on_get_plaza_join_user, on_enter_lobby, on_exit_lobby, on_get_lobby_user_count,
}
use zdxsv.App.Leaving.{on_user_logout, on_user_goto_battle, on_user_top_page_jump}
use zdxsv.App.Handlers.{Handler, answer_body, answer_empty, first16, first8, read_text, write_text}

abbrev pub get_plaza_count : Handler
get_plaza_count c a p m = answer_body a p m (write16 [] 25)

abbrev pub enter_plaza : Handler
enter_plaza c a p m = answer_empty a p m

abbrev pub get_plaza_join_user : Handler
get_plaza_join_user c a p m =
    answer_body a p m (write16 (write16 (write16 [] (first16 m)) 0) (on_get_plaza_join_user a p))

abbrev pub get_plaza_status : Handler
get_plaza_status c a p m = answer_body a p m (write8 (write16 [] (first16 m)) 2)

abbrev pub get_lobby_count : Handler
get_lobby_count c a p m = answer_body a p m (write16 [] 25)

abbrev pub get_lobby_user_count : Handler
get_lobby_user_count c a p m =
    answer_body a p m (write16 (write16 [] (first16 m)) (on_get_lobby_user_count a p (first16 m)))

abbrev pub get_lobby_user_status : Handler
get_lobby_user_status c a p m = answer_body a p m (write8 (write16 [] (first16 m)) 3)

abbrev pub enter_lobby : Handler
enter_lobby c a p m = answer_empty (on_enter_lobby a c.is_fingerprint p (first16 m)) p m

abbrev pub exit_lobby : Handler
exit_lobby c a p m = answer_empty (on_exit_lobby a p) p m

abbrev pub top_page_jump : Handler
top_page_jump c a p m = answer_empty (on_user_top_page_jump a p) p m

abbrev pub entry_lobby_battle : Handler
entry_lobby_battle c a p m =
    answer_empty (on_entry_lobby_battle c.outside a p (first8 m) c.lobby_rule) p m

abbrev pub get_frend_online : Handler
get_frend_online c a p m = answer_body a p m (write16 [] 0)

abbrev pub find_frend_status : Handler
find_frend_status c a p m = answer_empty a p m

abbrev pub send_mail_message : Handler
send_mail_message c a p m = answer_body a p m (write16 [] 1)

-- pkg/lobby/msg_login.go
abbrev pub logout : Handler
logout c a p m = answer_empty (on_user_logout a p) p m

abbrev pub goto_battle : Handler
goto_battle c a p m = answer_empty (on_user_goto_battle a p) p m

abbrev pub echo_packet : Handler
echo_packet c a p m = answer_body a p m (write [] m.body)

abbrev pub nazo : Handler
nazo c a p m =
    answer_body a p m (write [] (0x00 ∷ 0x00 ∷ 0x0e ∷ 0x10 ∷ 0x00 ∷ 0x00 ∷ 0x02 ∷ 0x58 ∷ []))

abbrev pub decide_user_id : Handler
decide_user_id c a p m =
    let (user_id, rest) = read_text c m m.body in
    let b = on_decide_user_id c.accounts a p user_id (read_text c m rest).0 in
    answer_body b p m (write_text c [] (b.heap p).user_id)

abbrev pub decide_team : Handler
decide_team c a p m = answer_empty (on_decide_team a p (read_text c m m.body).0) p m

abbrev pub get_top_information : Handler
get_top_information c a p m = answer_body a p m (write8 [] 0)

abbrev pub get_parsonal_record_header : Handler
get_parsonal_record_header c a p m = answer_body a p m (write8 [] 0)

abbrev pub set_user_binary : Handler
set_user_binary c a p m = answer_empty (on_set_user_binary a p (read_text c m m.body).0) p m

abbrev pub lobby_handlers : List (ℕ × Handler)
lobby_handlers =
    (0x6203, get_plaza_count)
    ∷ (0x6207, enter_plaza)
    ∷ (0x6205, get_plaza_join_user)
    ∷ (0x6206, get_plaza_status)
    ∷ (0x6301, get_lobby_count)
    ∷ (0x6303, get_lobby_user_count)
    ∷ (0x6304, get_lobby_user_status)
    ∷ (0x6305, enter_lobby)
    ∷ (0x6408, exit_lobby)
    ∷ (0x6208, top_page_jump)
    ∷ (0x640e, entry_lobby_battle)
    ∷ (0x6707, get_frend_online)
    ∷ (0x6703, find_frend_status)
    ∷ (0x6704, send_mail_message)
    ∷ []

abbrev pub login_handlers : List (ℕ × Handler)
login_handlers =
    (0x6006, logout)
    ∷ (0x6002, goto_battle)
    ∷ (0x600e, echo_packet)
    ∷ (0x61a0, nazo)
    ∷ (0x6132, decide_user_id)
    ∷ (0x6190, decide_team)
    ∷ (0x614c, get_top_information)
    ∷ (0x6144, get_parsonal_record_header)
    ∷ (0x6143, set_user_binary)
    ∷ []
