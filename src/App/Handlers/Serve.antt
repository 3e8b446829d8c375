-- ===== src/App/Handlers/Serve.antt =====
-- pkg/lobby/app.go: the loop `Serve`, for the event of a message.
use zdxsv.Prelude.{ℕ, ◌==◌, List, [], ◌∷◌, ◌++◌, Option, none, some, if◌then◌else◌}
use zdxsv.Message.{Message, category_question}
use zdxsv.App.{App}
use zdxsv.App.Handlers.{Context, Handler, answer_empty}
use zdxsv.App.Handlers.Rooms.{room_handlers, notice_room_battle_start}
use zdxsv.App.Handlers.Lobbies.{lobby_handlers, login_handlers}
use zdxsv.App.Handlers.Battles.{battle_handlers}

-- `a.handlers[command]`
abbrev pub handler_of : List (ℕ × Handler) → ℕ → Option Handler
handler_of [] command = none
handler_of ((id, f) ∷ hs) command = if command == id then some f else handler_of hs command

abbrev pub run_handler : Context → App → ℕ → Message → Option Handler → App
run_handler c a p m (some f) = f c a p m
run_handler c a p m none = if m.category == category_question then answer_empty a p m else a

-- A question without a handler gets an empty answer.
abbrev pub serve_message : List (ℕ × Handler) → Context → App → ℕ → Message → App
serve_message handlers c a p m = run_handler c a p m (handler_of handlers m.command)

-- The handlers of this development that answer.
abbrev pub answering : List (ℕ × Handler)
answering = room_handlers ++ lobby_handlers ++ login_handlers ++ battle_handlers

abbrev on_line_check : Handler
on_line_check c a p m = a

abbrev notice_nazo : Handler
notice_nazo c a p m = a

-- Those that do not answer.
abbrev pub silent : List (ℕ × Handler)
silent = (0x6001, on_line_check) ∷ (0x6141, notice_nazo) ∷ (0x6508, notice_room_battle_start) ∷ []

abbrev pub commands : List (ℕ × Handler) → List ℕ
commands [] = []
commands ((id, f) ∷ hs) = id ∷ commands hs

-- The commands that are registered with a handler that is not modelled: P2PMatchingReport,
-- GetBattleServerAddress, AnswerBattleResult, GetRegurationData, GetLobbyExplain, GetLobbyEntryUserCount,
-- SendChatMessage, PlatformInfo, ResponseKeyPair, FirstData, GetParsonalRecordData,
-- GetParsonalRecordVide and RegisterOldProxy.
abbrev pub other_commands : List ℕ
other_commands =
    0x9952 ∷ 0x6916 ∷ 0x6138 ∷ 0x6801 ∷ 0x6308 ∷ 0x640F ∷ 0x6701 ∷ 0x9950 ∷ 0x6101 ∷ 0x6103 ∷ 0x6145
    ∷ 0x6146 ∷ 0x0001 ∷ []

-- The table of all handlers, with those that are not modelled given.
abbrev pub registered : List (ℕ × Handler) → List (ℕ × Handler)
registered others = answering ++ (silent ++ others)
