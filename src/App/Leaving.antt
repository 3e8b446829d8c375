-- ===== src/App/Leaving.antt =====
-- pkg/lobby/app_core.go: the chat and the ways of leaving.
use zdxsv.Prelude.{ℕ, String, List, [], ◌∷◌, Option, none, some, if◌then◌else◌, store, erase}
use zdxsv.Model.User.{Heap, entry_none}
use zdxsv.App.{chat_message, App, lobby_at, room_at, set_peer, set_side, send_all, online, ids_of}
use zdxsv.App.Lobbies.{
  is_some, exit_any_room, on_exit_lobby, after_room_of, on_exit_battle_after_room,
}

-- The ids of a lobby's users.
abbrev pub user_ids : Heap → List (String × ℕ) → List String
user_ids h [] = []
user_ids h ((id, u) ∷ es) = (h u).user_id ∷ user_ids h es

-- Of the peers those in no room.
abbrev pub not_in_room : App → List ℕ → List ℕ
not_in_room a [] = []
not_in_room a (p ∷ ps) =
    let rest = not_in_room a ps in if is_some (a.peers p).room then rest else p ∷ rest

-- Who reads a chat message.
abbrev pub audience : App → ℕ → List ℕ
audience a p =
    if (a.peers p).in_battle_after_room
    then elim (a.peers p).battle [ none ↦ p ∷ [] | some b ↦ after_room_of a b ]
    else elim (a.peers p).room [
      | some r ↦ online a (ids_of a.heap (room_at a r).users)
      | none ↦ elim (a.peers p).lobby [
        | none ↦ []
        | some l ↦ not_in_room a (online a (user_ids a.heap (lobby_at a l).users))
      ]
    ]

unfoldable pub on_send_chat_message : App → ℕ → String → App
on_send_chat_message a p msg =
    send_all a (audience a p) (chat_message (a.heap p).user_id (a.heap p).name msg ∷ [])

-- Leaving: the end of the connection, the sign-out, the battle, and the jump to the top page.
abbrev pub forget : App → ℕ → App
forget a p =
    let b =
      set_side (set_peer a p (record (a.peers p) { battle = none; lobby = none; room = none })) p
        entry_none in
    record b { users = erase (b.heap p).user_id b.users }

abbrev pub exit_any_lobby : App → ℕ → App
exit_any_lobby a p = if is_some (a.peers p).lobby then on_exit_lobby a p else a

unfoldable pub on_close : App → ℕ → App
on_close a p =
    let b = if (a.peers p).in_battle_after_room then on_exit_battle_after_room a p else a in
    let c = on_exit_lobby b p in record c { users = erase (c.heap p).user_id c.users }

unfoldable pub on_user_logout : App → ℕ → App
on_user_logout a p = forget (exit_any_lobby a p) p

abbrev pub keep_battle : App → ℕ → Option ℕ → App
keep_battle a p none = a
keep_battle a p (some b) = record a { battles = store (a.heap p).session_id b a.battles }

unfoldable pub on_user_goto_battle : App → ℕ → App
on_user_goto_battle a p = forget (exit_any_lobby (keep_battle a p (a.peers p).battle) p) p

unfoldable pub on_user_top_page_jump : App → ℕ → App
on_user_top_page_jump a p =
    let b = set_peer a p (record (a.peers p) { battle = none }) in
    set_side (exit_any_lobby (exit_any_room b p (b.peers p).room) p) p entry_none
