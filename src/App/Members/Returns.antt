-- ===== src/App/Members/Returns.antt =====
-- The news of a platform, the chat and the room after a battle leave everybody where they are.
use zdxsv.Prelude.{
  ℕ, String, Bool, true, false, ◌||◌, Option, none, some, ◌≡◌, refl, ◌∙◌, inl, inr, ◌==◌,
  if◌then◌else◌, find, erase, Bool-cases, Option-cases,
}
use zdxsv.App.{App, set_peer}
use zdxsv.App.Lobbies.{
  is_some, on_platform_info, notice_lobby_user_count_all, come_back, on_enter_battle_after_room,
  on_get_battle_after_room_user_count, notice_battle_after_room_user_count_all, outside,
}
use zdxsv.App.Leaving.{audience, on_send_chat_message}
use zdxsv.App.Members.{view}
use zdxsv.App.Members.Frames.{view-send_all, view-quiet}
use zdxsv.App.Members.Doors.{view-notice_lobby}
use zdxsv.App.Members.Leaves.{view-after_room}

pub view-on_platform_info :
    (a : App) (p : ℕ) (info : String → String) → view (on_platform_info a p info) ≡ view a
unfolding on_platform_info
view-on_platform_info a p info =
    elim (Bool-cases
      (is_some (a.peers p).lobby || is_some (a.peers p).room || is_some (a.peers p).battle)) [
        | inl e ↦ rw e refl
        | inr e ↦ rw e (view-quiet a p _ refl refl)
      ]

pub view-on_send_chat_message :
    (a : App) (p : ℕ) (msg : String) → view (on_send_chat_message a p msg) ≡ view a
unfolding on_send_chat_message
view-on_send_chat_message a p msg = view-send_all a (audience a p) _

view-told :
    (a : App) (here : Bool) (platform : String) (id : ℕ)
    → view (if here then a else notice_lobby_user_count_all a platform id) ≡ view a
view-told a true platform id = refl
view-told a false platform id = view-notice_lobby a platform id

view-come_back : (a : App) (p : ℕ) (o : Option ℕ) → view (come_back a p o) ≡ view a
view-come_back a p none = refl
view-come_back a p (some b) =
    let battle = a.battle_store b in
    let left = record a { battles = erase (a.heap p).session_id a.battles } in
    let told =
      if battle.lobby_id == 0
      then left
      else notice_lobby_user_count_all left battle.platform battle.lobby_id in
    let back =
      set_peer told p (record (told.peers p) { battle = some b; in_battle_after_room = true }) in
    let counted = (notice_battle_after_room_user_count_all back b).1 in
    view-send_all counted (outside counted battle.platform counted.users) _
    ∙ view-after_room back b
    ∙ view-quiet told p (record (told.peers p) { battle = some b; in_battle_after_room = true })
        refl refl
    ∙ view-told left (battle.lobby_id == 0) battle.platform battle.lobby_id

pub view-on_enter_battle_after_room :
    (a : App) (p : ℕ) → view (on_enter_battle_after_room a p) ≡ view a
unfolding on_enter_battle_after_room
view-on_enter_battle_after_room a p = view-come_back a p (find a.battles (a.heap p).session_id)

pub view-on_get_battle_after_room_user_count :
    (a : App) (p : ℕ) → view (on_get_battle_after_room_user_count a p).1 ≡ view a
unfolding on_get_battle_after_room_user_count
view-on_get_battle_after_room_user_count a p = elim (Option-cases (a.peers p).battle) [
  | inl e ↦ rw (on_get_battle_after_room_user_count, e) refl
  | inr (b, e) ↦ rw (on_get_battle_after_room_user_count, e) (view-after_room a b)
]
