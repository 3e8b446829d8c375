-- ===== src/App/Members/Queues.antt =====
-- The queue of a lobby and the start of a battle from a lobby or a room leave everybody where they are.
use zdxsv.Prelude.{
  ℕ, Bool, true, false, ◌&&◌, not, List, [], ◌∷◌, Option, some, ◌≡◌, refl, sym, ap, ◌∙◌, inl, inr,
  ◌==◌, Bool-cases, Option-cases, fun_ext,
}
use zdxsv.Model.User.{User, entry_none}
use zdxsv.Model.Rule.{Rule}
use zdxsv.Model.Room.{can_battle_start, start_battle_users}
use zdxsv.Model.Lobby.{
  Lobby, entry, start_battle_users as start_lobby_users, can_battle_start as can_lobby_start,
}
use zdxsv.App.{
  chat_message, LobbyRef, RoomRef, App, lobby_at, room_at, set_side, send, online, ids_of,
}
use zdxsv.App.Leaving.{not_in_room, user_ids}
use zdxsv.App.Start.{
  Outside, start_test_battle, start_battle, clear_sides, if_started, start_lobby, enter_queue,
  tell_counts, on_entry_lobby_battle, start_room, on_notice_room_battle_start,
}
use zdxsv.App.Members.{View, view, same_lobby, with_lobby_users}
use zdxsv.App.Members.Places.{same_lobby-≡}
use zdxsv.App.Members.Frames.{view-send, view-send_all, view-set_side, view-set_lobby}
use zdxsv.App.Members.Starts.{view-start_test_battle, view-start_battle}

view-clear_sides : (a : App) (us : List ℕ) → view (clear_sides a us) ≡ view a
view-clear_sides a [] = refl
view-clear_sides a (u ∷ us) =
    view-clear_sides (set_side a u entry_none) us ∙ view-set_side a u entry_none

view-if_started :
    (r : Bool × App) (f : App → App) (v : View)
    → view r.1 ≡ v
    → ((b : App) → view (f b) ≡ view b)
    → view (if_started r f) ≡ v
view-if_started (true, a) f v e g = g a ∙ e
view-if_started (false, a) f v e g = e

view-start_lobby :
    (o : Outside) (a : App) (l : LobbyRef) (p side : ℕ) (rule : Option Rule)
    → view (start_lobby o a l p side rule) ≡ view a
view-start_lobby o a l p side rule =
    let us = start_lobby_users a.heap (lobby_at a l) in
    let tested = start_test_battle o a (lobby_at a l).platform 1 us in
    elim (Bool-cases ((lobby_at a l).id == 1 && not (side == entry_none))) [
      | inl e ↦ rw e (
          view-if_started (tested.2, send tested.0 p (chat_message "SERVER" ">" tested.1 ∷ [])) _
            (view a)
            (view-send tested.0 p (chat_message "SERVER" ">" tested.1 ∷ [])
              ∙ view-start_test_battle o a (lobby_at a l).platform 1 us)
            (λ b. view-clear_sides b us))
      | inr e ↦ elim (Bool-cases (can_lobby_start a.heap (lobby_at a l))) [
        | inl f ↦
            rw (e, f)
              (view-if_started (start_battle o a (lobby_at a l).platform (lobby_at a l).id us rule)
                _ (view a) (view-start_battle o a (lobby_at a l).platform (lobby_at a l).id us rule)
                (λ b. view-clear_sides b us))
        | inr f ↦ rw (e, f) refl
      ]
    ]

-- A lobby written with the users that it had.
with_lobby_users-same : (v : View) (l : LobbyRef) → with_lobby_users v l (v.lobby_users l) ≡ v
with_lobby_users-same v l =
    let same : (t : LobbyRef)
        → (with_lobby_users v l (v.lobby_users l)).lobby_users t ≡ v.lobby_users t =
      λ t. elim (Bool-cases (same_lobby t l)) [
        | inl e ↦ rw e (ap v.lobby_users (sym (same_lobby-≡ t l e)))
        | inr e ↦ rw e refl
      ] in
    λ i. record v { lobby_users = fun_ext same i }

entry-users :
    (h : ℕ → User) (l : Lobby) (p side : ℕ)
    → ((entry h l p side).1.users ≡ l.users) × ((entry h l p side).1.rooms ≡ l.rooms)
unfolding entry
entry-users h l p side = elim (Bool-cases (side == entry_none)) [
  | inl e ↦ rw e (refl, refl)
  | inr e ↦ rw e (refl, refl)
]

view-enter_queue : (a : App) (l : LobbyRef) (p side : ℕ) → view (enter_queue a l p side) ≡ view a
unfolding entry
view-enter_queue a l p side =
    let c = set_side a p side in
    let (users, rooms) = entry-users a.heap (lobby_at a l) p side in
    view-set_lobby c l (entry a.heap (lobby_at a l) p side).1 rooms
    ∙ ap (with_lobby_users (view c) l) users
    ∙ with_lobby_users-same (view c) l
    ∙ view-set_side a p side

view-tell_counts : (a : App) (l : LobbyRef) → view (tell_counts a l) ≡ view a
view-tell_counts a l =
    view-send_all a (not_in_room a (online a (user_ids a.heap (lobby_at a l).users))) _

pub view-on_entry_lobby_battle :
    (o : Outside) (a : App) (p side : ℕ) (rule : Option Rule)
    → view (on_entry_lobby_battle o a p side rule) ≡ view a
unfolding on_entry_lobby_battle
view-on_entry_lobby_battle o a p side rule = elim (Option-cases (a.peers p).lobby) [
  | inl e ↦ rw (on_entry_lobby_battle, e) refl
  | inr (l, e) ↦
      let b = enter_queue a l p side in
      rw (on_entry_lobby_battle, e)
        (view-tell_counts (start_lobby o b l p side rule) l
          ∙ view-start_lobby o b l p side rule
          ∙ view-enter_queue a l p side)
]

view-start_room : (o : Outside) (a : App) (p : ℕ) (r : RoomRef) → view (start_room o a p r) ≡ view a
view-start_room o a p r =
    let (active, inactive) = start_battle_users a.heap (room_at a r) in
    let rule = some (room_at a r).rule in
    view-if_started (start_battle o a (a.peers p).platform (room_at a r).lobby_id active rule) _
      (view a) (view-start_battle o a (a.peers p).platform (room_at a r).lobby_id active rule)
      (λ b. view-send_all b (online b (ids_of b.heap inactive)) _)

pub view-on_notice_room_battle_start :
    (o : Outside) (a : App) (p : ℕ) → view (on_notice_room_battle_start o a p) ≡ view a
unfolding on_notice_room_battle_start
view-on_notice_room_battle_start o a p = elim (Option-cases (a.peers p).room) [
  | inl e ↦ rw (on_notice_room_battle_start, e) refl
  | inr (r, e) ↦ elim (Bool-cases (can_battle_start a.heap (room_at a r))) [
    | inl f ↦ rw (on_notice_room_battle_start, e, f) (view-start_room o a p r)
    | inr f ↦ rw (on_notice_room_battle_start, e, f) refl
  ]
]
