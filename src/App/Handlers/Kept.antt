-- ===== src/App/Handlers/Kept.antt =====
-- The handlers of pkg/lobby/app_core.go answer nothing by themselves.
use zdxsv.Prelude.{
  ℕ, String, Bool, ◌&&◌, List, [], ◌∷◌, Option, none, some, ◌≡◌, refl, ap, ◌∙◌, inl, inr, ◌==◌,
  str_eq, Bool-cases, store,
}
use zdxsv.Model.User.{User}
use zdxsv.Model.Room.{state_empty, state_full}
use zdxsv.Message.{Message}
use zdxsv.App.{
  LobbyRef, RoomRef, App, room_at, set_peer, set_user, get_lobby, ask_battle_result, login_ok,
}
use zdxsv.App.Rooms.{
  peer_room, create_room, on_request_create_room, finish_rule, on_decide_rule_finish, enter_room,
  try_room, on_enter_room, leave_room, exit_from, on_exit_room,
}
use zdxsv.App.Lobbies.{
  with_sync, join_lobby, enter_lobby, on_enter_lobby, exit_any_room, exit_this_lobby, on_exit_lobby,
  is_some,
}
use zdxsv.App.Leaving.{
  exit_any_lobby, forget, on_user_logout, keep_battle, on_user_goto_battle, on_user_top_page_jump,
}
use zdxsv.App.SignIn.{Accounts, chosen, log_in, decide_user, on_decide_user_id}
use zdxsv.App.Members.{View, view}
use zdxsv.App.Members.Frames.{
  view-send, view-send_lobby, view-set_side, view-set_user, view-set_peer,
}
use zdxsv.App.Members.Enters.{view-prepare_room, view-enter_room, view-admit}
use zdxsv.App.Members.Exits.{leave_room-closed, leave_room-left, view-exit_from}
use zdxsv.App.Members.Doors.{
  view-notice_lobby, view-exit_this_lobby, view-with_sync, view-join_lobby,
}

-- What peers have been answered.
abbrev pub answers : App → ℕ → List Message
answers a = (view a).answers

pub same_answers :
    (a b : App) {v : View} → view b ≡ v → v.answers ≡ answers a → answers b ≡ answers a
same_answers a b e f = ap (λ w. w.answers) e ∙ f

module _ (a : App) (p : ℕ) where
  answers-create_room : (o : Option RoomRef) → answers (create_room a p o).1 ≡ answers a
  answers-create_room none = refl
  answers-create_room (some r) = elim (Bool-cases ((room_at a r).status == state_empty)) [
    | inl e ↦ rw e (ap (λ w. w.answers) (view-prepare_room a p r))
    | inr e ↦ rw e refl
  ]

  pub answers-on_request_create_room :
      (id : ℕ) → answers (on_request_create_room a p id).1 ≡ answers a
  unfolding on_request_create_room
  answers-on_request_create_room id = answers-create_room (peer_room a p id)

  answers-finish_rule :
      (now : ℕ) (o : Option RoomRef) (l : Option LobbyRef)
      → answers (finish_rule a p now o l) ≡ answers a
  answers-finish_rule now none l = refl
  answers-finish_rule now (some r) none = refl
  answers-finish_rule now (some r) (some l) =
      same_answers a (finish_rule a p now (some r) (some l))
        (view-send_lobby (enter_room a p r now) (some l) _ ∙ view-enter_room a p a r now) refl

  pub answers-on_decide_rule_finish :
      (now : ℕ) → answers (on_decide_rule_finish a p now) ≡ answers a
  unfolding on_decide_rule_finish
  answers-on_decide_rule_finish now = answers-finish_rule now (a.peers p).room (a.peers p).lobby

  answers-try_room : (now : ℕ) (o : Option RoomRef) → answers (try_room a p now o).1 ≡ answers a
  answers-try_room now none = refl
  answers-try_room now (some r) = elim (Bool-cases ((room_at a r).status == state_full)) [
    | inl e ↦ rw e refl
    | inr e ↦ rw e (ap (λ w. w.answers) (view-admit a p r now))
  ]

  pub answers-on_enter_room : (id now : ℕ) → answers (on_enter_room a p id now).1 ≡ answers a
  unfolding on_enter_room
  answers-on_enter_room id now = answers-try_room now (peer_room a p id)

  answers-leave_room : (r : RoomRef) → answers (leave_room a p r) ≡ answers a
  answers-leave_room r = elim (Bool-cases (str_eq (room_at a r).owner (a.heap p).user_id)) [
    | inl e ↦ ap (λ w. w.answers) (leave_room-closed a p r e)
    | inr e ↦ ap (λ w. w.answers) (leave_room-left a p r e)
  ]

  answers-exit_from : (o : Option RoomRef) → answers (exit_from a p o) ≡ answers a
  answers-exit_from none = refl
  answers-exit_from (some r) = ap (λ w. w.answers) (view-exit_from a p r) ∙ answers-leave_room r

  pub answers-on_exit_room : answers (on_exit_room a p) ≡ answers a
  unfolding on_exit_room
  answers-on_exit_room = answers-exit_from (a.peers p).room

  answers-exit_any_room : (o : Option RoomRef) → answers (exit_any_room a p o) ≡ answers a
  answers-exit_any_room none = refl
  answers-exit_any_room (some r) = answers-on_exit_room

  answers-exit_this_lobby : (o : Option LobbyRef) → answers (exit_this_lobby a p o) ≡ answers a
  answers-exit_this_lobby none = refl
  answers-exit_this_lobby (some l) = ap (λ w. w.answers) (view-exit_this_lobby a p a l)

  answers-enter_lobby :
      (f : String → Bool) (o : Option LobbyRef) → answers (enter_lobby a f p o) ≡ answers a
  answers-enter_lobby f none = refl
  answers-enter_lobby f (some l) =
      let c = with_sync a f p in
      same_answers a (enter_lobby a f p (some l))
        (view-notice_lobby (join_lobby c p l) l.at_platform l.at_lobby ∙ view-join_lobby a p c l)
        (ap (λ w. w.answers) (view-with_sync a p f))

  pub answers-on_enter_lobby :
      (f : String → Bool) (id : ℕ) → answers (on_enter_lobby a f p id) ≡ answers a
  unfolding on_enter_lobby
  answers-on_enter_lobby f id = answers-enter_lobby f (get_lobby a (a.peers p).platform id)

  answers-log_in : (accounts : Accounts) → answers (log_in accounts a p) ≡ answers a
  answers-log_in accounts =
      elim (Bool-cases (accounts.login_user (a.heap p) && accounts.update_user (a.heap p))) [
        | inl e ↦ rw e (
            ap (λ w. w.answers)
              (view-send (record a { users = store (a.heap p).user_id p a.users }) p
                (ask_battle_result ∷ login_ok ∷ [])))
        | inr e ↦ rw e refl
      ]

pub answers-on_exit_lobby : (a : App) (p : ℕ) → answers (on_exit_lobby a p) ≡ answers a
unfolding on_exit_lobby
answers-on_exit_lobby a p =
    let b = exit_any_room a p (a.peers p).room in
    answers-exit_this_lobby b p (b.peers p).lobby ∙ answers-exit_any_room a p (a.peers p).room

answers-exit_any_lobby : (a : App) (p : ℕ) → answers (exit_any_lobby a p) ≡ answers a
answers-exit_any_lobby a p = elim (Bool-cases (is_some (a.peers p).lobby)) [
  | inl e ↦ rw e (answers-on_exit_lobby a p)
  | inr e ↦ rw e refl
]

answers-forget : (a : App) (p : ℕ) → answers (forget a p) ≡ answers a
answers-forget a p =
    let q = record (a.peers p) { battle = none; lobby = none; room = none } in
    ap (λ w. w.answers) (view-set_side (set_peer a p q) p 0 ∙ view-set_peer a p q)

pub answers-on_user_logout : (a : App) (p : ℕ) → answers (on_user_logout a p) ≡ answers a
unfolding on_user_logout
answers-on_user_logout a p = answers-forget (exit_any_lobby a p) p ∙ answers-exit_any_lobby a p

answers-keep_battle : (a : App) (p : ℕ) (o : Option ℕ) → answers (keep_battle a p o) ≡ answers a
answers-keep_battle a p none = refl
answers-keep_battle a p (some b) = refl

pub answers-on_user_goto_battle : (a : App) (p : ℕ) → answers (on_user_goto_battle a p) ≡ answers a
unfolding on_user_goto_battle
answers-on_user_goto_battle a p =
    let b = keep_battle a p (a.peers p).battle in
    answers-forget (exit_any_lobby b p) p
    ∙ answers-exit_any_lobby b p
    ∙ answers-keep_battle a p (a.peers p).battle

pub answers-on_user_top_page_jump :
    (a : App) (p : ℕ) → answers (on_user_top_page_jump a p) ≡ answers a
unfolding on_user_top_page_jump
answers-on_user_top_page_jump a p =
    let b = set_peer a p (record (a.peers p) { battle = none }) in
    let c = exit_any_room b p (b.peers p).room in
    ap (λ w. w.answers) (view-set_side (exit_any_lobby c p) p 0)
    ∙ answers-exit_any_lobby c p
    ∙ answers-exit_any_room b p (b.peers p).room

answers-decide_user :
    (accounts : Accounts) (a : App) (p : ℕ) (o : Option User)
    → answers (decide_user accounts a p o) ≡ answers a
answers-decide_user accounts a p none = refl
answers-decide_user accounts a p (some u) =
    answers-log_in (set_user a p u) p accounts ∙ ap (λ w. w.answers) (view-set_user a p u)

pub answers-on_decide_user_id :
    (accounts : Accounts) (a : App) (p : ℕ) (user_id name : String)
    → answers (on_decide_user_id accounts a p user_id name) ≡ answers a
unfolding on_decide_user_id
answers-on_decide_user_id accounts a p user_id name =
    answers-decide_user accounts a p (chosen accounts a p user_id name)
