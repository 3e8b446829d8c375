-- ===== src/App/Members/Leaves.antt =====
-- Signing in, and the handlers that end with the peer signed out, are moves.
use mathlib.Core.Path.{subst}
use zdxsv.Prelude.{
  store, List, [], ◌∷◌, ℕ, String, Bool, true, false, ◌&&◌, Option, none, some, ◌≡◌, ◌≢◌, refl, sym,
  ap, ◌∙◌, inl, inr, if◌then◌else◌, find, erase, Bool-cases, Option-cases,
}
use zdxsv.Model.User.{User}
use zdxsv.App.{App, set_peer, set_user, set_side}
use zdxsv.App.Lobbies.{
  after_room_of, notice_battle_after_room_user_count_all, leave_after_room,
  on_exit_battle_after_room, on_exit_lobby, exit_any_room,
}
use zdxsv.App.Leaving.{
  exit_any_lobby, forget, on_close, on_user_logout, keep_battle, on_user_goto_battle,
  on_user_top_page_jump,
}
use zdxsv.App.{user_id_list, ask_battle_result, login_ok}
use zdxsv.Model.User.{entry_none}
use zdxsv.App.SignIn.{
  send_list, list_entries, Accounts, user_of_session, take_user, first_data, on_first_data, chosen,
  log_in, decide_user, on_decide_user_id, on_decide_team, on_set_user_binary,
}
use zdxsv.App.Members.{
  View, view, IsSound, IsOnline, Moves, done, next, take_name, sign_in, sign_out,
}
use zdxsv.App.Members.Places.{none≢some, put_at_self}
use zdxsv.App.Members.Frames.{
  view-send, view-send_all, view-set_side, view-set_user, view-quiet, put_at-same,
}
use zdxsv.App.Members.Sound.{moves-IsSound}
use zdxsv.App.Members.Enters.{moved, stayed, both}
use zdxsv.App.Members.Exits.{exit_any_room-OutOfRoom}
use zdxsv.App.Members.Doors.{Away, erase-absent, on_exit_lobby-Away}

-- Moves from the same view.
pub moves_from : {u v w : View} → u ≡ v → Moves u w → Moves v w
moves_from {w = w} e ms = subst (λ v. Moves v w) e ms

pub view-after_room :
    (a : App) (b : ℕ) → view (notice_battle_after_room_user_count_all a b).1 ≡ view a
unfolding notice_battle_after_room_user_count_all
view-after_room a b = view-send_all a (after_room_of a b) _

view-leave_after_room : (a : App) (p : ℕ) (o : Option ℕ) → view (leave_after_room a p o) ≡ view a
view-leave_after_room a p none = refl
view-leave_after_room a p (some b) =
    view-after_room (set_peer a p (record (a.peers p) { battle = none })) b
    ∙ view-quiet a p _ refl refl

pub view-on_exit_battle_after_room :
    (a : App) (p : ℕ) → view (on_exit_battle_after_room a p) ≡ view a
unfolding on_exit_battle_after_room
view-on_exit_battle_after_room a p =
    view-leave_after_room (set_peer a p (record (a.peers p) { in_battle_after_room = false })) p
      (a.peers p).battle
    ∙ view-quiet a p _ refl refl

pub view-first_exit :
    (a : App) (p : ℕ) (back : Bool)
    → view (if back then on_exit_battle_after_room a p else a) ≡ view a
view-first_exit a p true = view-on_exit_battle_after_room a p
view-first_exit a p false = refl

module _ (a : App) (p : ℕ) (s : IsSound (view a)) (on : IsOnline (view a) p) where
  pub on_close-Moves : Moves (view a) (view (on_close a p))
  unfolding on_close
  on_close-Moves =
      let b = if (a.peers p).in_battle_after_room then on_exit_battle_after_room a p else a in
      let c = on_exit_lobby b p in
      let same = view-first_exit a p (a.peers p).in_battle_after_room in
      let here : IsOnline (view b) p = subst (λ v. IsOnline v p) (sym same) on in
      let (ms, out, lone, still) = on_exit_lobby-Away b p here in
      moves_from same (both ms (next (sign_out (view c) p still lone out) (done _)))

  -- Without a lobby there is no room.
  room-none : (a.peers p).lobby ≡ none → (a.peers p).room ≡ none
  room-none l = elim (Option-cases (a.peers p).room) [
    | inl e ↦ e
    | inr (r, e) ↦ absurd (none≢some r.in_lobby _ l (s.placed p r e))
  ]

  exit_any_lobby-Away : Away a p on (view (exit_any_lobby a p))
  exit_any_lobby-Away = elim (Option-cases (a.peers p).lobby) [
    | inl e ↦ rw e (done (view a), room-none e, e, on)
    | inr (l, e) ↦ rw e (on_exit_lobby-Away a p on)
  ]

-- The connection of a peer ends that is in no lobby and no room, and whose id nobody is online with.
pub view-on_close_off :
    (a : App) (p : ℕ)
    → find a.users (a.heap p).user_id ≡ none
    → (a.peers p).lobby ≡ none
    → (a.peers p).room ≡ none
    → view (on_close a p) ≡ view a
unfolding on_close on_exit_lobby on_exit_battle_after_room
view-on_close_off a p free lone out =
    let b = if (a.peers p).in_battle_after_room then on_exit_battle_after_room a p else a in
    let same : view b ≡ view a = view-first_exit a p (a.peers p).in_battle_after_room in
    let out' : (b.peers p).room ≡ none = ap (λ v. v.room_of p) same ∙ out in
    let lone' : (b.peers p).lobby ≡ none = ap (λ v. v.lobby_of p) same ∙ lone in
    let kept : on_exit_lobby b p ≡ b = rw (on_exit_lobby, out', lone') refl in
    let free' : find b.users (b.heap p).user_id ≡ none =
      ap (λ v. find v.online (v.names p)) same ∙ free in
    ap (λ (c : App). view (record c { users = erase (c.heap p).user_id c.users })) kept
    ∙ ap {A = List (String × ℕ)} (λ es. record (view b) { online = es })
        (erase-absent (b.heap p).user_id b.users free')
    ∙ same

forget-Moves :
    (a : App) (p : ℕ)
    → IsOnline (view a) p
    → (a.peers p).lobby ≡ none
    → (a.peers p).room ≡ none
    → Moves (view a) (view (forget a p))
forget-Moves a p on lone out =
    let q = record (a.peers p) { battle = none; lobby = none; room = none } in
    let b = set_side (set_peer a p q) p 0 in
    let same : view b ≡ view a =
      view-set_side (set_peer a p q) p 0 ∙ view-quiet a p q (sym lone) (sym out) in
    moved (sign_out (view a) p on lone out)
      (ap {A = View} (λ v. record v { online = erase (v.names p) v.online }) (sym same))

module _ (a : App) (p : ℕ) (s : IsSound (view a)) (on : IsOnline (view a) p) where
  leave-Moves : Moves (view a) (view (forget (exit_any_lobby a p) p))
  leave-Moves =
      let (ms, out, lone, here) = exit_any_lobby-Away a p s on in
      both ms (forget-Moves (exit_any_lobby a p) p here lone out)

  pub on_user_logout-Moves : Moves (view a) (view (on_user_logout a p))
  unfolding on_user_logout
  on_user_logout-Moves = leave-Moves

  view-keep_battle : (o : Option ℕ) → view (keep_battle a p o) ≡ view a
  view-keep_battle none = refl
  view-keep_battle (some b) = refl

pub on_user_goto_battle-Moves :
    (a : App) (p : ℕ)
    → IsSound (view a)
    → IsOnline (view a) p
    → Moves (view a) (view (on_user_goto_battle a p))
unfolding on_user_goto_battle
on_user_goto_battle-Moves a p s on =
    let b = keep_battle a p (a.peers p).battle in
    let same : view b ≡ view a = view-keep_battle a p s on (a.peers p).battle in
    moves_from same
      (leave-Moves b p (subst IsSound (sym same) s) (subst (λ v. IsOnline v p) (sym same) on))

pub on_user_top_page_jump-Moves :
    (a : App) (p : ℕ)
    → IsSound (view a)
    → IsOnline (view a) p
    → Moves (view a) (view (on_user_top_page_jump a p))
unfolding on_user_top_page_jump
on_user_top_page_jump-Moves a p s on =
    let b = set_peer a p (record (a.peers p) { battle = none }) in
    let c = exit_any_room b p (b.peers p).room in
    let d = exit_any_lobby c p in
    let same : view b ≡ view a = view-quiet a p _ refl refl in
    let (ms, out, l, here) =
      exit_any_room-OutOfRoom b p (subst (λ v. IsOnline v p) (sym same) on) (b.peers p).room refl in
    let from_a : Moves (view a) (view c) = moves_from same ms in
    let (ns, out', lone, still) = exit_any_lobby-Away c p (moves-IsSound from_a s) here in
    both from_a (both ns (stayed (view-set_side d p 0)))

view-send_list : (a : App) (p : ℕ) (o : Option (List User)) → view (send_list a p o) ≡ view a
view-send_list a p none = refl
view-send_list a p (some us) = view-send a p (user_id_list (list_entries us) ∷ [])

-- Before a peer is online it may take a user, and sign in with it.
module _ (accounts : Accounts) (a : App) (p : ℕ) (off : find a.users (a.heap p).user_id ≢ some p)
    (lone : (a.peers p).lobby ≡ none) (out : (a.peers p).room ≡ none) where
  take_user-Moves : (o : Option User) → Moves (view a) (view (take_user a p o))
  take_user-Moves none = done (view a)
  take_user-Moves (some u) =
      let b = set_user a p u in
      moved (take_name (view a) p u.user_id off lone out)
        (sym (view-quiet b p _ (sym lone) (sym out) ∙ view-set_user a p u))

  first_data-Moves : (o : Option ℕ) → Moves (view a) (view (first_data accounts a p o))
  first_data-Moves none = stayed (view-send_list a p accounts.get_user_list)
  first_data-Moves (some b) =
      let o = user_of_session (a.heap p).session_id (a.battle_store b).users in
      let c = set_side (take_user a p o) p entry_none in
      both (take_user-Moves o) (
        stayed (
          view-send_list c p (some (c.heap p ∷ [])) ∙ view-set_side (take_user a p o) p entry_none))

  pub on_first_data-Moves : Moves (view a) (view (on_first_data accounts a p))
  unfolding on_first_data
  on_first_data-Moves = first_data-Moves (find a.battles (a.heap p).session_id)

  log_in-Moves :
      (b : App)
      → Moves (view a) (view b)
      → find b.users (b.heap p).user_id ≡ none
      → Moves (view a) (view (log_in accounts b p))
  log_in-Moves b ms free =
      elim (Bool-cases (accounts.login_user (b.heap p) && accounts.update_user (b.heap p))) [
        | inl e ↦ rw e (
            both ms (
              next (sign_in (view b) p free) (
                stayed (
                  view-send (record b { users = store (b.heap p).user_id p b.users }) p
                    (ask_battle_result ∷ login_ok ∷ [])))))
        | inr e ↦ rw e ms
      ]

  decide_user-Moves :
      (o : Option User)
      → ((u : User) → o ≡ some u → find a.users u.user_id ≡ none)
      → Moves (view a) (view (decide_user accounts a p o))
  decide_user-Moves none free = done (view a)
  decide_user-Moves (some u) free =
      let b = set_user a p u in
      let named : (b.heap p).user_id ≡ u.user_id =
        ap (λ (x : User). x.user_id) (put_at_self a.heap p u) in
      log_in-Moves b
        (moved (take_name (view a) p u.user_id off lone out) (sym (view-set_user a p u)))
        (ap (find a.users) named ∙ free u refl)

  -- Nobody is online under the id that the peer gets.
  pub on_decide_user_id-Moves :
      (user_id name : String)
      → ((u : User) → chosen accounts a p user_id name ≡ some u → find a.users u.user_id ≡ none)
      → Moves (view a) (view (on_decide_user_id accounts a p user_id name))
  unfolding on_decide_user_id
  on_decide_user_id-Moves user_id name free =
      decide_user-Moves (chosen accounts a p user_id name) free

pub view-on_decide_team :
    (a : App) (p : ℕ) (team : String) → view (on_decide_team a p team) ≡ view a
unfolding on_decide_team
view-on_decide_team a p team =
    view-set_user a p (record (a.heap p) { team = team })
    ∙ (λ i. record (view a) { names = put_at-same (view a).names p i })

pub view-on_set_user_binary :
    (a : App) (p : ℕ) (bin : String) → view (on_set_user_binary a p bin) ≡ view a
unfolding on_set_user_binary
view-on_set_user_binary a p bin =
    view-set_user a p (record (a.heap p) { bin = bin })
    ∙ (λ i. record (view a) { names = put_at-same (view a).names p i })
