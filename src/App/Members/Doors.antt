-- ===== src/App/Members/Doors.antt =====
-- Entering and leaving a lobby are moves.
use mathlib.Core.Path.{subst}
use zdxsv.Prelude.{
  ℕ, String, Bool, List, [], ◌∷◌, Option, none, some, ◌≡◌, refl, sym, ap, ◌∙◌, inl, inr,
  if◌then◌else◌, str_eq, find, Bool-cases, Option-cases,
}
use zdxsv.Prelude.{store, erase}
use zdxsv.Model.Lobby.{Lobby, enter as enter_users, exit as exit_users}
use zdxsv.App.{get_lobby, LobbyRef, App, lobby_at, set_peer}
use zdxsv.App.Lobbies.{
  notice_user_count, notice_lobby_user_count_all, on_platform, with_sync, join_lobby,
  enter_lobby as enter_lobby_of, on_enter_lobby, exit_any_room, leave_lobby, exit_this_lobby,
  on_exit_lobby,
}
use zdxsv.App.Members.{
  View, view, IsOnline, Moves, done, next, enter_lobby, exit_lobby, with_lobby, with_lobby_users,
}
use zdxsv.App.Members.Places.{none≢some, put_at_self}
use zdxsv.App.Members.Frames.{
  view-send_all, view-set_lobby, view-with_lobby, view-set_user, put_at-same,
}
use zdxsv.App.Members.Enters.{moved, both}
use zdxsv.App.Members.Exits.{exit_any_room-OutOfRoom}

view-notice_user_count : (a : App) (o : Option LobbyRef) → view (notice_user_count a o) ≡ view a
view-notice_user_count a none = refl
view-notice_user_count a (some l) = view-send_all a (on_platform a l.at_platform a.users) _

pub view-notice_lobby :
    (a : App) (platform : String) (id : ℕ)
    → view (notice_lobby_user_count_all a platform id) ≡ view a
unfolding notice_lobby_user_count_all
view-notice_lobby a platform id = view-notice_user_count a (get_lobby a platform id)

pub erase-absent : (k : String) (es : List (String × ℕ)) → find es k ≡ none → erase k es ≡ es
erase-absent k [] e = refl
erase-absent k ((j, x) ∷ es) e = elim (Bool-cases (str_eq j k)) [
  | inl h ↦ absurd (none≢some x _ refl (sym (rw h at e)))
  | inr h ↦ rw h (ap (◌∷◌ (j, x)) (erase-absent k es (rw h at e)))
]

exit-lobby_users :
    (l : Lobby) (id : String)
    → ((exit_users l id).users ≡ erase id l.users) × ((exit_users l id).rooms ≡ l.rooms)
unfolding exit_users
exit-lobby_users l id = elim (Option-cases (find l.users id)) [
  | inl e ↦ rw (exit_users, e) (sym (erase-absent id l.users e), refl)
  | inr (p, e) ↦ rw (exit_users, e) (refl, refl)
]

view-leave_lobby :
    (a : App) (p : ℕ) (l : LobbyRef)
    → view (leave_lobby a p l)
      ≡ with_lobby_users (view a) l (erase ((view a).names p) ((view a).lobby_users l))
view-leave_lobby a p l =
    let (users, rooms) = exit-lobby_users (lobby_at a l) (a.heap p).user_id in
    view-set_lobby a l (exit_users (lobby_at a l) (a.heap p).user_id) rooms
    ∙ ap (with_lobby_users (view a) l) users

module _ (a : App) (p : ℕ) where
  pub view-exit_this_lobby :
      (b : App) (l : LobbyRef)
      → view (exit_this_lobby b p (some l))
        ≡ with_lobby
            (with_lobby_users (view b) l (erase ((view b).names p) ((view b).lobby_users l)))
            p
            none
  view-exit_this_lobby b l =
      let c = notice_lobby_user_count_all (leave_lobby b p l) l.at_platform l.at_lobby in
      view-with_lobby c p (record (c.peers p) { lobby = none }) refl
      ∙ ap (λ v. with_lobby v p none)
          (view-notice_lobby (leave_lobby b p l) l.at_platform l.at_lobby ∙ view-leave_lobby b p l)

  pub view-with_sync : (f : String → Bool) → view (with_sync a f p) ≡ view a
  view-with_sync f =
      let sync = (a.peers p).platform_info "sync" in
      view-set_user a p (record (a.heap p) { sync = if f sync then sync else "" })
      ∙ (λ i. record (view a) { names = put_at-same (view a).names p i })

  pub view-join_lobby :
      (b : App) (l : LobbyRef)
      → view (join_lobby b p l)
        ≡ with_lobby_users
            (with_lobby (view b) p (some l))
            l
            (store ((view b).names p) p ((view b).lobby_users l))
  unfolding enter_users
  view-join_lobby b l =
      let c = set_peer b p (record (b.peers p) { lobby = some l }) in
      view-set_lobby c l (enter_users b.heap (lobby_at b l) p) refl
      ∙ ap (λ v. with_lobby_users v l (store ((view b).names p) p ((view b).lobby_users l)))
          (view-with_lobby b p (record (b.peers p) { lobby = some l }) refl)

module _ (a : App) (p : ℕ) (on : IsOnline (view a) p) where
  -- After leaving the lobby the peer is in no lobby and no room.
  abbrev pub Away : View → Type 0
  Away w = Moves (view a) w × (w.room_of p ≡ none) × (w.lobby_of p ≡ none) × IsOnline w p

  exit_this_lobby-Away :
      (b : App) (o : Option LobbyRef)
      → (b.peers p).lobby ≡ o
      → Moves (view a) (view b)
      → (b.peers p).room ≡ none
      → IsOnline (view b) p
      → Away (view (exit_this_lobby b p o))
  exit_this_lobby-Away b none e ms out here = (ms, out, e, here)
  exit_this_lobby-Away b (some l) e ms out here =
      let es = erase ((view b).names p) ((view b).lobby_users l) in
      subst Away (sym (view-exit_this_lobby a p b l)) (
        both ms (next (exit_lobby (view b) p l e out) (done _)),
        out,
        put_at_self (view b).lobby_of p none,
        here,
      )

  pub on_exit_lobby-Away : Away (view (on_exit_lobby a p))
  unfolding on_exit_lobby
  on_exit_lobby-Away =
      let b = exit_any_room a p (a.peers p).room in
      let (ms, out, l, here) = exit_any_room-OutOfRoom a p on (a.peers p).room refl in
      exit_this_lobby-Away b (b.peers p).lobby refl ms out here

  enter_lobby-Moves :
      (f : String → Bool) (o : Option LobbyRef)
      → (a.peers p).lobby ≡ none
      → Moves (view a) (view (enter_lobby_of a f p o))
  enter_lobby-Moves f none e = done (view a)
  enter_lobby-Moves f (some l) e =
      let c = with_sync a f p in
      moved (enter_lobby (view a) p l on e) (
        sym (
          view-notice_lobby (join_lobby c p l) l.at_platform l.at_lobby
          ∙ view-join_lobby a p c l
          ∙ ap
              (λ v.
                with_lobby_users (with_lobby v p (some l)) l
                  (store (v.names p) p (v.lobby_users l)))
              (view-with_sync a p f)))

  pub on_enter_lobby-Moves :
      (f : String → Bool) (id : ℕ)
      → (a.peers p).lobby ≡ none
      → Moves (view a) (view (on_enter_lobby a f p id))
  unfolding on_enter_lobby
  on_enter_lobby-Moves f id e = enter_lobby-Moves f (get_lobby a (a.peers p).platform id) e
