-- ===== src/App/Members/Exits.antt =====
-- The handlers about leaving rooms are moves.
use mathlib.Core.Path.{subst}
use zdxsv.Prelude.{
  ℕ, String, Bool, true, false, List, [], ◌∷◌, Option, none, some, ◌≡◌, refl, sym, ap, ◌∙◌, inl,
  inr, if◌then◌else◌, str_eq, eq_iff, find, Bool-cases,
}
use zdxsv.Model.User.{Heap}
use zdxsv.Model.Room.{Room, new_room, exit, remove, remove_user}
use zdxsv.Model.Room.Status.{exit-users}
use zdxsv.App.{remove_room, RoomRef, App, room_at, set_room, set_side, send, online, ids_of}
use zdxsv.App.Rooms.{
  set_peer_room, dismiss_peer, dismiss_all, leave_room as leave_room_of, exit_from, on_exit_room,
}
use zdxsv.App.Lobbies.{exit_any_room}
use zdxsv.App.Members.{
  View, view, IsOnline, Moves, done, next, leave_room, close_room, with_room, with_members, without,
  no_room, dismissed,
}
use zdxsv.App.Members.Places.{put_at_self}
use zdxsv.App.Members.Frames.{
  view-send, view-send_all, view-send_lobby, view-set_side, view-set_room,
}
use zdxsv.App.Members.Enters.{view-set_peer_room}

view-dismiss_peer :
    (a : App) (o : Option ℕ)
    → view (dismiss_peer a o) ≡ record (view a) { room_of = no_room (view a).room_of o }
view-dismiss_peer a none = refl
view-dismiss_peer a (some q) =
    view-set_side (set_peer_room (send a q (remove_room ∷ [])) q none) q 0
    ∙ view-set_peer_room (send a q (remove_room ∷ [])) q none
    ∙ ap (λ v. with_room v q none) (view-send a q (remove_room ∷ []))

abbrev dismiss_next : App → String → ℕ → App
dismiss_next a owner u =
    if str_eq owner (a.heap u).user_id then a else dismiss_peer a (find a.users (a.heap u).user_id)

view-dismiss_next :
    (a : App) (here : Bool) (o : Option ℕ)
    → view (if here then a else dismiss_peer a o)
      ≡ record (view a) { room_of = if here then (view a).room_of else no_room (view a).room_of o }
view-dismiss_next a true o = refl
view-dismiss_next a false o = view-dismiss_peer a o

view-dismiss_all :
    (a : App) (owner : String) (us : List ℕ)
    → view (dismiss_all a owner us) ≡ record (view a) {
      room_of = dismissed (view a).names (view a).online owner (view a).room_of us;
    }
view-dismiss_all a owner [] = refl
view-dismiss_all a owner (u ∷ us) =
    view-dismiss_all (dismiss_next a owner u) owner us
    ∙ ap {A = View} (λ v. record v { room_of = dismissed v.names v.online owner v.room_of us })
        (view-dismiss_next a (str_eq owner (a.heap u).user_id) (find a.users (a.heap u).user_id))

remove_user-without :
    (h : Heap) (id : String) (us : List ℕ)
    → remove_user h id us ≡ without (λ u. (h u).user_id) id us
unfolding remove_user
remove_user-without h id [] = refl
remove_user-without h id (u ∷ us) =
    ap (λ ws. if str_eq (h u).user_id id then us else u ∷ ws) (remove_user-without h id us)

remove-users : (w : Room) → (remove w).users ≡ []
unfolding remove new_room
remove-users w = refl

module _ (a : App) (p : ℕ) where
  abbrev pub closed : RoomRef → View
  closed r =
      with_members
        (record (view a) {
          room_of =
              dismissed (view a).names (view a).online ((view a).names p) (view a).room_of
                ((view a).room_users r);
        })
        r []

  abbrev pub left : RoomRef → View
  left r =
      with_members (view a) r (without (view a).names ((view a).names p) ((view a).room_users r))

  pub leave_room-closed :
      (r : RoomRef)
      → str_eq (room_at a r).owner (a.heap p).user_id ≡ true
      → view (leave_room_of a p r) ≡ closed r
  leave_room-closed r e =
      let b = dismiss_all a (room_at a r).owner (room_at a r).users in
      rw e (
        view-set_room b r (remove (room_at b r))
        ∙ ap (with_members (view b) r) (remove-users (room_at b r))
        ∙ ap (λ v. with_members v r []) (view-dismiss_all a (room_at a r).owner (room_at a r).users)
        ∙ ap
            (λ owner.
              with_members
                (record (view a) {
                  room_of =
                      dismissed (view a).names (view a).online owner (view a).room_of
                        (room_at a r).users;
                })
                r [])
            ((eq_iff _ _).0 e))

  pub leave_room-left :
      (r : RoomRef)
      → str_eq (room_at a r).owner (a.heap p).user_id ≡ false
      → view (leave_room_of a p r) ≡ left r
  leave_room-left r e =
      let w = exit a.heap (room_at a r) (a.heap p).user_id in
      let b = set_room a r w in
      rw e (
        view-send_all b (online b (ids_of b.heap (room_at b r).users)) _
        ∙ view-set_room a r w
        ∙ ap (with_members (view a) r)
            (exit-users a.heap (room_at a r) _ ∙ remove_user-without a.heap _ (room_at a r).users))

  pub view-exit_from :
      (r : RoomRef) → view (exit_from a p (some r)) ≡ with_room (view (leave_room_of a p r)) p none
  view-exit_from r =
      let c = leave_room_of a p r in
      let b = set_side (set_peer_room c p none) p 0 in
      view-send_lobby b (b.peers p).lobby _
      ∙ view-set_side (set_peer_room c p none) p 0
      ∙ view-set_peer_room c p none

module _ (a : App) (p : ℕ) (on : IsOnline (view a) p) where
  -- What an exit comes to: moves after which the peer, still online, has no room and the lobby that it had.
  abbrev pub OutOfRoom : View → Type 0
  OutOfRoom w =
      Moves (view a) w × (w.room_of p ≡ none) × (w.lobby_of p ≡ (view a).lobby_of p) × IsOnline w p

  exit_from-OutOfRoom :
      (o : Option RoomRef) → (a.peers p).room ≡ o → OutOfRoom (view (exit_from a p o))
  exit_from-OutOfRoom none e = (done (view a), e, refl, on)
  exit_from-OutOfRoom (some r) e =
      elim (Bool-cases (str_eq (room_at a r).owner (a.heap p).user_id)) [
        | inl x ↦
            let shut =
              sym
                (view-exit_from a p r ∙ ap (λ v. with_room v p none) (leave_room-closed a p r x)) in
            subst OutOfRoom shut (
              next (close_room (view a) p r on e) (done _),
              put_at_self (closed a p r).room_of p none,
              refl,
              on,
            )
        | inr x ↦
            let gone =
              sym (view-exit_from a p r ∙ ap (λ v. with_room v p none) (leave_room-left a p r x)) in
            subst OutOfRoom gone (
              next (leave_room (view a) p r on e) (done _),
              put_at_self (left a p r).room_of p none,
              refl,
              on,
            )
      ]

  pub on_exit_room-OutOfRoom : OutOfRoom (view (on_exit_room a p))
  unfolding on_exit_room
  on_exit_room-OutOfRoom = exit_from-OutOfRoom (a.peers p).room refl

  pub exit_any_room-OutOfRoom :
      (o : Option RoomRef) → (a.peers p).room ≡ o → OutOfRoom (view (exit_any_room a p o))
  exit_any_room-OutOfRoom none e = (done (view a), e, refl, on)
  exit_any_room-OutOfRoom (some r) e = on_exit_room-OutOfRoom
