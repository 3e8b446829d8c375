-- ===== src/App/Members/Gone.antt =====
-- What is left of a peer when its connection has ended, and of a room when its owner has left.
use mathlib.Core.Path.{subst}
use zdxsv.Prelude.{
  ℕ, String, true, false, List, [], ◌∷◌, Option, none, some, ◌≡◌, ◌≢◌, refl, sym, ap, ◌∙◌, inl, inr,
  if◌then◌else◌, str_eq, str_eq_ne, find, find-erase_self, In, Bool-cases,
}
use native.Mathlib.Decide.{ℕ_discrete}
use zdxsv.App.{put_at, LobbyRef, RoomRef, App, room_at, lobby_at}
use zdxsv.App.Rooms.{on_exit_room, exit_from}
use zdxsv.App.Lobbies.{on_exit_lobby, on_exit_battle_after_room}
use zdxsv.App.Leaving.{on_close}
use zdxsv.App.Members.{View, view, IsSound, IsOnline, dismissed, no_room, with_room}
use zdxsv.App.Members.Places.{none≢some, put_at_self, put_at_ne, with_members_at, online-same}
use zdxsv.App.Members.Sound.{moves-IsSound}
use zdxsv.App.Members.Exits.{closed, leave_room-closed, view-exit_from}
use zdxsv.App.Members.Doors.{on_exit_lobby-Away}
use zdxsv.App.Members.Leaves.{view-first_exit, on_close-Moves}

no_room-none : (f : ℕ → Option RoomRef) (o : Option ℕ) (q : ℕ) → f q ≡ none → no_room f o q ≡ none
no_room-none f none q e = e
no_room-none f (some x) q e = elim (ℕ_discrete q x) [
  | yes i ↦ ap (put_at f x none) i ∙ put_at_self f x none
  | no d ↦ put_at_ne f x none q d ∙ e
]

-- Who has no room keeps none in a dismissal, and a member but the owner is left without.
dismissed-none :
    (v : View) (owner : String) (f : ℕ → Option RoomRef) (us : List ℕ) (q : ℕ)
    → f q ≡ none
    → dismissed v.names v.online owner f us q ≡ none
dismissed-none v owner f [] q e = e
dismissed-none v owner f (u ∷ us) q e = elim (Bool-cases (str_eq owner (v.names u))) [
  | inl x ↦ rw x (dismissed-none v owner f us q e)
  | inr x ↦ rw x (
      dismissed-none v owner (no_room f (find v.online (v.names u))) us q
        (no_room-none f (find v.online (v.names u)) q e))
]

dismissed-member :
    (v : View) (owner : String) (f : ℕ → Option RoomRef) (us : List ℕ) (q : ℕ)
    → IsOnline v q
    → str_eq owner (v.names q) ≡ false
    → In q us
    → dismissed v.names v.online owner f us q ≡ none
dismissed-member v owner f [] q on ne i = absurd i
dismissed-member v owner f (u ∷ us) q on ne (inr i) =
    dismissed-member v owner
      (if str_eq owner (v.names u) then f else no_room f (find v.online (v.names u))) us q on ne i
dismissed-member v owner f (u ∷ us) q on ne (inl e) =
    let hit : (if str_eq owner (v.names u) then f else no_room f (find v.online (v.names u)))
        ≡ put_at f q none =
      ap (λ w. if str_eq owner (v.names w) then f else no_room f (find v.online (v.names w)))
        (sym e)
      ∙ rw (ne, on) refl in
    dismissed-none v owner
      (if str_eq owner (v.names u) then f else no_room f (find v.online (v.names u))) us q
      (ap (λ g. g q) hit ∙ put_at_self f q none)

module _ (a : App) (p : ℕ) (s : IsSound (view a)) (on : IsOnline (view a) p) where
  abbrev left_lobby : App
  left_lobby =
      on_exit_lobby (if (a.peers p).in_battle_after_room then on_exit_battle_after_room a p else a)
        p

  places_after_close : ((on_close a p).peers p).room ≡ none × ((on_close a p).peers p).lobby ≡ none
  unfolding on_close
  places_after_close =
      let same = view-first_exit a p (a.peers p).in_battle_after_room in
      let (ms, out, lone, still) =
        on_exit_lobby-Away
          (if (a.peers p).in_battle_after_room then on_exit_battle_after_room a p else a) p
          (subst (λ v. IsOnline v p) (sym same) on) in
      (out, lone)

  offline-on_close : find (on_close a p).users ((on_close a p).heap p).user_id ≡ none
  unfolding on_close
  offline-on_close = find-erase_self (left_lobby.heap p).user_id left_lobby.users

  -- When the connection of a peer that is online in a sound app ends, the app is sound, the peer is
  -- offline, and no room and no lobby has it.
  pub on_close-gone :
      IsSound (view (on_close a p))
      × (find (on_close a p).users ((on_close a p).heap p).user_id ≡ none)
      × ((r : RoomRef) → In p (room_at (on_close a p) r).users → ⊥)
      × ((l : LobbyRef) (id : String) → find (lobby_at (on_close a p) l).users id ≢ some p)
  on_close-gone =
      let after = moves-IsSound (on_close-Moves a p s on) s in
      let (out, lone) = places_after_close in
      (
        after,
        offline-on_close,
        λ r i. none≢some r _ out (after.in_rooms r p i).0,
        λ l id e. none≢some l _ lone (after.in_lobbies l id p e).1,
      )

  view-on_exit_room :
      (r : RoomRef)
      → (a.peers p).room ≡ some r
      → str_eq (room_at a r).owner (a.heap p).user_id ≡ true
      → view (on_exit_room a p) ≡ with_room (closed a p r) p none
  unfolding on_exit_room
  view-on_exit_room r e o =
      ap (λ x. view (exit_from a p x)) e
      ∙ view-exit_from a p r
      ∙ ap (λ v. with_room v p none) (leave_room-closed a p r o)

  dismissal :
      (r : RoomRef) (u : ℕ)
      → In u (room_at a r).users
      → (with_room (closed a p r) p none).room_of u ≡ none
  dismissal r u i = elim (ℕ_discrete u p) [
    | yes x ↦
        ap (with_room (closed a p r) p none).room_of x ∙ put_at_self (closed a p r).room_of p none
    | no d ↦
        let here = (s.in_rooms r u i).1 in
        put_at_ne (closed a p r).room_of p none u d
        ∙ dismissed-member (view a) (a.heap p).user_id (view a).room_of (room_at a r).users u here
            (str_eq_ne _ _ (λ n. d (online-same (view a) u p here on (sym n)))) i
  ]

  -- When the owner leaves, the room is vacant and every member, the owner too, is without a room.
  pub on_exit_room-closes :
      (r : RoomRef)
      → (a.peers p).room ≡ some r
      → str_eq (room_at a r).owner (a.heap p).user_id ≡ true
      → ((room_at (on_exit_room a p) r).users ≡ [])
        × ((u : ℕ) → In u (room_at a r).users → ((on_exit_room a p).peers u).room ≡ none)
  on_exit_room-closes r e o =
      let shut : view (on_exit_room a p) ≡ with_room (closed a p r) p none =
        view-on_exit_room r e o in
      (
        ap (λ v. v.room_users r) shut ∙ with_members_at (view a) r [],
        λ u i. ap (λ v. v.room_of u) shut ∙ dismissal r u i,
      )
