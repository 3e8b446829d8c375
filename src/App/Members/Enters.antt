-- ===== src/App/Members/Enters.antt =====
-- The handlers about rooms are moves.
use mathlib.Core.Path.{subst}
use zdxsv.Prelude.{
  ℕ, String, [], ◌∷◌, ◌++◌, Option, none, some, ◌≡◌, ◌≢◌, refl, sym, ap, ◌∙◌, inl, inr, ◌==◌,
  Bool-cases, fun_ext, All,
}
use zdxsv.Model.Room.{Room, enter, state_empty, state_full}
use zdxsv.Model.Room.Status.{enter-users}
use zdxsv.App.{
  room_ref, LobbyRef, RoomRef, App, lobby_at, room_at, set_room, set_side, online, ids_of,
}
use zdxsv.App.Rooms.{
  state_prepare, room_in, peer_room, set_peer_room, with_own_room, on_decide_room_name,
  on_decide_room_password, on_decide_rule, create_room, prepare_room, on_request_create_room,
  finish_rule, on_decide_rule_finish, enter_room, entry_match, on_entry_room_match, join_members,
  admit, try_room, on_enter_room,
}
use zdxsv.App.Members.{
  View, view, IsSound, IsOnline, Move, Moves, done, next, take_room, join_room, same_room,
  with_room, with_members,
}
use zdxsv.App.Members.Places.{lobby_in, none≢some, room-apart, put_at_self, same_room-≡, All-from}
use zdxsv.App.Members.Frames.{
  view-send_all, view-send_lobby, view-set_side, view-set_room, view-with_room,
}

pub moved : {v w x : View} → Move v w → w ≡ x → Moves v x
moved {v = v} {w = w} m e = subst (Moves v) e (next m (done w))

pub stayed : {v w : View} → w ≡ v → Moves v w
stayed {v = v} e = subst (Moves v) (sym e) (done v)

pub both : {v w x : View} → Moves v w → Moves w x → Moves v x
both (done v) ns = ns
both (next m ms) ns = next m (both ms ns)

-- Members written as they were.
with_members-same : (v : View) (r : RoomRef) → with_members v r (v.room_users r) ≡ v
with_members-same v r =
    let same : (t : RoomRef) → (with_members v r (v.room_users r)).room_users t ≡ v.room_users t =
      λ t. elim (Bool-cases (same_room t r)) [
        | inl e ↦ rw e (ap v.room_users (sym (same_room-≡ t r e)))
        | inr e ↦ rw e refl
      ] in
    λ i. record v { room_users = fun_ext same i }

view-own_room :
    (a : App) (o : Option RoomRef) (f : Room → Room)
    → ((r : Room) → (f r).users ≡ r.users)
    → view (with_own_room a o f) ≡ view a
view-own_room a none f e = refl
view-own_room a (some r) f e =
    view-set_room a r (f (room_at a r))
    ∙ ap (with_members (view a) r) (e (room_at a r))
    ∙ with_members-same (view a) r

pub view-on_decide_room_name :
    (a : App) (p : ℕ) (name : String) → view (on_decide_room_name a p name) ≡ view a
unfolding on_decide_room_name
view-on_decide_room_name a p name = view-own_room a (a.peers p).room _ (λ r. refl)

pub view-on_decide_room_password :
    (a : App) (p : ℕ) (pass : String) → view (on_decide_room_password a p pass) ≡ view a
unfolding on_decide_room_password
view-on_decide_room_password a p pass = view-own_room a (a.peers p).room _ (λ r. refl)

pub view-on_decide_rule :
    (a : App) (p rule elem : ℕ) → view (on_decide_rule a p rule elem).1 ≡ view a
unfolding on_decide_rule
view-on_decide_rule a p rule_id elem_id = view-own_room a (a.peers p).room _ (λ r. refl)

-- A room is asked for in the lobby of the peer.
room_ref-lobby :
    (l : LobbyRef) (id : ℕ) (o : Option Room) (r : RoomRef)
    → room_ref l id o ≡ some r
    → some l ≡ some r.in_lobby
room_ref-lobby l id none r e = absurd (none≢some r none refl e)
room_ref-lobby l id (some v) r e = ap lobby_in e

room_in-lobby :
    (a : App) (o : Option LobbyRef) (id : ℕ) (r : RoomRef)
    → room_in a o id ≡ some r
    → o ≡ some r.in_lobby
room_in-lobby a none id r e = absurd (none≢some r none refl e)
room_in-lobby a (some l) id r e = room_ref-lobby l id ((lobby_at a l).rooms id) r e

pub view-set_peer_room :
    (a : App) (p : ℕ) (r : Option RoomRef) → view (set_peer_room a p r) ≡ with_room (view a) p r
view-set_peer_room a p r = view-with_room a p (record (a.peers p) { room = r }) refl

pub view-prepare_room :
    (a : App) (p : ℕ) (r : RoomRef) → view (prepare_room a p r) ≡ with_room (view a) p (some r)
view-prepare_room a p r =
    let w = record (room_at a r) { status = state_prepare } in
    view-send_lobby (set_peer_room (set_room a r w) p (some r)) (a.peers p).lobby _
    ∙ view-set_peer_room (set_room a r w) p (some r)
    ∙ ap (λ v. with_room v p (some r)) (view-set_room a r w ∙ with_members-same (view a) r)

module _ (a : App) (p : ℕ) where
  pub view-enter_room :
      (b : App) (r : RoomRef) (now : ℕ)
      → view (enter_room b p r now) ≡ with_members (view b) r ((view b).room_users r ++ p ∷ [])
  view-enter_room b r now =
      view-set_room b r (enter b.heap (room_at b r) p now)
      ∙ ap (with_members (view b) r) (enter-users b.heap (room_at b r) p now)

  pub view-entry_match :
      (side : ℕ) (o : Option RoomRef) (l : Option LobbyRef)
      → view (entry_match a p side o l) ≡ view a
  view-entry_match side none l = refl
  view-entry_match side (some r) none = refl
  view-entry_match side (some r) (some l) =
      view-send_lobby (set_side a p side) (some l) _ ∙ view-set_side a p side

  pub view-on_entry_room_match : (side : ℕ) → view (on_entry_room_match a p side) ≡ view a
  unfolding on_entry_room_match
  view-on_entry_room_match side = view-entry_match side (a.peers p).room (a.peers p).lobby

  pub view-admit :
      (r : RoomRef) (now : ℕ)
      → view (admit a p r now)
        ≡ with_members (with_room (view a) p (some r)) r ((view a).room_users r ++ p ∷ [])
  view-admit r now =
      let c = join_members a p r in
      let b = set_peer_room (enter_room c p r now) p (some r) in
      view-send_lobby b (b.peers p).lobby _
      ∙ view-set_peer_room (enter_room c p r now) p (some r)
      ∙ ap (λ v. with_room v p (some r))
          (view-enter_room c r now
            ∙ ap (λ v. with_members v r (v.room_users r ++ p ∷ []))
                (view-send_all a (online a (ids_of a.heap (room_at a r).users)) _))

module _ (a : App) (p : ℕ) (s : IsSound (view a)) (on : IsOnline (view a) p) where
  create_room-Moves :
      (o : Option RoomRef)
      → ((r : RoomRef) → o ≡ some r → (a.peers p).lobby ≡ some r.in_lobby)
      → (a.peers p).room ≡ none
      → Moves (view a) (view (create_room a p o).1)
  create_room-Moves none l n = done (view a)
  create_room-Moves (some r) l n = elim (Bool-cases ((room_at a r).status == state_empty)) [
    | inl e ↦ rw e (moved (take_room (view a) p r (l r refl) n) (sym (view-prepare_room a p r)))
    | inr e ↦ rw e (done (view a))
  ]

  pub on_request_create_room-Moves :
      (id : ℕ) → (a.peers p).room ≡ none → Moves (view a) (view (on_request_create_room a p id).1)
  unfolding on_request_create_room
  on_request_create_room-Moves id n =
      create_room-Moves (peer_room a p id) (λ r e. room_in-lobby a (a.peers p).lobby id r e) n

  finish_rule-Moves :
      (now : ℕ) (o : Option RoomRef) (l : Option LobbyRef)
      → (a.peers p).room ≡ o
      → ((r : RoomRef) → (a.peers p).room ≡ some r → All (λ u. u ≢ p) (room_at a r).users)
      → Moves (view a) (view (finish_rule a p now o l))
  finish_rule-Moves now none l e n = done (view a)
  finish_rule-Moves now (some r) none e n = done (view a)
  finish_rule-Moves now (some r) (some l) e n =
      moved (join_room (view a) p r on e (n r e))
        (sym (view-send_lobby (enter_room a p r now) (some l) _ ∙ view-enter_room a p a r now))

  -- The peer has not entered the room that it has created.
  pub on_decide_rule_finish-Moves :
      (now : ℕ)
      → ((r : RoomRef) → (a.peers p).room ≡ some r → All (λ u. u ≢ p) (room_at a r).users)
      → Moves (view a) (view (on_decide_rule_finish a p now))
  unfolding on_decide_rule_finish
  on_decide_rule_finish-Moves now n =
      finish_rule-Moves now (a.peers p).room (a.peers p).lobby refl n

  try_room-Moves :
      (now : ℕ) (o : Option RoomRef)
      → ((r : RoomRef) → o ≡ some r → (a.peers p).lobby ≡ some r.in_lobby)
      → (a.peers p).room ≡ none
      → Moves (view a) (view (try_room a p now o).1)
  try_room-Moves now none l n = done (view a)
  try_room-Moves now (some r) l n = elim (Bool-cases ((room_at a r).status == state_full)) [
    | inl e ↦ rw e (done (view a))
    | inr e ↦ rw e (
        next (take_room (view a) p r (l r refl) n) (
          moved
            (join_room (with_room (view a) p (some r)) p r on
              (put_at_self (view a).room_of p (some r))
              (All-from _ (room_at a r).users (λ u i. room-apart (view a) s r p u n i)))
            (sym (view-admit a p r now))))
  ]

  pub on_enter_room-Moves :
      (id now : ℕ) → (a.peers p).room ≡ none → Moves (view a) (view (on_enter_room a p id now).1)
  unfolding on_enter_room
  on_enter_room-Moves id now n =
      try_room-Moves now (peer_room a p id) (λ r e. room_in-lobby a (a.peers p).lobby id r e) n
