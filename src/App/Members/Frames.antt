-- ===== src/App/Members/Frames.antt =====
-- What the steps that handlers are made of do to the lists of lobbies and rooms.
use zdxsv.Prelude.{
  ℕ, Bool, true, false, List, [], ◌∷◌, ◌++◌, Option, none, some, ◌≡◌, refl, sym, ap, ◌∙◌, inl, inr,
  ◌==◌, if◌then◌else◌, Bool-cases, ==_iff, fun_ext,
}
use zdxsv.Model.User.{User, Heap, set_entry}
use zdxsv.Model.Room.{Room, new_room}
use zdxsv.Model.Lobby.{Lobby}
use zdxsv.App.{
  Sent, notice, reply, notices, Notice, LobbyRef, RoomRef, AppPeer, App, put_at, lobby_at, room_at,
  set_lobby, set_room, set_peer, set_side, set_user, send, send_all, online, keys,
}
use zdxsv.App.Rooms.{send_lobby}
use zdxsv.App.Members.{
  replies, view, same_lobby, same_room, with_lobby, with_room, with_lobby_users, with_members,
}
use zdxsv.App.Members.Places.{same_lobby-≡}

replies-notices : (s : List Sent) (ns : List Notice) → replies (s ++ notices ns) ≡ replies s
replies-notices [] [] = refl
replies-notices [] (n ∷ ns) = replies-notices [] ns
replies-notices (notice n ∷ s) ns = replies-notices s ns
replies-notices (reply m ∷ s) ns = ap (◌∷◌ m) (replies-notices s ns)

pub view-send : (a : App) (p : ℕ) (ns : List Notice) → view (send a p ns) ≡ view a
view-send a p ns =
    let same : (j : ℕ) → replies ((send a p ns).mail j) ≡ replies (a.mail j) = λ j.
      elim (Bool-cases (j == p)) [
        | inl e ↦
            rw e (
              replies-notices (a.mail p) ns ∙ ap (λ k. replies (a.mail k)) (sym ((==_iff j p).0 e)))
        | inr e ↦ rw e refl
      ] in
    λ i. record (view a) { answers = fun_ext same i }

pub view-send_all : (a : App) (ps : List ℕ) (ns : List Notice) → view (send_all a ps ns) ≡ view a
view-send_all a [] ns = refl
view-send_all a (p ∷ ps) ns = view-send_all (send a p ns) ps ns ∙ view-send a p ns

pub view-send_lobby :
    (a : App) (l : Option LobbyRef) (ns : List Notice) → view (send_lobby a l ns) ≡ view a
view-send_lobby a none ns = refl
view-send_lobby a (some l) ns = view-send_all a (online a (keys (lobby_at a l).users)) ns

module _ {ℓ} {A : Type ℓ} where
  pub put_at-same : (f : ℕ → A) (k : ℕ) → put_at f k (f k) ≡ f
  put_at-same f k = fun_ext λ j. elim (Bool-cases (j == k)) [
    | inl e ↦ rw e (ap f (sym ((==_iff j k).0 e)))
    | inr e ↦ rw e refl
  ]

  pub put_at-map {κ} :
      {B : Type κ} (g : A → B) (f : ℕ → A) (k : ℕ) (v : A)
      → (λ j. g (put_at f k v j)) ≡ put_at (λ j. g (f j)) k (g v)
  put_at-map g f k v =
      fun_ext λ j. elim (Bool-cases (j == k)) [ inl e ↦ rw e refl | inr e ↦ rw e refl ]

set_entry-user_id : (h : Heap) (p side j : ℕ) → (set_entry h p side j).user_id ≡ (h j).user_id
unfolding set_entry
set_entry-user_id h p side j = elim (Bool-cases (j == p)) [ inl e ↦ rw e refl | inr e ↦ rw e refl ]

pub view-set_side : (a : App) (p side : ℕ) → view (set_side a p side) ≡ view a
view-set_side a p side =
    λ i. record (view a) { names = fun_ext (set_entry-user_id a.heap p side) i }

pub view-set_user :
    (a : App) (p : ℕ) (u : User)
    → view (set_user a p u) ≡ record (view a) { names = put_at (view a).names p u.user_id }
view-set_user a p u =
    λ i. record (view a) { names = put_at-map (λ (x : User). x.user_id) a.heap p u i }

pub view-set_peer :
    (a : App) (p : ℕ) (q : AppPeer)
    → view (set_peer a p q) ≡ with_room (with_lobby (view a) p q.lobby) p q.room
view-set_peer a p q = λ i. record (view a) {
  lobby_of = put_at-map (λ (x : AppPeer). x.lobby) a.peers p q i;
  room_of = put_at-map (λ (x : AppPeer). x.room) a.peers p q i;
}

-- A change of a peer that leaves it where it is.
pub view-quiet :
    (a : App) (p : ℕ) (q : AppPeer)
    → q.lobby ≡ (a.peers p).lobby
    → q.room ≡ (a.peers p).room
    → view (set_peer a p q) ≡ view a
view-quiet a p q l r = view-set_peer a p q ∙ (λ i. record (view a) {
  lobby_of = (ap (put_at (view a).lobby_of p) l ∙ put_at-same (view a).lobby_of p) i;
  room_of = (ap (put_at (view a).room_of p) r ∙ put_at-same (view a).room_of p) i;
})

pub view-with_room :
    (a : App) (p : ℕ) (q : AppPeer)
    → q.lobby ≡ (a.peers p).lobby
    → view (set_peer a p q) ≡ with_room (view a) p q.room
view-with_room a p q l = view-set_peer a p q ∙ (λ i. record (with_room (view a) p q.room) {
  lobby_of = (ap (put_at (view a).lobby_of p) l ∙ put_at-same (view a).lobby_of p) i;
})

pub view-with_lobby :
    (a : App) (p : ℕ) (q : AppPeer)
    → q.room ≡ (a.peers p).room
    → view (set_peer a p q) ≡ with_lobby (view a) p q.lobby
view-with_lobby a p q r = view-set_peer a p q ∙ (λ i. record (with_lobby (view a) p q.lobby) {
  room_of = (ap (put_at (view a).room_of p) r ∙ put_at-same (view a).room_of p) i;
})

-- The room is written into its lobby, which is otherwise as before.
set_room-users :
    (a : App) (r : RoomRef) (w : Room) (l : LobbyRef)
    → (lobby_at (set_room a r w) l).users ≡ (lobby_at a l).users
set_room-users a r w l = elim (Bool-cases (same_lobby l r.in_lobby)) [
  | inl e ↦ rw e (ap (λ x. (lobby_at a x).users) (sym (same_lobby-≡ l r.in_lobby e)))
  | inr e ↦ rw e refl
]

if_users : (b : Bool) (w x : Room) → (if b then w else x).users ≡ (if b then w.users else x.users)
if_users true w x = refl
if_users false w x = refl

set_room-rooms :
    (a : App) (r : RoomRef) (w : Room) (t : RoomRef)
    → room_at (set_room a r w) t ≡ (if same_room t r then w else room_at a t)
set_room-rooms a r w t = elim (Bool-cases (same_lobby t.in_lobby r.in_lobby)) [
  | inl e ↦ elim (Bool-cases (t.at_room == r.at_room)) [
    | inl f ↦ rw (room_at, lobby_at, e, f) refl
    | inr f ↦
        rw (room_at, lobby_at, e, f)
          (ap
            (λ l. elim ((lobby_at a l).rooms t.at_room) [
              | none ↦ new_room t.in_lobby.at_lobby t.at_room
              | some v ↦ v
            ])
            (sym (same_lobby-≡ t.in_lobby r.in_lobby e)))
  ]
  | inr e ↦ rw (room_at, lobby_at, e) refl
]

pub view-set_room :
    (a : App) (r : RoomRef) (w : Room) → view (set_room a r w) ≡ with_members (view a) r w.users
view-set_room a r w =
    let members : (t : RoomRef)
        → (room_at (set_room a r w) t).users ≡ (with_members (view a) r w.users).room_users t =
      λ t. ap (λ x. x.users) (set_room-rooms a r w t) ∙ if_users (same_room t r) w (room_at a t) in
    λ i. record (view a) {
      lobby_users = fun_ext (set_room-users a r w) i;
      room_users = fun_ext members i;
    }

-- A lobby is replaced by one with the same rooms.
set_lobby-rooms :
    (a : App) (l : LobbyRef) (w : Lobby) (t : RoomRef)
    → w.rooms ≡ (lobby_at a l).rooms
    → room_at (set_lobby a l w) t ≡ room_at a t
set_lobby-rooms a l w t e = elim (Bool-cases (same_lobby t.in_lobby l)) [
  | inl same ↦
      rw (room_at, lobby_at, same)
        (ap
          (λ rooms. elim (rooms t.at_room) [
            | none ↦ new_room t.in_lobby.at_lobby t.at_room
            | some v ↦ v
          ])
          (e ∙ ap (λ x. (lobby_at a x).rooms) (sym (same_lobby-≡ t.in_lobby l same))))
  | inr other ↦ rw (room_at, lobby_at, other) refl
]

pub view-set_lobby :
    (a : App) (l : LobbyRef) (w : Lobby)
    → w.rooms ≡ (lobby_at a l).rooms
    → view (set_lobby a l w) ≡ with_lobby_users (view a) l w.users
view-set_lobby a l w e =
    let users : (t : LobbyRef)
        → (lobby_at (set_lobby a l w) t).users
          ≡ (with_lobby_users (view a) l w.users).lobby_users t =
      λ t. elim (Bool-cases (same_lobby t l)) [
        | inl same ↦ rw same refl
        | inr other ↦ rw other refl
      ] in
    λ i. record (view a) {
      lobby_users = fun_ext users i;
      room_users = fun_ext (λ t. ap (λ x. x.users) (set_lobby-rooms a l w t e)) i;
    }
