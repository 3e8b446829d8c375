-- ===== src/Model/Room/Status.antt =====
-- The state of a room and its members, across `Enter` and `Exit`.
use mathlib.Core.Path.{subst}
use zdxsv.Model.Rule.{Rule}
use zdxsv.Prelude.{
  ℕ, suc, ◌+◌, ◌*◌, ◌^◌, ◌<◌, ◌≡◌, ◌≢◌, refl, sym, ap, ◌∙◌, inl, inr, ◌⊎◌, String, str_eq,
  str_eq_ne, eq_iff, All-imp, List, [], ◌∷◌, ◌++◌, ◌==◌, ==_iff, if◌then◌else◌, length, arith,
  Bool-cases, length-append, All,
}
use zdxsv.Model.User.{Heap}
use zdxsv.Model.Room.{
  Room, new_room, set_status, open_room, enter, remove_user, remove, exit, state_recruit,
  state_full,
}

-- Nobody is in a room that is vacant, and a room with members is full exactly at its size.
pub IsSound : Room → Type 0
IsSound r =
    ((r.users ≡ []) × (r ≡ new_room r.lobby_id r.id))
    ⊎ ((0 < length r.users)
        × (r.status ≡ (if length r.users == r.max_player then state_full else state_recruit)))

pub new_room-IsSound : (l i : ℕ) → IsSound (new_room l i)
unfolding IsSound new_room
new_room-IsSound l i = inl (refl, refl)

set_status-users : (r : Room) → (set_status r).users ≡ r.users
unfolding set_status
set_status-users r = ground arith

set_status-ids : (r : Room) → ((set_status r).lobby_id ≡ r.lobby_id) × ((set_status r).id ≡ r.id)
unfolding set_status
set_status-ids r = ground arith

set_status-status :
    (r : Room)
    → (set_status r).status ≡ (
        if length (set_status r).users == (set_status r).max_player
        then state_full
        else state_recruit)
unfolding set_status
set_status-status r = ground arith

open_room-users : (h : Heap) (r : Room) (u now : ℕ) → (open_room h r u now).users ≡ r.users
unfolding open_room
open_room-users h r u now = ground arith

pub enter-users : (h : Heap) (r : Room) (u now : ℕ) → (enter h r u now).users ≡ r.users ++ u ∷ []
unfolding enter
enter-users h r u now = set_status-users _ ∙ ap (λ us. us ++ u ∷ []) (open_room-users h r u now)

remove_vacant :
    (r : Room) → ((remove r).users ≡ []) × (remove r ≡ new_room (remove r).lobby_id (remove r).id)
unfolding remove new_room
remove_vacant r = (refl, refl)

pub exit-users :
    (h : Heap) (r : Room) (id : String) → (exit h r id).users ≡ remove_user h id r.users
unfolding exit
exit-users h r id = elim (Bool-cases (length left.users == 0)) [
  | inl vacant ↦ rw vacant (
      (remove_vacant left).0
      ∙ sym (
          none_left (remove_user h id r.users)
            (omega (arith, ap length kept, (==_iff _ 0).0 vacant))))
  | inr some_left ↦ rw some_left kept
]
  where
    left : Room
    left = set_status (record r { users = remove_user h id r.users })

    kept : left.users ≡ remove_user h id r.users
    kept = set_status-users (record r { users = remove_user h id r.users })

    none_left : (us : List ℕ) → length us ≡ 0 → us ≡ []
    none_left [] e = refl
    none_left (u ∷ us) e = absurd (omega arith)

-- The owner, the size and the end of a room, with its place and its rule.
abbrev pub terms : Room → String × ℕ × ℕ × ℕ × ℕ × Rule
terms r = (r.owner, r.max_player, r.deadline, r.lobby_id, r.id, r.rule)

set_status-terms : (r : Room) → terms (set_status r) ≡ terms r
unfolding set_status
set_status-terms r = elim (Bool-cases (length r.users == r.max_player)) [
  | inl e ↦ rw e refl
  | inr e ↦ rw e refl
]

-- The terms that the user finds or, the first one in, sets.
abbrev pub terms_for : Heap → Room → ℕ → ℕ → List ℕ → String × ℕ × ℕ × ℕ × ℕ × Rule
terms_for h r u now [] =
    ((h u).user_id, r.rule.player_count, now + 30 * 60 * 10 ^ 9, r.lobby_id, r.id, r.rule)
terms_for h r u now (v ∷ us) = terms r

open_room-terms :
    (h : Heap) (r : Room) (u now : ℕ) (us : List ℕ)
    → r.users ≡ us
    → terms (open_room h r u now) ≡ terms_for h r u now us
unfolding open_room
open_room-terms h r u now [] e =
    let none_yet : length r.users ≡ 0 = ap length e in
    rw ((==_iff (length r.users) 0).1 none_yet) refl
open_room-terms h r u now (v ∷ us) e = elim (Bool-cases (length r.users == 0)) [
  | inl z ↦
      let size : length r.users ≡ suc (length us) = ap length e in
      absurd (omega (arith, (==_iff (length r.users) 0).0 z))
  | inr z ↦ rw z refl
]

-- `Enter` puts the user behind the members. The first one in becomes the owner of a room of the size that
-- the rule says, for 30 minutes; later ones find the owner, the size and the end as they were. The state
-- is full exactly when the members, the new one too, are as many as the size, and else recruiting.
pub enter_lem :
    (h : Heap) (r : Room) (u now : ℕ)
    → ((enter h r u now).users ≡ r.users ++ u ∷ [])
      × (terms (enter h r u now) ≡ terms_for h r u now r.users)
      × ((enter h r u now).status ≡ (
          if suc (length r.users) == (enter h r u now).max_player
          then state_full
          else state_recruit))
unfolding enter
enter_lem h r u now =
    let opened = open_room h r u now in
    let last = record opened { users = opened.users ++ u ∷ [] } in
    let size : length (set_status last).users ≡ suc (length r.users) =
      omega (arith, ap length (enter-users h r u now), length-append r.users (u ∷ [])) in
    (
      enter-users h r u now,
      set_status-terms last ∙ open_room-terms h r u now r.users refl,
      subst
          (λ n.
            (set_status last).status
            ≡ (if n == (set_status last).max_player then state_full else state_recruit))
          size (set_status-status last),
    )

pub exit-IsSound : (h : Heap) (r : Room) (id : String) → IsSound (exit h r id)
unfolding IsSound exit
exit-IsSound h r id = elim (Bool-cases (length left.users == 0)) [
  | inl vacant ↦ rw vacant (inl (remove_vacant left))
  | inr some_left ↦ rw some_left (inr (ground arith, set_status-status _))
]
  where
    left : Room
    left = set_status (record r { users = remove_user h id r.users })

-- The members with another id, in their order.
pub others : Heap → String → List ℕ → List ℕ
others h id [] = []
others h id (u ∷ us) = if str_eq (h u).user_id id then others h id us else u ∷ others h id us

abbrev pub IsDistinct : Heap → List ℕ → Type 0
IsDistinct h [] = Unit {0}
IsDistinct h (u ∷ us) = All (λ w. (h w).user_id ≢ (h u).user_id) us × IsDistinct h us

others-absent :
    (h : Heap) (id : String) (us : List ℕ) → All (λ w. (h w).user_id ≢ id) us → others h id us ≡ us
unfolding others
others-absent h id [] a = refl
others-absent h id (u ∷ us) (ne, a) =
    rw (str_eq_ne (h u).user_id id ne) (ap (◌∷◌ u) (others-absent h id us a))

remove_user-others :
    (h : Heap) (id : String) (us : List ℕ) → IsDistinct h us → remove_user h id us ≡ others h id us
unfolding remove_user others
remove_user-others h id [] d = refl
remove_user-others h id (u ∷ us) (a, d) = elim (Bool-cases (str_eq (h u).user_id id)) [
  | inl hit ↦ rw hit (
      sym (others-absent h id us (All-imp _ _ (λ w ne e. ne (e ∙ sym ((eq_iff _ id).0 hit))) us a)))
  | inr miss ↦ rw miss (ap (◌∷◌ u) (remove_user-others h id us d))
]

-- In a room of users with different ids, `Exit` takes out the user with the id and nobody else;
-- the room then is as new if nobody is left, and else its state follows from its size.
pub exit_lem :
    (h : Heap) (r : Room) (id : String)
    → IsDistinct h r.users
    → ((exit h r id).users ≡ others h id r.users) × IsSound (exit h r id)
exit_lem h r id d = (exit-users h r id ∙ remove_user-others h id r.users d, exit-IsSound h r id)
