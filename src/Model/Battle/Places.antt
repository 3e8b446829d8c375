-- ===== src/Model/Battle/Places.antt =====
-- The places and the sides of a battle's users.
use zdxsv.Prelude.{
  ℕ, suc, ◌+◌, ◌-◌, ◌%◌, ◌<◌, ◌≡◌, refl, sym, ap, ◌∙◌, String, List, [], ◌∷◌, ◌++◌, some, false,
  if◌then◌else◌, ltb, ◌==◌, length, get_elem?, str_eq, In, inl, inr, map, arith, Bool-cases,
  ne_of_str_eq, eq_iff, append-nil, append_assoc,
}
use zdxsv.Model.User.{User, entry_aeug, entry_titans}
use zdxsv.Model.Battle.{
  Battle, new_battle, add, num_of_entry_users, position_from, get_position, get_user_by_pos,
}

-- An index in the list of a user with the id, and the place one above it.
abbrev HasPlace : ℕ → String → List User → Type 0
HasPlace i id us =
    (k : ℕ) × (v : User) × (position_from i id us ≡ suc (i + k))
    × (get_elem? us k ≡ some v)
    × (v.user_id ≡ id)
    × (k < length us)

In-behind :
    (id : String) (u : User) (us : List User)
    → In id (map (λ v. v.user_id) (u ∷ us))
    → str_eq id u.user_id ≡ false
    → In id (map (λ v. v.user_id) us)
In-behind id u us (inl e) n = absurd (ne_of_str_eq id u.user_id n e)
In-behind id u us (inr m) n = m

position_from-HasPlace :
    (i : ℕ) (id : String) (us : List User)
    → i + length us < 256
    → In id (map (λ u. u.user_id) us)
    → HasPlace i id us
position_from-HasPlace i id [] h m = absurd m
position_from-HasPlace i id (u ∷ us) h m = elim (Bool-cases (str_eq id u.user_id)) [
  | inl e ↦ (0, u, rw e (omega arith), refl, sym ((eq_iff id u.user_id).0 e), omega arith)
  | inr n ↦
      let (k, v, p, g, s, l) =
        position_from-HasPlace (suc i) id us (omega arith) (In-behind id u us m n) in
      (suc k, v, rw n (p ∙ omega arith), g, s, omega arith)
]

-- In a battle of fewer than 256 users, the place of a user id in it leads back to a user of that id.
pub get_user_by_pos-get_position :
    (b : Battle) (id : String)
    → length b.users < 256
    → In id (map (λ u. u.user_id) b.users)
    → (v : User) × (get_user_by_pos b (get_position b id) ≡ some v) × (v.user_id ≡ id)
unfolding get_user_by_pos get_position
get_user_by_pos-get_position b id h m =
    let (k, v, p, g, s, l) = position_from-HasPlace 0 id b.users (omega arith) m in
    let place : position_from 0 id b.users ≡ suc k = p ∙ omega arith in
    let inside : ltb (length b.users) (suc k) ≡ false = ground arith in
    let index : suc k - 1 ≡ k = omega arith in
    let above : (suc k == 0) ≡ false = ground arith in (v, rw (place, above, inside, index) g, s)

-- The users added, one after the other.
abbrev pub add_all : Battle → List User → Battle
add_all b [] = b
add_all b (u ∷ us) = add_all (add b u) us

-- The ids of those on one side.
abbrev pub ids_of : ℕ → List User → List String
ids_of side [] = []
ids_of side (u ∷ us) =
    let rest = ids_of side us in if u.entry == side then u.user_id ∷ rest else rest

abbrev Holds : Battle → Battle → List User → Type 0
Holds b c us =
    (c.users ≡ b.users ++ us)
    × (c.aeug_ids ≡ b.aeug_ids ++ ids_of entry_aeug us)
    × (c.titans_ids ≡ b.titans_ids ++ ids_of entry_titans us)

users-add : (b : Battle) (u : User) → (add b u).users ≡ b.users ++ u ∷ []
unfolding add
users-add b u = elim (Bool-cases (u.entry == entry_aeug)) [
  | inl a ↦ rw a refl
  | inr a ↦ elim (Bool-cases (u.entry == entry_titans)) [
    | inl t ↦ rw (a, t) refl
    | inr t ↦ rw (a, t) refl
  ]
]

aeug_ids-add :
    (b : Battle) (u : User) → (add b u).aeug_ids ≡ b.aeug_ids ++ ids_of entry_aeug (u ∷ [])
unfolding add
aeug_ids-add b u = elim (Bool-cases (u.entry == entry_aeug)) [
  | inl a ↦ rw a refl
  | inr a ↦ elim (Bool-cases (u.entry == entry_titans)) [
    | inl t ↦ rw (a, t) (sym (append-nil b.aeug_ids))
    | inr t ↦ rw (a, t) (sym (append-nil b.aeug_ids))
  ]
]

titans_ids-add :
    (b : Battle) (u : User) → (add b u).titans_ids ≡ b.titans_ids ++ ids_of entry_titans (u ∷ [])
unfolding add
titans_ids-add b u = elim (Bool-cases (u.entry == entry_aeug)) [
  | inl a ↦
      let other : (u.entry == entry_titans) ≡ false = ground arith in
      rw (a, other) (sym (append-nil b.titans_ids))
  | inr a ↦ elim (Bool-cases (u.entry == entry_titans)) [
    | inl t ↦ rw (a, t) refl
    | inr t ↦ rw (a, t) (sym (append-nil b.titans_ids))
  ]
]

ids_of-cons :
    (side : ℕ) (u : User) (us : List User)
    → ids_of side (u ∷ []) ++ ids_of side us ≡ ids_of side (u ∷ us)
ids_of-cons side u us = elim (Bool-cases (u.entry == side)) [
  | inl e ↦ rw e refl
  | inr e ↦ rw e refl
]

-- One more at the front of what has been added.
added :
    {A : Type 0} (all before one rest whole : List A) (between : List A)
    → all ≡ between ++ rest
    → between ≡ before ++ one
    → one ++ rest ≡ whole
    → all ≡ before ++ whole
added all before one rest whole between e f g =
    e ∙ ap (λ l. l ++ rest) f ∙ append_assoc before one rest ∙ ap (λ l. before ++ l) g

Holds-add_all : (b : Battle) (us : List User) → Holds b (add_all b us) us
Holds-add_all b [] =
    (sym (append-nil b.users), sym (append-nil b.aeug_ids), sym (append-nil b.titans_ids))
Holds-add_all b (u ∷ us) =
    let (users, aeug, titans) = Holds-add_all (add b u) us in
    (
      added _ b.users (u ∷ []) us (u ∷ us) (add b u).users users (users-add b u) refl,
      added _ b.aeug_ids (ids_of entry_aeug (u ∷ [])) _ _ (add b u).aeug_ids aeug (aeug_ids-add b u)
          (ids_of-cons entry_aeug u us),
      added _ b.titans_ids (ids_of entry_titans (u ∷ [])) _ _ (add b u).titans_ids titans
          (titans_ids-add b u) (ids_of-cons entry_titans u us),
    )

-- A battle made by adding users to a new one holds them in order; its two lists of ids are those of the
-- users on each side, in order; and it counts as many fighters, as a uint16.
pub add-sides :
    (platform : String) (lobby_id session : ℕ) (us : List User)
    → ((add_all (new_battle platform lobby_id session) us).users ≡ us)
      × ((add_all (new_battle platform lobby_id session) us).aeug_ids ≡ ids_of entry_aeug us)
      × ((add_all (new_battle platform lobby_id session) us).titans_ids ≡ ids_of entry_titans us)
      × (num_of_entry_users (add_all (new_battle platform lobby_id session) us)
          ≡ (length (ids_of entry_aeug us) + length (ids_of entry_titans us)) % 65536)
unfolding num_of_entry_users
add-sides platform lobby_id session us =
    let (users, aeug, titans) = Holds-add_all (new_battle platform lobby_id session) us in
    (users, aeug, titans, rw (aeug, titans) refl)
