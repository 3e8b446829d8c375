-- ===== src/App/Members/Places.antt =====
-- Lists of peers under their names, and places that are given and taken.
use zdxsv.Prelude.{
  ℕ, String, Bool, true, false, ◌&&◌, List, [], ◌∷◌, ◌++◌, Option, none, some, ◌≡◌, ◌≢◌, refl, sym,
  ap, ◌∙◌, ◌⊎◌, inl, inr, ◌==◌, if◌then◌else◌, str_eq, eq_iff, str_eq_self, ne_of_str_eq, find, All,
  In, All-In, All-imp, Bool-cases, ==_refl, ==_ne, ==_iff, arith,
}
use native.Mathlib.Decide.{ℕ_discrete}
use zdxsv.App.{LobbyRef, RoomRef, put_at}
use zdxsv.App.Members.{
  View, IsSound, IsOnline, Distinct, same_lobby, same_room, with_lobby_users, with_members, without,
}

module _ {ℓ} {A : Type ℓ} where
  pub put_at_self : (f : ℕ → A) (k : ℕ) (v : A) → put_at f k v k ≡ v
  put_at_self f k v = rw (==_refl k) refl

  pub put_at_ne : (f : ℕ → A) (k : ℕ) (v : A) (j : ℕ) → j ≢ k → put_at f k v j ≡ f j
  put_at_ne f k v j n = rw (==_ne j k n) refl

  pub none≢some : (x : A) (o : Option A) → o ≡ none → o ≢ some x
  none≢some x o n s = cc (n, s)

  pub none-apart : (f : ℕ → Option A) (p q : ℕ) (x : A) → f p ≡ none → f q ≡ some x → q ≢ p
  none-apart f p q x n s e = cc (n, s, e)

module _ {ℓ} {A : Type ℓ} where
  -- A place taken away: who still has one is somebody else.
  pub put_none :
      (f : ℕ → Option A) (p q : ℕ) (x : A) → put_at f p none q ≡ some x → (q ≢ p) × (f q ≡ some x)
  put_none f p q x e = elim (ℕ_discrete q p) [
    | yes i ↦ absurd (none≢some x _ (ap (put_at f p none) i ∙ put_at_self f p none) e)
    | no d ↦ (d, sym (put_at_ne f p none q d) ∙ e)
  ]

abbrev pub lobby_in : Option RoomRef → Option LobbyRef
lobby_in none = none
lobby_in (some r) = some r.in_lobby

pub str_eq-≡ : (j k : String) → str_eq j k ≡ true → j ≡ k
str_eq-≡ j k e = (eq_iff j k).0 e

pub and-both : (x y : Bool) → x && y ≡ true → (x ≡ true) × (y ≡ true)
and-both true y e = (refl, e)
and-both false y e = absurd (grind (arith, e))

pub same_lobby-≡ : (s l : LobbyRef) → same_lobby s l ≡ true → s ≡ l
same_lobby-≡ s l e =
    let (a, b) = and-both _ _ e in
    let platform = str_eq-≡ _ _ a in
    let id = (==_iff s.at_lobby l.at_lobby).0 b in
    λ i. record { at_platform = platform i; at_lobby = id i }

pub same_room-≡ : (s r : RoomRef) → same_room s r ≡ true → s ≡ r
same_room-≡ s r e =
    let (a, b) = and-both (same_lobby s.in_lobby r.in_lobby) (s.at_room == r.at_room) e in
    let lobby = same_lobby-≡ s.in_lobby r.in_lobby a in
    let id = (==_iff s.at_room r.at_room).0 b in λ i. record { in_lobby = lobby i; at_room = id i }

pub same_lobby_self : (l : LobbyRef) → same_lobby l l ≡ true
same_lobby_self l = rw (str_eq_self l.at_platform) (==_refl l.at_lobby)

pub same_room_self : (r : RoomRef) → same_room r r ≡ true
same_room_self r =
    rw (str_eq_self r.in_lobby.at_platform, ==_refl r.in_lobby.at_lobby) (==_refl r.at_room)

-- To split on whether it is this lobby, or this room.
pub lobby-cases : (s l : LobbyRef) → (s ≡ l) ⊎ (same_lobby s l ≡ false)
lobby-cases s l = elim (Bool-cases (same_lobby s l)) [
  | inl e ↦ inl (same_lobby-≡ s l e)
  | inr e ↦ inr e
]

pub room-cases : (s r : RoomRef) → (s ≡ r) ⊎ (same_room s r ≡ false)
room-cases s r = elim (Bool-cases (same_room s r)) [
  | inl e ↦ inl (same_room-≡ s r e)
  | inr e ↦ inr e
]

pub with_members_at :
    (v : View) (r : RoomRef) (us : List ℕ) → (with_members v r us).room_users r ≡ us
with_members_at v r us = rw (same_room_self r) refl

pub with_lobby_users_at :
    (v : View) (l : LobbyRef) (es : List (String × ℕ))
    → (with_lobby_users v l es).lobby_users l ≡ es
with_lobby_users_at v l es = rw (same_lobby_self l) refl

pub with_members_ne :
    (v : View) (r : RoomRef) (us : List ℕ) (t : RoomRef)
    → same_room t r ≡ false
    → (with_members v r us).room_users t ≡ v.room_users t
with_members_ne v r us t n = rw n refl

pub with_lobby_users_ne :
    (v : View) (l : LobbyRef) (es : List (String × ℕ)) (t : LobbyRef)
    → same_lobby t l ≡ false
    → (with_lobby_users v l es).lobby_users t ≡ v.lobby_users t
with_lobby_users_ne v l es t n = rw n refl

pub lobby_ne : (t l : LobbyRef) → same_lobby t l ≡ false → some t ≢ some l
lobby_ne t l n e = cc (same_lobby_self l, n, e)

pub some_apart : (t r : RoomRef) → same_room t r ≡ false → some t ≢ some r
some_apart t r n e = cc (same_room_self r, n, e)

-- Lists of peers under their ids.
pub All-from {ℓ} : (P : ℕ → Type ℓ) (us : List ℕ) → ((u : ℕ) → In u us → P u) → All P us
All-from P [] f = tt
All-from P (u ∷ us) f = (f u (inl refl), All-from P us (λ w i. f w (inr i)))

pub Distinct-same :
    (f g : ℕ → String) (us : List ℕ) → All (λ u. g u ≡ f u) us → Distinct f us → Distinct g us
Distinct-same f g [] a d = tt
Distinct-same f g (u ∷ us) (e, a) (b, d) = (
  All-from _ us (λ w i n. All-In _ w us b i (sym (All-In _ w us a i) ∙ n ∙ e)),
  Distinct-same f g us a d,
)

pub In-append : (q p : ℕ) (us : List ℕ) → In q (us ++ p ∷ []) → In q us ⊎ (q ≡ p)
In-append q p [] (inl e) = inr e
In-append q p [] (inr i) = absurd i
In-append q p (u ∷ us) (inl e) = inl (inl e)
In-append q p (u ∷ us) (inr i) = elim (In-append q p us i) [ inl j ↦ inl (inr j) | inr e ↦ inr e ]

pub All-append {ℓ} : (P : ℕ → Type ℓ) (p : ℕ) (us : List ℕ) → All P us → P p → All P (us ++ p ∷ [])
All-append P p [] a x = (x, tt)
All-append P p (u ∷ us) (b, a) x = (b, All-append P p us a x)

pub Distinct-append :
    (names : ℕ → String) (p : ℕ) (us : List ℕ)
    → Distinct names us
    → All (λ u. names p ≢ names u) us
    → Distinct names (us ++ p ∷ [])
Distinct-append names p [] d a = (tt, tt)
Distinct-append names p (u ∷ us) (b, d) (n, a) =
    (All-append _ p us b n, Distinct-append names p us d a)

pub In-step :
    (b : Bool) (q u : ℕ) (us ws : List ℕ)
    → (In q ws → In q us)
    → In q (if b then us else u ∷ ws)
    → In q (u ∷ us)
In-step true q u us ws f i = inr i
In-step false q u us ws f (inl e) = inl e
In-step false q u us ws f (inr i) = inr (f i)

pub In-without :
    (names : ℕ → String) (id : String) (q : ℕ) (us : List ℕ) → In q (without names id us) → In q us
In-without names id q [] i = i
In-without names id q (u ∷ us) i = In-step _ q u us _ (In-without names id q us) i

pub All-without {ℓ} :
    (P : ℕ → Type ℓ) (names : ℕ → String) (id : String) (us : List ℕ)
    → All P us
    → All P (without names id us)
All-without P names id [] a = a
All-without P names id (u ∷ us) (b, a) = elim (Bool-cases (str_eq (names u) id)) [
  | inl e ↦ rw e a
  | inr e ↦ rw e (b, All-without P names id us a)
]

pub Distinct-without :
    (names : ℕ → String) (id : String) (us : List ℕ)
    → Distinct names us
    → Distinct names (without names id us)
Distinct-without names id [] d = d
Distinct-without names id (u ∷ us) (a, d) = elim (Bool-cases (str_eq (names u) id)) [
  | inl e ↦ rw e d
  | inr e ↦ rw e (All-without _ names id us a, Distinct-without names id us d)
]

-- Nobody of that id is left.
pub without-gone :
    (names : ℕ → String) (id : String) (us : List ℕ)
    → Distinct names us
    → All (λ u. names u ≢ id) (without names id us)
without-gone names id [] d = tt
without-gone names id (u ∷ us) (a, d) = elim (Bool-cases (str_eq (names u) id)) [
  | inl e ↦ rw e (All-imp _ _ (λ w n i. n (i ∙ sym (str_eq-≡ (names u) id e))) us a)
  | inr e ↦ rw e (ne_of_str_eq (names u) id e, without-gone names id us d)
]

-- A peer is online under one id, and two peers that are online have two ids.
pub online-same : (v : View) (p q : ℕ) → IsOnline v p → IsOnline v q → v.names p ≡ v.names q → p ≡ q
online-same v p q a b e = cc (a, b, e)

module _ (v : View) (s : IsSound v) where
  -- A room or a lobby has no peer of another.
  pub room-apart : (r : RoomRef) (p q : ℕ) → v.room_of p ≡ none → In q (v.room_users r) → q ≢ p
  room-apart r p q n i = none-apart v.room_of p q r n (s.in_rooms r q i).0

  pub lobby-apart :
      (l : LobbyRef) (id : String) (p q : ℕ)
      → v.lobby_of p ≡ none
      → find (v.lobby_users l) id ≡ some q
      → q ≢ p
  lobby-apart l id p q n i = none-apart v.lobby_of p q l n (s.in_lobbies l id q i).1

  -- Nor the peer of one room in the list of another.
  pub elsewhere :
      (p q : ℕ) (r t : RoomRef)
      → v.room_of p ≡ some r
      → same_room t r ≡ false
      → In q (v.room_users t)
      → q ≢ p
  elsewhere p q r t e other i x =
      let same : some t ≡ some r = sym (s.in_rooms t q i).0 ∙ ap v.room_of x ∙ e in
      some_apart t r other same
