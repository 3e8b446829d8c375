-- ===== src/App/Members/Rooms.antt =====
-- The moves about rooms keep the lists sound.
use zdxsv.Prelude.{
  ℕ, String, List, [], ◌∷◌, ◌++◌, Option, none, some, ◌≡◌, ◌≢◌, refl, sym, ap, ◌∙◌, inl, inr,
  str_eq, All, In, All-In, Bool-cases,
}
use mathlib.Core.Path.{subst}
use native.Mathlib.Decide.{ℕ_discrete}
use zdxsv.App.{RoomRef, put_at}
use zdxsv.App.Members.{
  View, IsSound, IsOnline, Distinct, with_room, with_members, without, dismissed,
}
use zdxsv.App.Members.Places.{
  put_at_self, put_at_ne, put_none, lobby_in, room-cases, with_members_at, with_members_ne,
  All-from, In-append, Distinct-append, In-without, Distinct-without, without-gone, online-same,
  room-apart, elsewhere,
}

module _ (v : View) (s : IsSound v) where
  pub take_room-IsSound :
      (p : ℕ) (r : RoomRef)
      → v.lobby_of p ≡ some r.in_lobby
      → v.room_of p ≡ none
      → IsSound (with_room v p (some r))
  take_room-IsSound p r l n = record {
    named = s.named;
    in_lobbies = s.in_lobbies;
    in_rooms = λ t q i. (
      put_at_ne v.room_of p (some r) q (room-apart v s t p q n i) ∙ (s.in_rooms t q i).0,
      (s.in_rooms t q i).1,
    );
    apart = s.apart;
    placed = λ q t e. elim (ℕ_discrete q p) [
      | yes i ↦
          let same : some r ≡ some t =
            sym (put_at_self v.room_of p (some r)) ∙ ap (put_at v.room_of p (some r)) (sym i) ∙ e in
          ap v.lobby_of i ∙ l ∙ ap lobby_in same
      | no d ↦ s.placed q t (sym (put_at_ne v.room_of p (some r) q d) ∙ e)
    ];
  }

  pub join_room-IsSound :
      (p : ℕ) (r : RoomRef)
      → IsOnline v p
      → v.room_of p ≡ some r
      → All (λ u. u ≢ p) (v.room_users r)
      → IsSound (with_members v r (v.room_users r ++ p ∷ []))
  join_room-IsSound p r on e a =
      let us = v.room_users r ++ p ∷ [] in
      record {
        named = s.named;
        in_lobbies = s.in_lobbies;
        in_rooms = λ t q i. elim (room-cases t r) [
          | inl same ↦
              let j : In q us =
                subst (In q) (ap (with_members v r us).room_users same ∙ with_members_at v r us)
                  i in
              elim (In-append q p (v.room_users r) j) [
                | inl old ↦ ((s.in_rooms r q old).0 ∙ ap some (sym same), (s.in_rooms r q old).1)
                | inr new ↦
                    (ap v.room_of new ∙ e ∙ ap some (sym same), subst (IsOnline v) (sym new) on)
              ]
          | inr ne ↦ s.in_rooms t q (subst (In q) (with_members_ne v r us t ne) i)
        ];
        apart = λ t. elim (room-cases t r) [
          | inl same ↦
              subst (Distinct v.names)
                (sym (ap (with_members v r us).room_users same ∙ with_members_at v r us))
                (Distinct-append v.names p (v.room_users r) (s.apart r) (
                  All-from _ (v.room_users r) (λ u i n.
                    All-In _ u (v.room_users r) a i
                      (sym (online-same v p u on (s.in_rooms r u i).1 n)))))
          | inr ne ↦ subst (Distinct v.names) (sym (with_members_ne v r us t ne)) (s.apart t)
        ];
        placed = s.placed;
      }

  pub leave_room-IsSound :
      (p : ℕ) (r : RoomRef)
      → IsOnline v p
      → v.room_of p ≡ some r
      → IsSound (with_room (with_members v r (without v.names (v.names p) (v.room_users r))) p none)
  leave_room-IsSound p r on e =
      let us = without v.names (v.names p) (v.room_users r) in
      record {
        named = s.named;
        in_lobbies = s.in_lobbies;
        in_rooms = λ t q i. elim (room-cases t r) [
          | inl same ↦
              let j : In q us =
                subst (In q) (ap (with_members v r us).room_users same ∙ with_members_at v r us)
                  i in
              let k : In q (v.room_users r) = In-without v.names (v.names p) q (v.room_users r) j in
              let ne : q ≢ p = λ x.
                All-In _ q us (without-gone v.names (v.names p) (v.room_users r) (s.apart r)) j
                  (ap v.names x) in
              (
                put_at_ne v.room_of p none q ne ∙ (s.in_rooms r q k).0 ∙ ap some (sym same),
                (s.in_rooms r q k).1,
              )
          | inr other ↦
              let k : In q (v.room_users t) = subst (In q) (with_members_ne v r us t other) i in
              (
                put_at_ne v.room_of p none q (elsewhere v s p q r t e other k)
                    ∙ (s.in_rooms t q k).0,
                (s.in_rooms t q k).1,
              )
        ];
        apart = λ t. elim (room-cases t r) [
          | inl same ↦
              subst (Distinct v.names)
                (sym (ap (with_members v r us).room_users same ∙ with_members_at v r us))
                (Distinct-without v.names (v.names p) (v.room_users r) (s.apart r))
          | inr other ↦ subst (Distinct v.names) (sym (with_members_ne v r us t other)) (s.apart t)
        ];
        placed = λ q t x. s.placed q t (put_none v.room_of p q t x).1;
      }

  -- The dismissal touches members only, and only takes rooms away.
  pub dismissed_ne :
      (owner : String) (f : ℕ → Option RoomRef) (us : List ℕ) (q : ℕ)
      → All (λ u. IsOnline v u) us
      → All (λ u. q ≢ u) us
      → dismissed v.names v.online owner f us q ≡ f q
  dismissed_ne owner f [] q a n = refl
  dismissed_ne owner f (u ∷ us) q (on, a) (ne, n) = elim (Bool-cases (str_eq owner (v.names u))) [
    | inl e ↦ rw e (dismissed_ne owner f us q a n)
    | inr e ↦ rw (e, on) (dismissed_ne owner (put_at f u none) us q a n ∙ put_at_ne f u none q ne)
  ]

  pub dismissed-some :
      (owner : String) (f : ℕ → Option RoomRef) (us : List ℕ) (q : ℕ) (t : RoomRef)
      → All (λ u. IsOnline v u) us
      → dismissed v.names v.online owner f us q ≡ some t
      → f q ≡ some t
  dismissed-some owner f [] q t a e = e
  dismissed-some owner f (u ∷ us) q t (on, a) e = elim (Bool-cases (str_eq owner (v.names u))) [
    | inl x ↦ dismissed-some owner f us q t a (rw x at e)
    | inr x ↦
        (put_none f u q t (dismissed-some owner (put_at f u none) us q t a (rw (x, on) at e))).1
  ]

  pub close_room-IsSound :
      (p : ℕ) (r : RoomRef)
      → IsOnline v p
      → v.room_of p ≡ some r
      → IsSound (
          with_room
            (with_members
              (record v {
                room_of = dismissed v.names v.online (v.names p) v.room_of (v.room_users r);
              })
              r
              [])
            p
            none)
  close_room-IsSound p r on e =
      let f = dismissed v.names v.online (v.names p) v.room_of (v.room_users r) in
      let all_on = All-from (IsOnline v) (v.room_users r) (λ u i. (s.in_rooms r u i).1) in
      record {
        named = s.named;
        in_lobbies = s.in_lobbies;
        in_rooms = λ t q i. elim (room-cases t r) [
          | inl same ↦
              absurd
                (subst (In q) (ap (with_members v r []).room_users same ∙ with_members_at v r []) i)
          | inr other ↦
              let k : In q (v.room_users t) = subst (In q) (with_members_ne v r [] t other) i in
              let apart_from : All (λ u. q ≢ u) (v.room_users r) =
                All-from _ (v.room_users r)
                  (λ u j. elsewhere v s u q r t (s.in_rooms r u j).0 other k) in
              (
                put_at_ne f p none q (elsewhere v s p q r t e other k)
                    ∙ dismissed_ne (v.names p) v.room_of (v.room_users r) q all_on apart_from
                    ∙ (s.in_rooms t q k).0,
                (s.in_rooms t q k).1,
              )
        ];
        apart = λ t. elim (room-cases t r) [
          | inl same ↦
              subst (Distinct v.names)
                (sym (ap (with_members v r []).room_users same ∙ with_members_at v r [])) tt
          | inr other ↦ subst (Distinct v.names) (sym (with_members_ne v r [] t other)) (s.apart t)
        ];
        placed = λ q t x. s.placed q t (
            dismissed-some (v.names p) v.room_of (v.room_users r) q t all_on
              (put_none f p q t x).1);
      }
