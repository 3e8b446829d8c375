-- ===== src/App/Members/Lobbies.antt =====
-- Signing in and out and the moves about lobbies keep the lists sound.
use zdxsv.Prelude.{
  ℕ, String, none, some, ◌≡◌, ◌≢◌, sym, ap, ◌∙◌, inl, inr, str_eq, ne_of_str_eq, find, store, erase,
  find-store_self, find-store_ne, find-erase_self, find-erase_ne, Bool-cases,
}
use mathlib.Core.Path.{subst}
use zdxsv.App.{LobbyRef, RoomRef, put_at}
use zdxsv.App.Members.{View, IsSound, IsOnline, with_lobby, with_lobby_users}
use zdxsv.App.Members.Places.{
  put_at_self, put_at_ne, none≢some, none-apart, str_eq-≡, lobby-cases, with_lobby_users_at,
  with_lobby_users_ne, lobby_ne, All-from, Distinct-same, online-same, room-apart, lobby-apart,
}

module _ (v : View) (s : IsSound v) where
  pub take_name-IsSound :
      (p : ℕ) (id : String)
      → find v.online (v.names p) ≢ some p
      → v.lobby_of p ≡ none
      → v.room_of p ≡ none
      → IsSound (record v { names = put_at v.names p id })
  take_name-IsSound p id off lone out =
      let names = put_at v.names p id in
      let kept : (q : ℕ) → q ≢ p → IsOnline v q → find v.online (names q) ≡ some q =
        λ q ne on. ap (find v.online) (put_at_ne v.names p id q ne) ∙ on in
      record {
        named = λ j q e.
            let other : q ≢ p = λ i. off (
              ap (λ k. find v.online (v.names k)) (sym i)
              ∙ ap (find v.online) (s.named j q e)
              ∙ e
              ∙ ap some i) in
            put_at_ne v.names p id q other ∙ s.named j q e;
        in_lobbies = λ l j q e.
            let other = lobby-apart v s l j p q lone e in
            let old = s.in_lobbies l j q e in
            (put_at_ne v.names p id q other ∙ old.0, old.1, kept q other old.2);
        in_rooms = λ t q i.
            ((s.in_rooms t q i).0, kept q (room-apart v s t p q out i) (s.in_rooms t q i).1);
        apart = λ t.
            Distinct-same v.names names (v.room_users t)
              (All-from _ (v.room_users t)
                (λ u i. put_at_ne v.names p id u (room-apart v s t p u out i)))
              (s.apart t);
        placed = s.placed;
      }

  -- What the entry of a name that is free leaves to the others.
  still_online :
      (p q : ℕ)
      → find v.online (v.names p) ≡ none
      → IsOnline v q
      → find (store (v.names p) p v.online) (v.names q) ≡ some q
  still_online p q free on =
      let other : v.names p ≢ v.names q =
        λ i. none≢some q (find v.online (v.names q)) (ap (find v.online) (sym i) ∙ free) on in
      find-store_ne (v.names p) p (v.names q) v.online other ∙ on

  pub sign_in-IsSound :
      (p : ℕ)
      → find v.online (v.names p) ≡ none
      → IsSound (record v { online = store (v.names p) p v.online })
  sign_in-IsSound p free =
      let id = v.names p in
      record {
        named = λ j q e. elim (Bool-cases (str_eq id j)) [
          | inl same ↦
              let i : id ≡ j = str_eq-≡ id j same in
              let is : some p ≡ some q =
                sym (find-store_self id p v.online) ∙ ap (find (store id p v.online)) i ∙ e in
              let who : p ≡ q = cc is in ap v.names (sym who) ∙ i
          | inr ne ↦ s.named j q (sym (find-store_ne id p j v.online (ne_of_str_eq id j ne)) ∙ e)
        ];
        in_lobbies = λ l j q e.
            let old = s.in_lobbies l j q e in (old.0, old.1, still_online p q free old.2);
        in_rooms = λ t q i. ((s.in_rooms t q i).0, still_online p q free (s.in_rooms t q i).1);
        apart = s.apart;
        placed = s.placed;
      }

  pub stays_online :
      (p q : ℕ)
      → IsOnline v p
      → q ≢ p
      → IsOnline v q
      → find (erase (v.names p) v.online) (v.names q) ≡ some q
  stays_online p q on ne other =
      find-erase_ne (v.names p) (v.names q) v.online (λ e. ne (online-same v q p other on (sym e)))
      ∙ other

  pub sign_out-IsSound :
      (p : ℕ)
      → IsOnline v p
      → v.lobby_of p ≡ none
      → v.room_of p ≡ none
      → IsSound (record v { online = erase (v.names p) v.online })
  sign_out-IsSound p on lone out = record {
    named = λ j q e. elim (Bool-cases (str_eq (v.names p) j)) [
      | inl same ↦ absurd (
          none≢some q (find (erase (v.names p) v.online) j)
            (ap (find (erase (v.names p) v.online)) (sym (str_eq-≡ (v.names p) j same))
              ∙ find-erase_self (v.names p) v.online)
            e)
      | inr ne ↦
          s.named j q
            (sym (find-erase_ne (v.names p) j v.online (ne_of_str_eq (v.names p) j ne)) ∙ e)
    ];
    in_lobbies = λ l j q e.
        let old = s.in_lobbies l j q e in
        (old.0, old.1, stays_online p q on (lobby-apart v s l j p q lone e) old.2);
    in_rooms = λ t q i. (
      (s.in_rooms t q i).0,
      stays_online p q on (room-apart v s t p q out i) (s.in_rooms t q i).1,
    );
    apart = s.apart;
    placed = s.placed;
  }

  pub roomed_apart : (p q : ℕ) (t : RoomRef) → v.lobby_of p ≡ none → v.room_of q ≡ some t → q ≢ p
  roomed_apart p q t lone e = none-apart v.lobby_of p q t.in_lobby lone (s.placed q t e)

  pub enter_lobby-IsSound :
      (p : ℕ) (l : LobbyRef)
      → IsOnline v p
      → v.lobby_of p ≡ none
      → IsSound
          (with_lobby_users (with_lobby v p (some l)) l (store (v.names p) p (v.lobby_users l)))
  enter_lobby-IsSound p l on lone =
      let es = store (v.names p) p (v.lobby_users l) in
      let w = with_lobby v p (some l) in
      let kept : (t : LobbyRef) (j : String) (q : ℕ)
          → find (v.lobby_users t) j ≡ some q
          → (v.names q ≡ j) × (put_at v.lobby_of p (some l) q ≡ some t) × IsOnline v q =
        λ t j q e.
          let old = s.in_lobbies t j q e in
          (
            old.0,
            put_at_ne v.lobby_of p (some l) q (lobby-apart v s t j p q lone e) ∙ old.1,
            old.2,
          ) in
      record {
        named = s.named;
        in_lobbies = λ t j q e. elim (lobby-cases t l) [
          | inl same ↦
              let there : find es j ≡ some q =
                ap (λ x. find x j)
                  (sym (ap (with_lobby_users w l es).lobby_users same ∙ with_lobby_users_at w l es))
                ∙ e in
              elim (Bool-cases (str_eq (v.names p) j)) [
                | inl is ↦
                    let i : v.names p ≡ j = str_eq-≡ (v.names p) j is in
                    let found : some p ≡ some q =
                      sym (find-store_self (v.names p) p (v.lobby_users l))
                      ∙ ap (find es) i
                      ∙ there in
                    let who : p ≡ q = cc found in
                    (
                      ap v.names (sym who) ∙ i,
                      ap (put_at v.lobby_of p (some l)) (sym who)
                          ∙ put_at_self v.lobby_of p (some l)
                          ∙ ap some (sym same),
                      subst (IsOnline v) who on,
                    )
                | inr ne ↦ kept t j q (
                    ap (λ x. find (v.lobby_users x) j) same
                    ∙ sym (
                        find-store_ne (v.names p) p j (v.lobby_users l)
                          (ne_of_str_eq (v.names p) j ne))
                    ∙ there)
              ]
          | inr other ↦
              kept t j q (ap (λ x. find x j) (sym (with_lobby_users_ne w l es t other)) ∙ e)
        ];
        in_rooms = s.in_rooms;
        apart = s.apart;
        placed =
            λ q t e. put_at_ne v.lobby_of p (some l) q (roomed_apart p q t lone e) ∙ s.placed q t e;
      }

  pub exit_lobby-IsSound :
      (p : ℕ) (l : LobbyRef)
      → v.lobby_of p ≡ some l
      → v.room_of p ≡ none
      → IsSound (with_lobby (with_lobby_users v l (erase (v.names p) (v.lobby_users l))) p none)
  exit_lobby-IsSound p l e out =
      let es = erase (v.names p) (v.lobby_users l) in
      record {
        named = s.named;
        in_lobbies = λ t j q x. elim (lobby-cases t l) [
          | inl same ↦
              let there : find es j ≡ some q =
                ap (λ y. find y j)
                  (sym (ap (with_lobby_users v l es).lobby_users same ∙ with_lobby_users_at v l es))
                ∙ x in
              elim (Bool-cases (str_eq (v.names p) j)) [
                | inl is ↦ absurd (
                    none≢some q (find es j)
                      (ap (find es) (sym (str_eq-≡ (v.names p) j is))
                        ∙ find-erase_self (v.names p) (v.lobby_users l))
                      there)
                | inr ne ↦
                    let old = s.in_lobbies t j q (
                      ap (λ y. find (v.lobby_users y) j) same
                      ∙ sym (
                          find-erase_ne (v.names p) j (v.lobby_users l)
                            (ne_of_str_eq (v.names p) j ne))
                      ∙ there) in
                    let other : q ≢ p =
                      λ i. ne_of_str_eq (v.names p) j ne (ap v.names (sym i) ∙ old.0) in
                    (old.0, put_at_ne v.lobby_of p none q other ∙ old.1, old.2)
              ]
          | inr apart_lobby ↦
              let old =
                s.in_lobbies t j q
                  (ap (λ y. find y j) (sym (with_lobby_users_ne v l es t apart_lobby)) ∙ x) in
              let other : q ≢ p = λ i. lobby_ne t l apart_lobby (sym old.1 ∙ ap v.lobby_of i ∙ e) in
              (old.0, put_at_ne v.lobby_of p none q other ∙ old.1, old.2)
        ];
        in_rooms = s.in_rooms;
        apart = s.apart;
        placed = λ q t x.
            put_at_ne v.lobby_of p none q (none-apart v.room_of p q t out x) ∙ s.placed q t x;
      }
