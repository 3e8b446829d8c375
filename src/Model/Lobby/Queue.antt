-- ===== src/Model/Lobby/Queue.antt =====
-- Who is picked for a lobby's battle.
use native.Mathlib.Decide.{ℕ_discrete}
use zdxsv.Prelude.{
  ℕ, ◌+◌, ◌-◌, ◌%◌, ◌<◌, ◌≡◌, ◌≢◌, inl, inr, String, str_eq, eq_iff, true, false, List, [], ◌∷◌,
  Option, none, some, length, arith, Bool-cases, Option-cases, min, All,
}
use zdxsv.Prelude.{find}
use zdxsv.Model.User.{Heap, entry_aeug, entry_titans}
use zdxsv.Model.Room.{u16}
use zdxsv.Model.Room.Start.{on_side}
use zdxsv.Model.Lobby.{Lobby, start_group, can_battle_start, pick_users, start_battle_users}
use zdxsv.Model.Lobby.Group.{entries_on, can_battle_start-IsReady}
use zdxsv.Model.Lobby.Wanted.{Enough}

-- What the picks from the queue `ids` hold, with `a` and `b` entries counted before.
pub record Picks (h : Heap) (users : String → Option ℕ) (sync : String) (ids : List String)
    (a b : ℕ) : Type 0 where
  pub aeug :
      on_side h entry_aeug (pick_users h users sync ids a b)
      ≡ min (2 - a) (entries_on h users sync entry_aeug ids)
  pub titans :
      on_side h entry_titans (pick_users h users sync ids a b)
      ≡ min (2 - b) (entries_on h users sync entry_titans ids)
  pub size :
      length (pick_users h users sync ids a b)
      ≡ min (2 - a) (entries_on h users sync entry_aeug ids)
        + min (2 - b) (entries_on h users sync entry_titans ids)

module _ (h : Heap) (users : String → Option ℕ) (sync : String) where
  module _ (id : String) (ids : List String) (a b : ℕ) where
    Picks-missing : users id ≡ none → Picks h users sync ids a b → Picks h users sync (id ∷ ids) a b
    unfolding pick_users entries_on
    Picks-missing missing r = record {
      aeug = ground (arith, missing, r.aeug);
      titans = ground (arith, missing, r.titans);
      size = ground (arith, missing, r.size);
    }

    Picks-other :
        (u : ℕ)
        → users id ≡ some u
        → str_eq (h u).sync sync ≡ false
        → Picks h users sync ids a b
        → Picks h users sync (id ∷ ids) a b
    unfolding pick_users entries_on
    Picks-other u present other r = record {
      aeug = ground (arith, present, other, r.aeug);
      titans = ground (arith, present, other, r.titans);
      size = ground (arith, present, other, r.size);
    }

    module _ (u : ℕ) (present : users id ≡ some u) (same : str_eq (h u).sync sync ≡ true) where
      Picks-aeug :
          (h u).entry ≡ entry_aeug
          → a + 1 < u16
          → Picks h users sync ids ((a + 1) % u16) b
          → Picks h users sync (id ∷ ids) a b
      unfolding pick_users entries_on
      Picks-aeug e fits r = record {
        aeug = ground (arith, present, same, e, r.aeug);
        titans = ground (arith, present, same, e, r.titans);
        size = ground (arith, present, same, e, r.size);
      }

      Picks-titans :
          (h u).entry ≡ entry_titans
          → b + 1 < u16
          → Picks h users sync ids a ((b + 1) % u16)
          → Picks h users sync (id ∷ ids) a b
      unfolding pick_users entries_on
      Picks-titans e fits r = record {
        aeug = ground (arith, present, same, e, r.aeug);
        titans = ground (arith, present, same, e, r.titans);
        size = ground (arith, present, same, e, r.size);
      }

      Picks-neither :
          (h u).entry ≢ entry_aeug
          → (h u).entry ≢ entry_titans
          → Picks h users sync ids a b
          → Picks h users sync (id ∷ ids) a b
      unfolding pick_users entries_on
      Picks-neither e f r = record {
        aeug = ground (arith, present, same, e, r.aeug);
        titans = ground (arith, present, same, e, r.titans);
        size = ground (arith, present, same, e, r.size);
      }

  pick_users-Picks :
      (ids : List String) (a b : ℕ)
      → a + length ids < u16
      → b + length ids < u16
      → Picks h users sync ids a b
  pick_users-Picks [] a b p q =
      unfold pick_users entries_on in
      record { aeug = omega arith; titans = omega arith; size = omega arith }
  pick_users-Picks (id ∷ ids) a b p q =
      let r = pick_users-Picks ids a b (omega arith) (omega arith) in
      elim (Option-cases (users id)) [
        | inl missing ↦ Picks-missing id ids a b missing r
        | inr (u, present) ↦ elim (Bool-cases (str_eq (h u).sync sync)) [
          | inr other ↦ Picks-other id ids a b u present other r
          | inl same ↦ elim (ℕ_discrete (h u).entry entry_aeug) [
            | yes e ↦
                Picks-aeug id ids a b u present same e (omega arith)
                  (pick_users-Picks ids ((a + 1) % u16) b (omega arith) (omega arith))
            | no e ↦ elim (ℕ_discrete (h u).entry entry_titans) [
              | yes f ↦
                  Picks-titans id ids a b u present same f (omega arith)
                    (pick_users-Picks ids a ((b + 1) % u16) (omega arith) (omega arith))
              | no f ↦ Picks-neither id ids a b u present same e f r
            ]
          ]
        ]
      ]

  pick_users-group :
      (ids : List String) (a b : ℕ) → All (λ u. (h u).sync ≡ sync) (pick_users h users sync ids a b)
  unfolding pick_users
  pick_users-group [] a b = tt
  pick_users-group (id ∷ ids) a b = elim (Option-cases (users id)) [
    | inl missing ↦ rw (missing, pick_users) (pick_users-group ids a b)
    | inr (u, present) ↦ ground (
      arith,
      present,
      eq_iff (h u).sync sync,
      pick_users-group ids a b,
      pick_users-group ids ((a + 1) % u16) b,
      pick_users-group ids a ((b + 1) % u16),
    )
  ]

Enough-min : (i a b : ℕ) → Enough i a b → Enough i (min 2 a) (min 2 b)
Enough-min i a b (two, three, rest) = (
  λ e. let (l, r) = two e in (omega arith, omega arith),
  λ e. elim (three e) [ inl l ↦ inl (omega arith) | inr l ↦ inr (omega arith) ],
  λ n m. let (l, r) = rest n m in (omega arith, omega arith),
)

-- When a lobby with fewer than 65536 entries starts a battle, the picks share one fingerprint, they are two
-- of each side, or as many as the queue has entries for it there, and they alone are enough for the lobby:
-- one of each side in lobby 2, one in lobby 3, two of each in the others. A user who chose a side twice has
-- two entries, and may be picked twice.
pub start_battle_users_sides :
    (h : Heap) (l : Lobby)
    → length l.entry_users < u16
    → can_battle_start h l ≡ true
    → All (λ u. (h u).sync ≡ (start_group h l).0) (start_battle_users h l)
      × (length (start_battle_users h l)
          ≡ on_side h entry_aeug (start_battle_users h l)
            + on_side h entry_titans (start_battle_users h l))
      × (on_side h entry_aeug (start_battle_users h l)
          ≡ min 2 (entries_on h (find l.users) (start_group h l).0 entry_aeug l.entry_users))
      × (on_side h entry_titans (start_battle_users h l)
          ≡ min 2 (entries_on h (find l.users) (start_group h l).0 entry_titans l.entry_users))
      × Enough l.id
          (on_side h entry_aeug (start_battle_users h l))
          (on_side h entry_titans (start_battle_users h l))
unfolding start_battle_users
start_battle_users_sides h l fits starts =
    let sync = (start_group h l).0 in
    let p = pick_users-Picks h (find l.users) sync l.entry_users 0 0 (omega arith) (omega arith) in
    let ready = (can_battle_start-IsReady h l).1 starts in
    (
      pick_users-group h (find l.users) sync l.entry_users 0 0,
      omega (arith, p.aeug, p.titans, p.size),
      p.aeug,
      p.titans,
      rw (p.aeug, p.titans) (Enough-min l.id _ _ ready),
    )
