-- ===== src/Model/Room/Start.antt =====
-- Who fights when a room starts its battle.
use mathlib.Core.List.{Perm, perm_middle}
use mathlib.Core.List.Perm
use native.Mathlib.Decide.{ℕ_discrete}
use zdxsv.Prelude.{
  ℕ, ◌+◌, ◌-◌, ◌%◌, ◌≤◌, ◌<◌, ◌≡◌, inl, inr, true, List, [], ◌∷◌, ◌++◌, ◌==◌, if◌then◌else◌, length,
  arith, Bool-cases, min, ◌↔◌,
}
use zdxsv.Model.User.{Heap, entry_aeug, entry_titans}
use zdxsv.Model.Room.{
  Room, u16, count_entries, get_entry_user_count, can_battle_start, start_user, start_users,
  start_battle_users,
}

-- How many users stand on a side.
abbrev pub on_side : Heap → ℕ → List ℕ → ℕ
on_side h side [] = 0
on_side h side (u ∷ us) = (if (h u).entry == side then 1 else 0) + on_side h side us

on_side-le : (h : Heap) (side : ℕ) (us : List ℕ) → on_side h side us ≤ length us
on_side-le h side [] = omega arith
on_side-le h side (u ∷ us) = ground (arith, on_side-le h side us)

count_entries_lem :
    (h : Heap) (us : List ℕ) (a b : ℕ)
    → a + length us < u16
    → b + length us < u16
    → count_entries h us a b ≡ (a + on_side h entry_aeug us, b + on_side h entry_titans us)
unfolding count_entries
count_entries_lem h [] a b p q = ground arith
count_entries_lem h (u ∷ us) a b p q = ground (
  arith,
  count_entries_lem h us (if (h u).entry == entry_aeug then (a + 1) % u16 else a)
      (if (h u).entry == entry_titans then (b + 1) % u16 else b),
)

start_users_sides :
    (h : Heap) (us : List ℕ) (a b : ℕ)
    → a + length us < u16
    → b + length us < u16
    → (on_side h entry_aeug (start_users h us a b).0 ≡ min (2 - a) (on_side h entry_aeug us))
      × (on_side h entry_titans (start_users h us a b).0 ≡ min (2 - b) (on_side h entry_titans us))
      × (length (start_users h us a b).0
          ≡ min (2 - a) (on_side h entry_aeug us) + min (2 - b) (on_side h entry_titans us))
unfolding start_users start_user
start_users_sides h [] a b p q = omega arith
start_users_sides h (u ∷ us) a b p q = elim (ℕ_discrete (h u).entry entry_aeug) [
  | yes aeug ↦ ground (arith, start_users_sides h us ((a + 1) % u16) b)
  | no other ↦ elim (ℕ_discrete (h u).entry entry_titans) [
    | yes titans ↦ ground (arith, start_users_sides h us a ((b + 1) % u16))
    | no none ↦ ground (arith, start_users_sides h us a b)
  ]
]

start_users-Perm :
    (h : Heap) (us : List ℕ) (a b : ℕ)
    → Perm ((start_users h us a b).0 ++ (start_users h us a b).1) us
unfolding start_users
start_users-Perm h [] a b = Perm.refl []
start_users-Perm h (u ∷ us) a b =
    let (now, a', b') = start_user h u a b in
    let rest = start_users-Perm h us a' b' in
    elim (Bool-cases now) [
      | inl yes_now ↦ rw yes_now (Perm.cons u rest)
      | inr later ↦ rw later (Perm.trans (perm_middle _ _) (Perm.cons u rest))
    ]

-- Starting a battle parts the members, of whom there are fewer than 65536, into the fighters, at most two of each side and as many as
-- there are, and the others; each stands in one of the two as often as the room lists it in all.
pub start_battle_users_lem :
    (h : Heap) (r : Room)
    → length r.users < u16
    → Perm ((start_battle_users h r).0 ++ (start_battle_users h r).1) r.users
      × (on_side h entry_aeug (start_battle_users h r).0 ≡ min 2 (on_side h entry_aeug r.users))
      × (on_side h entry_titans (start_battle_users h r).0 ≡ min 2 (on_side h entry_titans r.users))
      × (length (start_battle_users h r).0
          ≡ min 2 (on_side h entry_aeug r.users) + min 2 (on_side h entry_titans r.users))
unfolding start_battle_users
start_battle_users_lem h r fits =
    let (aeug, titans, size) = start_users_sides h r.users 0 0 (omega arith) (omega arith) in
    (start_users-Perm h r.users 0 0, aeug, titans, size)

-- A battle can start exactly when each side has one or two of the members.
pub can_battle_start_iff :
    (h : Heap) (r : Room)
    → length r.users < u16
    → (can_battle_start h r ≡ true) ↔ (
        (1 ≤ on_side h entry_aeug r.users)
        × (on_side h entry_aeug r.users ≤ 2)
        × (1 ≤ on_side h entry_titans r.users)
        × (on_side h entry_titans r.users ≤ 2))
unfolding can_battle_start get_entry_user_count
can_battle_start_iff h r fits =
    rw (count_entries_lem h r.users 0 0 (omega arith) (omega arith))
      (λ e. ground arith, λ s. ground arith)
