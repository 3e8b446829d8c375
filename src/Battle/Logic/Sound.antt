-- ===== src/Battle/Logic/Sound.antt =====
-- The battles announced stay within the rooms, and those announced together meet in a room.
use zdxsv.Prelude.{
  ℕ, zero, suc, ◌<◌, ◌≡◌, ◌≢◌, refl, sym, ◌∙◌, String, List, [], ◌∷◌, Option, none, some, get_elem?,
  length, str_eq, Bool-cases, Option-cases, arith, inl, inr, insert, replicate, length-replicate,
}
use zdxsv.Battle.Room.{Room}
use zdxsv.Battle.Rpc.{User, BattleInfo, get_battle_info, notify_battle_users, insert_all, max_room}
use zdxsv.Battle.Logic.{Logic, new_logic, find_user}

-- A room knows its index.
abbrev pub HoldsIds : List (Option Room) → Type 0
HoldsIds rooms = (i : ℕ) (r : Room) → get_elem? rooms i ≡ some (some r) → r.id ≡ i

-- Every session announced is that of a user of its battle, whose room is within the slice of rooms.
abbrev pub IsSound : Logic → Type 0
IsSound m =
    (length m.rooms ≡ max_room)
    × (m.rpc.next_room_id < max_room)
    × ((s : String) (info : BattleInfo)
        → m.rpc.session_map s ≡ some info
        → (info.room_id < max_room) × ((u : User) × (find_user s info.users ≡ some u)))
    × HoldsIds m.rooms

insert_all-kept :
    (f : String → Option BattleInfo) (info : BattleInfo) (us : List User) (s : String)
    → f s ≡ some info
    → insert_all f info us s ≡ some info
insert_all-kept f info [] s e = e
insert_all-kept f info (u ∷ us) s e =
    insert_all-kept (insert u.session_id info f) info us s
      (elim (Bool-cases (str_eq s u.session_id)) [ inl t ↦ rw t refl | inr t ↦ rw t e ])

insert_all-find_user :
    (f : String → Option BattleInfo) (info : BattleInfo) (us : List User) (s : String) (u : User)
    → find_user s us ≡ some u
    → insert_all f info us s ≡ some info
insert_all-find_user f info [] s u e = absurd (grind arith)
insert_all-find_user f info (v ∷ us) s u e = elim (Bool-cases (str_eq s v.session_id)) [
  | inl t ↦ insert_all-kept (insert v.session_id info f) info us s (rw t refl)
  | inr t ↦ insert_all-find_user (insert v.session_id info f) info us s u (rw t at e)
]

insert_all-other :
    (f : String → Option BattleInfo) (info : BattleInfo) (us : List User) (s : String)
    → find_user s us ≡ none
    → insert_all f info us s ≡ f s
insert_all-other f info [] s e = refl
insert_all-other f info (v ∷ us) s e = elim (Bool-cases (str_eq s v.session_id)) [
  | inl t ↦ absurd (grind (arith, t, e))
  | inr t ↦ insert_all-other (insert v.session_id info f) info us s (rw t at e) ∙ (rw t refl)
]

pub get_elem?_lt :
    {A : Type 0} (xs : List A) (i : ℕ) → i < length xs → (a : A) × (get_elem? xs i ≡ some a)
get_elem?_lt [] i h = absurd (omega arith)
get_elem?_lt (x ∷ xs) zero h = (x, refl)
get_elem?_lt (x ∷ xs) (suc i) h = get_elem?_lt xs i (omega arith)

get_elem?-replicate :
    (n i : ℕ) (r : Room) → get_elem? (replicate {A = Option Room} n none) i ≢ some (some r)
get_elem?-replicate zero i r e = grind (arith, e)
get_elem?-replicate (suc n) zero r e = grind (arith, e)
get_elem?-replicate (suc n) (suc i) r e = get_elem?-replicate n i r e

-- The server's first state is sound.
pub new_logic-IsSound : IsSound new_logic
new_logic-IsSound = (
  length-replicate {A = Option Room} max_room none,
  omega arith,
  λ s info e. absurd (grind (arith, e)),
  λ i r e. absurd (get_elem?-replicate max_room i r e),
)

abbrev pub announce : Logic → List User → Logic
announce m us = record m { rpc = notify_battle_users m.rpc us }

-- Announcing users keeps the server sound; each of their sessions then leads to the new battle with
-- the next room's number, and all other sessions are as before.
pub notify_battle_users-IsSound :
    (m : Logic) (us : List User)
    → IsSound m
    → IsSound (announce m us)
      × ((s : String) (u : User)
          → find_user s us ≡ some u
          → get_battle_info (notify_battle_users m.rpc us) s
            ≡ some (record { users = us; room_id = m.rpc.next_room_id }))
      × ((s : String)
          → find_user s us ≡ none
          → get_battle_info (notify_battle_users m.rpc us) s ≡ get_battle_info m.rpc s)
unfolding notify_battle_users get_battle_info
notify_battle_users-IsSound m us (len, next, all, ids) =
    let new : BattleInfo = record { users = us; room_id = m.rpc.next_room_id } in
    (
      (
        len,
        omega arith,
        λ s info e. elim (Option-cases (find_user s us)) [
          | inl n ↦ all s info (sym (insert_all-other m.rpc.session_map new us s n) ∙ e)
          | inr (u, f) ↦
              let hit = insert_all-find_user m.rpc.session_map new us s u f in
              let same : new ≡ info = cc (hit, e) in rw (← same) (next, (u, f))
        ],
        ids,
      ),
      λ s u f. insert_all-find_user m.rpc.session_map new us s u f,
      λ s f. insert_all-other m.rpc.session_map new us s f,
    )
