-- ===== src/Battle/Logic/Joining.antt =====
-- A console whose session has been announced joins the room of its battle.
use zdxsv.Prelude.{
  ℕ, ◌+◌, ◌%◌, ◌<◌, ◌≡◌, ◌≢◌, refl, sym, ap, ◌∙◌, String, List, [], ◌∷◌, ◌++◌, append_assoc, Option,
  none, some, get_elem?, set, length, str_eq, str_eq_self, str_eq_ne, Bool-cases, length-set, arith,
  inl, inr, get_elem?-set_self, get_elem?-set_ne,
}
use native.Mathlib.Decide.{ℕ_discrete}
use zdxsv.Prelude.{==_refl, ==_ne}
use zdxsv.Battle.Room.{Heap, Room, update, new_room, join as join_room}
use zdxsv.Battle.Rpc.{
  User, BattleInfo, BattleRpc, get_battle_info, clear_battle_info, notify_battle_users, max_room,
}
use zdxsv.Battle.Logic.{Logic, find_user, find_waiting_user, refused, entered, join, or_new}
use zdxsv.Battle.Logic.Sound.{
  IsSound, HoldsIds, announce, get_elem?_lt, notify_battle_users-IsSound,
}

-- The peers of the room with a number, none where there is no such room yet.
abbrev peers_of : Option (Option Room) → List (Option ℕ)
peers_of none = []
peers_of (some none) = []
peers_of (some (some r)) = r.peers

abbrev pub peers_at : Logic → ℕ → List (Option ℕ)
peers_at m id = peers_of (get_elem? m.rooms id)

-- What a join of a peer by its session leads to: the peer's user, session and room, the session used up
-- and the others kept, the peer behind those that were in the room, and the other rooms and peers as
-- they were.
abbrev pub HasJoined : Heap → Logic → ℕ → String → ℕ → String → Heap → Logic → Type 0
HasJoined h m p s id user_id h' m' =
    ((h' p).user_id ≡ user_id)
    × ((h' p).session_id ≡ s)
    × ((h' p).room_id ≡ id)
    × (get_battle_info m'.rpc s ≡ none)
    × ((t : String) → t ≢ s → get_battle_info m'.rpc t ≡ get_battle_info m.rpc t)
    × (peers_at m' id ≡ peers_at m id ++ some p ∷ [])
    × ((h' p).position ≡ length (peers_at m id))
    × ((j : ℕ) → j ≢ id → get_elem? m'.rooms j ≡ get_elem? m.rooms j)
    × ((q : ℕ) → q ≢ p → h' q ≡ h q)
    × IsSound m'

remove_other :
    (m : Logic) (s t : String)
    → t ≢ s
    → get_battle_info (clear_battle_info m.rpc s) t ≡ get_battle_info m.rpc t
unfolding get_battle_info clear_battle_info
remove_other m s t n = rw (str_eq_ne t s n) refl

clear_battle_info-IsSound :
    (m : Logic) (s : String) (rooms : List (Option Room))
    → IsSound m
    → length rooms ≡ max_room
    → HoldsIds rooms
    → IsSound (record m { rpc = clear_battle_info m.rpc s; rooms = rooms })
unfolding clear_battle_info
clear_battle_info-IsSound m s rooms (len, next, all, _) l ids = (
  l,
  next,
  λ t info e. elim (Bool-cases (str_eq t s)) [
    | inl b ↦ absurd (grind (arith, rw b at e))
    | inr b ↦ all t info (rw b at e)
  ],
  ids,
)

or_new-id :
    (rooms : List (Option Room)) (id : ℕ) (r : Option Room)
    → HoldsIds rooms
    → get_elem? rooms id ≡ some r
    → (or_new id r).id ≡ id
unfolding new_room
or_new-id rooms id none ids e = refl
or_new-id rooms id (some r) ids e = ids id r e

or_new-peers : (id : ℕ) (r : Option Room) → (or_new id r).peers ≡ peers_of (some r)
unfolding new_room
or_new-peers id none = refl
or_new-peers id (some r) = refl

set-HoldsIds :
    (rooms : List (Option Room)) (id : ℕ) (r : Room)
    → HoldsIds rooms
    → id < length rooms
    → r.id ≡ id
    → HoldsIds (set rooms id (some r))
set-HoldsIds rooms id r ids h e i q f = elim (ℕ_discrete id i) [
  | yes a ↦
      let here : get_elem? (set rooms id (some r)) i ≡ some (some r) =
        rw (← a) (get_elem?-set_self rooms id (some r) h) in
      let same : r ≡ q = cc (here, f) in sym (ap (λ x. x.id) same) ∙ e ∙ a
  | no n ↦ ids i q (sym (get_elem?-set_ne rooms (some r) n) ∙ f)
]

-- On a sound server a peer with an announced session joins its battle's room, as the user it was
-- announced for, behind the peers that are in the room; the session is then used up, the other sessions,
-- rooms and peers are kept and the server is still sound.
pub join_lem :
    (h : Heap) (m : Logic) (p : ℕ) (s : String) (info : BattleInfo) (u : User)
    → IsSound m
    → get_battle_info m.rpc s ≡ some info
    → find_user s info.users ≡ some u
    → (h' : Heap) × (m' : Logic) × (join h m p s ≡ entered h' m' info.room_id)
      × HasJoined h m p s info.room_id u.user_id h' m'
unfolding join find_waiting_user join_room get_battle_info clear_battle_info
join_lem h m p s info u sound e f =
    let id : ℕ = info.room_id in
    let inside : id < length m.rooms = let low = (sound.2 s info e).0 in omega (arith, sound.0) in
    let (r, g) = get_elem?_lt m.rooms id inside in
    let h1 : Heap = update h p (record (h p) { user_id = u.user_id; session_id = s }) in
    let joined : Heap × Room = join_room h1 (or_new id r) p in
    let rooms : List (Option Room) = set m.rooms id (some joined.1) in
    let same : (or_new id r).id ≡ id = or_new-id m.rooms id r sound.3 g in
    (
      joined.0,
      record m { rpc = clear_battle_info m.rpc s; rooms = rooms },
      rw (e, f, e, g) refl,
      (
        rw (==_refl p) refl,
        rw (==_refl p) refl,
        rw (==_refl p) same,
        rw (str_eq_self s) refl,
        λ t n. remove_other m s t n,
        ap peers_of (get_elem?-set_self m.rooms id (some joined.1) inside)
            ∙ ap (λ l. l ++ some p ∷ []) (or_new-peers id r ∙ ap peers_of (sym g)),
        rw (==_refl p) (ap length (or_new-peers id r ∙ ap peers_of (sym g))),
        λ j n. get_elem?-set_ne m.rooms (some joined.1) (λ e. n (sym e)),
        λ q n. rw (==_ne q p n) refl,
        clear_battle_info-IsSound m s rooms sound (length-set m.rooms id (some joined.1) ∙ sound.0)
            (set-HoldsIds m.rooms id joined.1 sound.3 inside same),
      ),
    )

-- A session that has not been announced, or has been used up, is refused.
pub join_refused :
    (h : Heap) (m : Logic) (p : ℕ) (s : String)
    → get_battle_info m.rpc s ≡ none
    → join h m p s ≡ refused
unfolding join find_waiting_user
join_refused h m p s e = rw e refl

-- Two sessions of users announced together: joining one after the other, their peers come to the same
-- room, the one with the next number at the announcement, and stand there in this order behind the peers
-- that were in it.
pub join_together :
    (h : Heap) (m : Logic) (us : List User) (p q : ℕ) (s t : String) (u v : User)
    → IsSound m
    → s ≢ t
    → find_user s us ≡ some u
    → find_user t us ≡ some v
    → (h' : Heap) × (m' : Logic) × (h'' : Heap) × (m'' : Logic) × (join h (announce m us) p s
        ≡ entered h' m' m.rpc.next_room_id)
      × (join h' m' q t ≡ entered h'' m'' m.rpc.next_room_id)
      × (peers_at m'' m.rpc.next_room_id ≡ peers_at m m.rpc.next_room_id ++ some p ∷ some q ∷ [])
join_together h m us p q s t u v sound n f g =
    let new : BattleInfo = record { users = us; room_id = m.rpc.next_room_id } in
    let (sound', hits, _) = notify_battle_users-IsSound m us sound in
    let id = m.rpc.next_room_id in
    let (h', m', e, (_, _, _, _, kept, grown, _, _, _, sound'')) =
      join_lem h (announce m us) p s new u sound' (hits s u f) f in
    let (h'', m'', d, (_, _, _, _, _, grown', _, _, _, _)) =
      join_lem h' m' q t new v sound'' (kept t (λ e. n (sym e)) ∙ hits t v g) g in
    (
      h',
      m',
      h'',
      m'',
      e,
      d,
      grown'
          ∙ ap (λ l. l ++ some q ∷ []) grown
          ∙ append_assoc (peers_at m id) (some p ∷ []) (some q ∷ []),
    )

abbrev pub announce_all : BattleRpc → List (List User) → BattleRpc
announce_all m [] = m
announce_all m (us ∷ uss) = announce_all (notify_battle_users m us) uss

announce_all-next :
    (uss : List (List User)) (m : BattleRpc)
    → m.next_room_id < max_room
    → (announce_all m uss).next_room_id ≡ (m.next_room_id + length uss) % max_room
unfolding notify_battle_users
announce_all-next [] m h = omega arith
announce_all-next (us ∷ uss) m h =
    announce_all-next uss (notify_battle_users m us) (omega arith) ∙ omega arith

-- The rooms of two battles are different where the second is announced fewer than 128 battles later.
announce_all-apart :
    (uss : List (List User)) (m : BattleRpc)
    → m.next_room_id < max_room
    → 0 < length uss
    → length uss < max_room
    → (announce_all m uss).next_room_id ≢ m.next_room_id
announce_all-apart uss m h low high e = let next = announce_all-next uss m h in omega arith
