-- ===== src/Battle/Room.antt =====
-- pkg/battle/room.go, and BasePeer of pkg/battle/logic.go.
pub mod Members
pub mod History
mod Tests
use zdxsv.Prelude.{
  ℕ, zero, suc, ◌+◌, String, List, [], ◌∷◌, ◌++◌, Option, none, some, Bool, true, false,
  if◌then◌else◌, length, set, ◌==◌,
}

pub record Peer : Type 0 where
  pub session_id : String
  pub user_id : String
  pub position : ℕ
  pub room_id : ℕ

-- Peers are behind pointers: the heap of peers, and one peer changed.
abbrev pub Heap : Type 0
Heap = ℕ → Peer

abbrev pub update : Heap → ℕ → Peer → Heap
update h p v q = if q == p then v else h q

-- `peers` holds the pointers, with a nil where a peer has left.
pub record Room : Type 0 where
  pub id : ℕ
  pub peers : List (Option ℕ)

unfoldable pub new_room : ℕ → Room
new_room id = record { id = id; peers = [] }

pub clear : Room → Room
clear r = record r { peers = [] }

-- `SetRoomID` and `SetPosition` write to the peer.
unfoldable pub join : Heap → Room → ℕ → Heap × Room
join h r p = (
  update h p (record (h p) { room_id = r.id; position = length r.peers }),
  record r { peers = r.peers ++ some p ∷ [] },
)

abbrev pub is_empty : List (Option ℕ) → Bool
is_empty [] = true
is_empty (none ∷ ps) = is_empty ps
is_empty (some p ∷ ps) = false

-- `Leave` up to its `Unlock`: whether the room is empty, after which it goes on with `Clear`, with the lock
-- taken again. A place beyond the peers is left alone, as `set` does.
pub leave : Heap → Room → ℕ → Bool × Room
leave h r p =
    let peers = set r.peers (h p).position none in (is_empty peers, record r { peers = peers })

abbrev receive : Option ℕ → List ℕ → List ℕ
receive none rest = rest
receive (some q) rest = q ∷ rest

-- The peers that get the message, in order: all but nil and the one at place `k`; `i` is the place of
-- the first one.
abbrev pub others : ℕ → ℕ → List (Option ℕ) → List ℕ
others k i [] = []
others k i (peer ∷ ps) =
    let rest = others k (suc i) ps in if i == k then rest else receive peer rest

pub send_message : Heap → Room → ℕ → List ℕ
send_message h r p = others (h p).position 0 r.peers
