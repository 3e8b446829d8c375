-- ===== src/Relay.antt =====
-- pkg/lobby/relay.go: the relay that forwards GGPO packets between the players of a battle. Sessions are
-- behind pointers into a heap. A time is a number of nanoseconds and an argument, as is a random token.
pub mod Members
pub mod Sound
pub mod Binding
pub mod Handling
mod Tests
use zdxsv.Prelude.{
  ℕ, zero, suc, ◌+◌, ◌-◌, ◌*◌, List, [], ◌∷◌, ◌++◌, Option, none, some, Bool, true, false, ◌&&◌,
  ◌||◌, not, if◌then◌else◌, ltb, leb, ◌==◌, length, get_or, set,
}
use zdxsv.Prelude.Bytes.{from16, from32}

-- `netip.AddrPort`; its zero value, which is not valid, is `none`.
pub record Addr : Type 0 where
  pub is4 : Bool
  pub ip : ℕ
  pub port : ℕ

abbrev same_family : Bool → Bool → Bool
same_family true f = f
same_family false f = not f

abbrev pub addr_eq : Addr → Addr → Bool
addr_eq a b = same_family a.is4 b.is4 && a.ip == b.ip && a.port == b.port

abbrev pub is_addr : Addr → Option Addr → Bool
is_addr a none = false
is_addr a (some b) = addr_eq a b

abbrev pub relay_max_peers : ℕ
relay_max_peers = 4

-- `addrs` by family: IPv4 at true.
pub record RelayPeer : Type 0 where
  pub addrs : Bool → Option Addr
  pub active : Option Addr
  pub playing : Bool

pub record RelaySession : Type 0 where
  pub id : ℕ
  pub token : ℕ
  pub peers : ℕ → RelayPeer
  pub created : ℕ
  pub last_active : ℕ
  pub forwarded : ℕ

-- `store` is the heap of sessions, `next` the first free pointer; a binding is a pointer and a peer.
pub record Relay : Type 0 where
  pub store : ℕ → RelaySession
  pub next : ℕ
  pub sessions : ℕ → Option ℕ
  pub bindings : Addr → Option (ℕ × ℕ)

abbrev pub no_peer : RelayPeer
no_peer = record { addrs = λ f. none; active = none; playing = false }

abbrev pub new_session : ℕ → ℕ → ℕ → RelaySession
new_session id token now = record {
  id = id;
  token = token;
  peers = λ k. no_peer;
  created = now;
  last_active = now;
  forwarded = 0;
}

abbrev pub new_relay : Relay
new_relay = record {
  store = λ s. new_session 0 0 0;
  next = 0;
  sessions = λ id. none;
  bindings = λ a. none;
}

abbrev pub put {ℓ} : {A : Type ℓ} → (ℕ → A) → ℕ → A → ℕ → A
put f k v j = if j == k then v else f j

abbrev pub bind : (Addr → Option (ℕ × ℕ)) → Addr → Option (ℕ × ℕ) → Addr → Option (ℕ × ℕ)
bind f a v b = if addr_eq b a then v else f b

abbrev pub set_addr : (Bool → Option Addr) → Bool → Option Addr → Bool → Option Addr
set_addr f family v g = if same_family family g then v else f g

abbrev pub unbind : RelayPeer → Addr → RelayPeer
unbind p a =
    if is_addr a p.active
    then record { addrs = set_addr p.addrs a.is4 none; active = none; playing = false }
    else record p { addrs = set_addr p.addrs a.is4 none }

-- A peer of a session changed.
abbrev pub with_peer : Relay → ℕ → ℕ → RelayPeer → Relay
with_peer r s k p = record r {
  store = put r.store s (record (r.store s) { peers = put (r.store s).peers k p });
}

abbrev register : Relay → ℕ → ℕ → ℕ → ℕ × Relay
register r id token now = (
  token,
  record {
    store = put r.store r.next (new_session id token now);
    next = r.next + 1;
    sessions = put r.sessions id (some r.next);
    bindings = r.bindings;
  },
)

pub session_token : Relay → ℕ → ℕ → ℕ → ℕ × Relay
session_token r id token now = elim (r.sessions id) [
  | some s ↦ ((r.store s).token, r)
  | none ↦ register r id token now
]

abbrev pub le64 : List ℕ → ℕ → ℕ
le64 p i =
    from32 (get_or p (i + 3) 0) (get_or p (i + 2) 0) (get_or p (i + 1) 0) (get_or p i 0)
    + 4294967296
      * from32 (get_or p (i + 7) 0) (get_or p (i + 6) 0) (get_or p (i + 5) 0) (get_or p (i + 4) 0)

abbrev pub le32_at : List ℕ → ℕ → ℕ
le32_at p i = from32 (get_or p (i + 3) 0) (get_or p (i + 2) 0) (get_or p (i + 1) 0) (get_or p i 0)

abbrev pub le16_at : List ℕ → ℕ → ℕ
le16_at p i = from16 (get_or p (i + 1) 0) (get_or p i 0)

-- The old address of the slot gives up its binding.
abbrev drop_old : Relay → ℕ → ℕ → Option Addr → Relay
drop_old r s k none = r
drop_old r s k (some old) =
    with_peer (record r { bindings = bind r.bindings old none }) s k
      (unbind ((r.store s).peers k) old)

-- The sender gives up its old slot.
abbrev leave_slot : Relay → Addr → Option (ℕ × ℕ) → Relay
leave_slot r from none = r
leave_slot r from (some (s, k)) = with_peer r s k (unbind ((r.store s).peers k) from)

abbrev take_slot : Relay → ℕ → ℕ → Addr → Relay
take_slot r s k from =
    let p = (r.store s).peers k in
    with_peer (record r { bindings = bind r.bindings from (some (s, k)) }) s k
      (record p { addrs = set_addr p.addrs from.is4 (some from) })

pub bind_peer : Relay → ℕ → ℕ → Addr → Relay
bind_peer r s k from =
    let old = ((r.store s).peers k).addrs from.is4 in
    if is_addr from old
    then r
    else (let q = drop_old r s k old in take_slot (leave_slot q from (q.bindings from)) s k from)

abbrev move_peer : Relay → ℕ → ℕ → Addr → Relay
move_peer r s k from =
    let p = (r.store s).peers k in
    if p.playing then r else with_peer r s k (record p { active = some from })

abbrev touch : Relay → ℕ → ℕ → Relay
touch r s now = record r { store = put r.store s (record (r.store s) { last_active = now }) }

-- Where the packet goes, or nowhere, with the packet as sent and the relay.
abbrev pub Handled : Type 0
Handled = Option (Addr × List ℕ) × Relay

abbrev ping_session : Relay → List ℕ → Addr → ℕ → ℕ → ℕ → Option ℕ → Handled
ping_session r p from now peer token none = (none, r)
ping_session r p from now peer token (some s) =
    if (r.store s).token == token
    then (some (from, set p 4 2), touch (move_peer (bind_peer r s peer from) s peer from) s now)
    else (none, r)

pub handle_ping : Relay → List ℕ → Addr → ℕ → Handled
handle_ping r p from now =
    if not (get_or p 4 0 == 1) || leb relay_max_peers (get_or p 5 0)
    then (none, r)
    else ping_session r p from now (get_or p 5 0) (le64 p 12) (r.sessions (le32_at p 8))

-- The original type goes back to its place, and the relay's header is cleared.
abbrev pub restore : List ℕ → List ℕ
restore p = set (set (set (set (set p 7 (get_or p 11 0)) 8 0) 9 0) 10 0) 11 0

abbrev forward_to : Relay → List ℕ → ℕ → ℕ → Option Addr → Handled
forward_to r p now s none = (none, r)
forward_to r p now s (some dst) = (
  some (dst, restore p),
  record r {
    store =
        put r.store s
          (record (r.store s) { last_active = now; forwarded = (r.store s).forwarded + 1 });
  },
)

abbrev from_slot : Relay → List ℕ → Addr → ℕ → ℕ → Option (ℕ × ℕ) → Handled
from_slot r p from now to none = (none, r)
from_slot r p from now to (some (s, k)) =
    if to == k
    then (none, r)
    else (let q =
          with_peer r s k (record ((r.store s).peers k) { active = some from; playing = true }) in
        forward_to q p now s ((q.store s).peers to).active)

unfoldable pub handle_ggpo : Relay → List ℕ → Addr → ℕ → Handled
handle_ggpo r p from now =
    if leb relay_max_peers (get_or p 10 0) || ltb (get_or p 11 0) 1 || ltb 8 (get_or p 11 0)
    then (none, r)
    else from_slot r p from now (get_or p 10 0) (r.bindings from)

pub handle : Relay → List ℕ → Addr → ℕ → Handled
handle r p from now =
    if length p == 28 && le32_at p 0 == 0x594c4552
    then handle_ping r p from now
    else if leb 12 (length p) && le16_at p 0 == 34046 && get_or p 7 0 == 99 && le16_at p 8 == 26315
    then handle_ggpo r p from now
    else (none, r)
