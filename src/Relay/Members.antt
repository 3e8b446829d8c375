-- ===== src/Relay/Members.antt =====
-- Only bound members of the same session reach each other.
use zdxsv.Prelude.{
  ℕ, ◌≡◌, ◌≢◌, refl, sym, ap, ◌∙◌, List, Option, none, some, true, ◌||◌, ltb, leb, ◌==◌, get_or,
  arith, Bool-cases, inl, inr, ==_ne, ==_refl, ==_iff,
}
use zdxsv.Relay.Sound.{Agree}
use zdxsv.Relay.{
  Addr, RelayPeer, Relay, put, with_peer, restore, handle_ggpo, relay_max_peers, from_slot,
  forward_to,
}

abbrev pub peer_of : Relay → ℕ → ℕ → RelayPeer
peer_of r s k = (r.store s).peers k

-- The bindings and the addresses of the peers agree.
abbrev pub IsSound : Relay → Type 0
IsSound r = Agree (peer_of r) r.bindings

-- A packet from `from` to the peer in its header comes out at a member of the sender's session.
abbrev pub Reaches : Relay → List ℕ → Addr → Option (Addr × List ℕ) → Type 0
Reaches r p from none = Unit
Reaches r p from (some (dst, out)) =
    (s : ℕ) × (k : ℕ) × (r.bindings from ≡ some (s, k))
    × (r.bindings dst ≡ some (s, get_or p 10 0))
    × (get_or p 10 0 ≢ k)
    × (out ≡ restore p)

module _ {A : Type 0} (f : ℕ → A) (k : ℕ) where
  pub put_self : (v : A) → put f k v k ≡ v
  put_self v = rw (==_refl k) refl

  pub put_ne : (j : ℕ) (v : A) → j ≢ k → put f k v j ≡ f j
  put_ne j v n = rw (==_ne j k n) refl

-- The other peers of a session are as before.
peers_ne :
    (r : Relay) (s k j : ℕ) (v : RelayPeer)
    → j ≢ k
    → peer_of (with_peer r s k v) s j ≡ peer_of r s j
peers_ne r s k j v n =
    ap (λ x. x.peers j)
      (put_self r.store s (record (r.store s) { peers = put (r.store s).peers k v }))
    ∙ put_ne (r.store s).peers k j v n

forward_to-Reaches :
    (r q : Relay) (p : List ℕ) (from : Addr) (now s k : ℕ)
    → IsSound r
    → r.bindings from ≡ some (s, k)
    → get_or p 10 0 ≢ k
    → (o : Option Addr) → (peer_of r s (get_or p 10 0)).active ≡ o
    → Reaches r p from (forward_to q p now s o).0
forward_to-Reaches r q p from now s k sound b n none e = tt
forward_to-Reaches r q p from now s k (bound, held, live) b n (some dst) e =
    (s, k, b, (held s (get_or p 10 0) dst.is4 dst (live s (get_or p 10 0) dst e)).0, n, refl)

from_slot-Reaches :
    (r : Relay) (p : List ℕ) (from : Addr) (now : ℕ) (o : Option (ℕ × ℕ))
    → IsSound r
    → r.bindings from ≡ o
    → Reaches r p from (from_slot r p from now (get_or p 10 0) o).0
from_slot-Reaches r p from now none sound b = tt
from_slot-Reaches r p from now (some (s, k)) sound b = elim (Bool-cases (get_or p 10 0 == k)) [
  | inl e ↦ rw e tt
  | inr e ↦
      let n : get_or p 10 0 ≢ k = λ i. grind (arith, (==_iff (get_or p 10 0) k).1 i, e) in
      let q = with_peer r s k (record (peer_of r s k) { active = some from; playing = true }) in
      rw e (
        forward_to-Reaches r q p from now s k sound b n (peer_of q s (get_or p 10 0)).active
          (ap (λ x. x.active) (sym (peers_ne r s k (get_or p 10 0) _ n))))
]

-- In a sound relay a GGPO packet is dropped, or it comes from the bound address of a member of a session
-- and goes, with its type restored and the relay's header cleared, to a bound address of the peer that
-- it names, another member of the same session.
pub handle_ggpo-Reaches :
    (r : Relay) (p : List ℕ) (from : Addr) (now : ℕ)
    → IsSound r
    → Reaches r p from (handle_ggpo r p from now).0
unfolding handle_ggpo
handle_ggpo-Reaches r p from now sound =
    elim (Bool-cases
      (leb relay_max_peers (get_or p 10 0) || ltb (get_or p 11 0) 1 || ltb 8 (get_or p 11 0))) [
        | inl e ↦ rw e tt
        | inr e ↦ rw e (from_slot-Reaches r p from now (r.bindings from) sound refl)
      ]
