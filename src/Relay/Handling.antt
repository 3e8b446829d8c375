-- ===== src/Relay/Handling.antt =====
-- Every packet leaves the relay sound.
use mathlib.Core.Path.{subst, ap₂}
use native.Mathlib.Decide.{ℕ_discrete}
use zdxsv.Prelude.{
  ℕ, ◌≡◌, refl, sym, ap, ◌∙◌, List, Option, none, some, Bool, true, false, not, ◌&&◌, ◌||◌,
  if◌then◌else◌, ◌==◌, leb, ltb, length, get_or, fun_ext, Bool-cases, inl, inr,
}
use zdxsv.Relay.{
  Addr, RelayPeer, RelaySession, Relay, Handled, new_relay, put, with_peer, bind_peer, move_peer,
  ping_session, handle_ping, from_slot, forward_to, handle_ggpo, handle, relay_max_peers, le16_at,
  le32_at,
}
use zdxsv.Relay.Members.{peer_of, IsSound, put_self, put_ne}
use zdxsv.Relay.Sound.{Agree, slot_cases, not_some}
use zdxsv.Relay.Binding.{with_peer-Changed, bind_peer-IsSound, bind_peer-bindings}

-- A session changed outside its peers.
pub put_session-IsSound :
    (r : Relay) (s : ℕ) (v : RelaySession)
    → IsSound r
    → v.peers ≡ (r.store s).peers
    → IsSound (record r { store = put r.store s v })
put_session-IsSound r s v sound e =
    let q : Relay = record r { store = put r.store s v } in
    let same : peer_of r ≡ peer_of q = fun_ext (λ t. elim (ℕ_discrete t s) [
      | yes i ↦
          ap (λ x. (r.store x).peers) i
          ∙ sym e
          ∙ ap (λ x. x.peers) (sym (put_self r.store s v))
          ∙ ap (λ x. (put r.store s v x).peers) (sym i)
      | no n ↦ ap (λ x. x.peers) (sym (put_ne r.store s t v n))
    ]) in
    subst (λ P. Agree P r.bindings) same sound

-- A peer made active at one of its addresses.
activate-IsSound :
    (r : Relay) (s k : ℕ) (from : Addr) (b : Bool)
    → IsSound r
    → (peer_of r s k).addrs from.is4 ≡ some from
    → IsSound (with_peer r s k (record (peer_of r s k) { active = some from; playing = b }))
activate-IsSound r s k from b (bound, held, live) at =
    let v : RelayPeer = record (peer_of r s k) { active = some from; playing = b } in
    let q : Relay = with_peer r s k v in
    let change = with_peer-Changed r s k v in
    let same : (t j : ℕ) → (peer_of q t j).addrs ≡ (peer_of r t j).addrs = λ t j.
      elim (slot_cases s k t j) [
        | inl i ↦
            ap (λ p. p.addrs) (ap₂ (peer_of q) i.0 i.1)
            ∙ ap (λ p. p.addrs) change.0
            ∙ ap (λ p. p.addrs) (sym (ap₂ (peer_of r) i.0 i.1))
        | inr n ↦ ap (λ p. p.addrs) (change.1 t j n)
      ] in
    (
      λ a t j e. ap (λ g. g a.is4) (same t j) ∙ bound a t j e,
      λ t j f a e. held t j f a (ap (λ g. g f) (sym (same t j)) ∙ e),
      λ t j a e. ap (λ g. g a.is4) (same t j) ∙ (elim (slot_cases s k t j) [
        | inl i ↦
            let now : some from ≡ some a =
              ap (λ p. p.active) (sym change.0)
              ∙ ap (λ p. p.active) (sym (ap₂ (peer_of q) i.0 i.1))
              ∙ e in
            let who : from ≡ a = cc now in
            ap (λ p. p.addrs a.is4) (ap₂ (peer_of r) i.0 i.1)
            ∙ ap (λ x. (peer_of r s k).addrs x.is4) (sym who)
            ∙ at
            ∙ ap some who
        | inr n ↦ live t j a (ap (λ p. p.active) (sym (change.1 t j n)) ∙ e)
      ]),
    )

bind_peer-addrs :
    (r : Relay) (s k : ℕ) (from : Addr)
    → IsSound r
    → (peer_of (bind_peer r s k from) s k).addrs from.is4 ≡ some from
bind_peer-addrs r s k from sound =
    (bind_peer-IsSound r s k from sound).0 from s k (bind_peer-bindings r s k from sound)

move_peer-IsSound :
    (r : Relay) (s k : ℕ) (from : Addr)
    → IsSound r
    → (peer_of r s k).addrs from.is4 ≡ some from
    → IsSound (move_peer r s k from)
move_peer-IsSound r s k from sound at = elim (Bool-cases (peer_of r s k).playing) [
  | inl e ↦ rw e sound
  | inr e ↦ rw e (
      subst
        (λ b.
          IsSound (with_peer r s k (record (peer_of r s k) { active = some from; playing = b })))
        e (activate-IsSound r s k from (peer_of r s k).playing sound at))
]

ping_session-IsSound :
    (r : Relay) (p : List ℕ) (from : Addr) (now peer token : ℕ) (o : Option ℕ)
    → IsSound r
    → IsSound (ping_session r p from now peer token o).1
ping_session-IsSound r p from now peer token none sound = sound
ping_session-IsSound r p from now peer token (some s) sound =
    elim (Bool-cases ((r.store s).token == token)) [
      | inl e ↦
          let q : Relay = move_peer (bind_peer r s peer from) s peer from in
          rw e (
            put_session-IsSound q s (record (q.store s) { last_active = now })
              (move_peer-IsSound (bind_peer r s peer from) s peer from
                (bind_peer-IsSound r s peer from sound) (bind_peer-addrs r s peer from sound))
              refl)
      | inr e ↦ rw e sound
    ]

forward_to-IsSound :
    (r : Relay) (p : List ℕ) (now s : ℕ) (o : Option Addr)
    → IsSound r
    → IsSound (forward_to r p now s o).1
forward_to-IsSound r p now s none sound = sound
forward_to-IsSound r p now s (some dst) sound = put_session-IsSound r s _ sound refl

from_slot-IsSound :
    (r : Relay) (p : List ℕ) (from : Addr) (now to : ℕ) (o : Option (ℕ × ℕ))
    → IsSound r
    → r.bindings from ≡ o
    → IsSound (from_slot r p from now to o).1
from_slot-IsSound r p from now to none sound e = sound
from_slot-IsSound r p from now to (some (s, k)) sound e = elim (Bool-cases (to == k)) [
  | inl i ↦ rw i sound
  | inr i ↦
      rw i (
        forward_to-IsSound _ p now s _
          (activate-IsSound r s k from true sound (sound.0 from s k e)))
]

if-IsSound : (b : Bool) (x y : Handled) → IsSound x.1 → IsSound y.1 → IsSound (if b then x else y).1
if-IsSound true x y h k = h
if-IsSound false x y h k = k

handle_ping-IsSound :
    (r : Relay) (p : List ℕ) (from : Addr) (now : ℕ)
    → IsSound r
    → IsSound (handle_ping r p from now).1
unfolding handle_ping
handle_ping-IsSound r p from now sound =
    if-IsSound (not (get_or p 4 0 == 1) || leb relay_max_peers (get_or p 5 0)) _ _ sound
      (ping_session-IsSound r p from now _ _ (r.sessions (le32_at p 8)) sound)

handle_ggpo-IsSound :
    (r : Relay) (p : List ℕ) (from : Addr) (now : ℕ)
    → IsSound r
    → IsSound (handle_ggpo r p from now).1
unfolding handle_ggpo
handle_ggpo-IsSound r p from now sound =
    if-IsSound
      (leb relay_max_peers (get_or p 10 0) || ltb (get_or p 11 0) 1 || ltb 8 (get_or p 11 0)) _ _
      sound (from_slot-IsSound r p from now _ (r.bindings from) sound refl)

-- From a sound relay every packet, a ping, a GGPO packet or any other, leads to a sound relay.
pub handle-IsSound :
    (r : Relay) (p : List ℕ) (from : Addr) (now : ℕ) → IsSound r → IsSound (handle r p from now).1
unfolding handle
handle-IsSound r p from now sound =
    if-IsSound (length p == 28 && le32_at p 0 == 0x594c4552) _ _
      (handle_ping-IsSound r p from now sound)
      (if-IsSound
        (leb 12 (length p) && le16_at p 0 == 34046 && get_or p 7 0 == 99 && le16_at p 8 == 26315) _
        _ (handle_ggpo-IsSound r p from now sound) sound)

pub new_relay-IsSound : IsSound new_relay
new_relay-IsSound = (
  λ a s k e. absurd (not_some (s, k) e),
  λ s k f a e. absurd (not_some a e),
  λ s k a e. absurd (not_some a e),
)
