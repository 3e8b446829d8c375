-- ===== src/Relay/Binding.antt =====
-- Binding a sender to its slot keeps the relay sound.
use zdxsv.Prelude.{
  ℕ, ◌≡◌, ◌≢◌, refl, sym, ap, ◌∙◌, Option, none, some, Bool, true, false, fun_ext, arith,
  Bool-cases, inl, inr,
}
use mathlib.Core.Path.{subst, ap₂}
use native.Mathlib.Decide.{ℕ_discrete}
use zdxsv.Relay.{
  Addr, RelayPeer, Relay, is_addr, bind, unbind, put, with_peer, drop_old, leave_slot, take_slot,
  bind_peer,
}
use zdxsv.Relay.Members.{peer_of, IsSound, put_self, put_ne}
use zdxsv.Relay.Sound.{
  Agree, Changed, slot_cases, set_addr_cases, addr_eq-eq, unbind-addrs, release-Agree, take-Agree,
  addr_cases, bind_ne, bind_self,
}

pub with_peer-Changed :
    (r : Relay) (s k : ℕ) (v : RelayPeer) → Changed (peer_of r) s k v (peer_of (with_peer r s k v))
with_peer-Changed r s k v =
    let new = record (r.store s) { peers = put (r.store s).peers k v } in
    (
      ap (λ x. x.peers k) (put_self r.store s new) ∙ put_self (r.store s).peers k v,
      λ t j n. elim (ℕ_discrete t s) [
        | yes e ↦
            let other : j ≢ k = λ i. n (e, i) in
            ap (λ x. peer_of (with_peer r s k v) x j) e
            ∙ ap (λ x. x.peers j) (put_self r.store s new)
            ∙ put_ne (r.store s).peers k j v other
            ∙ ap (λ x. peer_of r x j) (sym e)
        | no d ↦ ap (λ x. x.peers j) (put_ne r.store s t new d)
      ],
    )

true_ne : false ≡ true → ⊥
true_ne e = grind (arith, e)

is_addr-eq : (a : Addr) (o : Option Addr) → is_addr a o ≡ true → o ≡ some a
is_addr-eq a none e = absurd (true_ne e)
is_addr-eq a (some b) e = ap some (sym (addr_eq-eq a b e))

-- The slot has no address of the family.
abbrev Vacant : Relay → ℕ → ℕ → Bool → Type 0
Vacant r s k family = (peer_of r s k).addrs family ≡ none

unbound-Agree :
    (P : ℕ → ℕ → RelayPeer) (B : Addr → Option (ℕ × ℕ)) (a : Addr)
    → Agree P B
    → B a ≡ none
    → Agree P (bind B a none)
unbound-Agree P B a agree e =
    let same : B ≡ bind B a none = fun_ext (λ b. elim (addr_cases b a) [
      | inl i ↦ ap B i ∙ e ∙ sym (bind_self B a none) ∙ ap (bind B a none) (sym i)
      | inr (n, _) ↦ sym (bind_ne B a none b n)
    ]) in
    subst (Agree P) same agree

drop_old-IsSound :
    (r : Relay) (s k : ℕ) (family : Bool) (old : Option Addr)
    → IsSound r
    → (peer_of r s k).addrs family ≡ old
    → IsSound (drop_old r s k old) × Vacant (drop_old r s k old) s k family
drop_old-IsSound r s k family none sound e = (sound, e)
drop_old-IsSound r s k family (some o) sound e =
    let (bound, same) = sound.1 s k family o e in
    let change = with_peer-Changed r s k (unbind (peer_of r s k) o) in
    (
      release-Agree (peer_of r) (peer_of (drop_old r s k (some o))) r.bindings o s k sound bound
          change,
      ap (λ p. p.addrs family) change.0
          ∙ ap (λ g. g family) (unbind-addrs (peer_of r s k) o)
          ∙ elim (set_addr_cases (peer_of r s k).addrs o.is4 none family) [
            | inl (_, i) ↦ i
            | inr (n, _) ↦ absurd (n same)
          ],
    )

leave_slot-IsSound :
    (r : Relay) (s k : ℕ) (from : Addr) (o : Option (ℕ × ℕ))
    → IsSound r
    → Vacant r s k from.is4
    → r.bindings from ≡ o
    → Agree (peer_of (leave_slot r from o)) (bind r.bindings from none)
      × Vacant (leave_slot r from o) s k from.is4
leave_slot-IsSound r s k from none sound vacant e =
    (unbound-Agree (peer_of r) r.bindings from sound e, vacant)
leave_slot-IsSound r s k from (some (t, j)) sound vacant e =
    let change = with_peer-Changed r t j (unbind (peer_of r t j) from) in
    (
      release-Agree (peer_of r) (peer_of (leave_slot r from (some (t, j)))) r.bindings from t j
          sound e change,
      elim (slot_cases t j s k) [
        | inl q ↦
            ap (λ p. p.addrs from.is4) (ap₂ (peer_of (leave_slot r from (some (t, j)))) q.0 q.1)
            ∙ ap (λ p. p.addrs from.is4) change.0
            ∙ ap (λ g. g from.is4) (unbind-addrs (peer_of r t j) from)
            ∙ elim (set_addr_cases (peer_of r t j).addrs from.is4 none from.is4) [
              | inl (_, i) ↦ i
              | inr (n, _) ↦ absurd (n refl)
            ]
        | inr q ↦ ap (λ p. p.addrs from.is4) (change.1 s k q) ∙ vacant
      ],
    )

leave_slot-bindings :
    (r : Relay) (from : Addr) (o : Option (ℕ × ℕ)) → (leave_slot r from o).bindings ≡ r.bindings
leave_slot-bindings r from none = refl
leave_slot-bindings r from (some (t, j)) = refl

take_slot-IsSound :
    (r : Relay) (s k : ℕ) (from : Addr)
    → Agree (peer_of r) (bind r.bindings from none)
    → Vacant r s k from.is4
    → IsSound (take_slot r s k from)
take_slot-IsSound r s k from agree vacant =
    take-Agree (peer_of r) (peer_of (take_slot r s k from)) r.bindings from s k agree vacant
      (with_peer-Changed r s k _)

-- After a ping has bound its sender to a slot, which may have had another address and the sender another
-- slot, the bindings and the addresses still agree.
pub bind_peer-IsSound :
    (r : Relay) (s k : ℕ) (from : Addr) → IsSound r → IsSound (bind_peer r s k from)
unfolding bind_peer
bind_peer-IsSound r s k from sound =
    let old = (peer_of r s k).addrs from.is4 in
    let q : Relay = drop_old r s k old in
    elim (Bool-cases (is_addr from old)) [
      | inl e ↦ rw e sound
      | inr e ↦
          let (sound', vacant) = drop_old-IsSound r s k from.is4 old sound refl in
          let (agree, vacant') =
            leave_slot-IsSound q s k from (q.bindings from) sound' vacant refl in
          rw e (
            take_slot-IsSound (leave_slot q from (q.bindings from)) s k from
              (subst (λ B. Agree (peer_of (leave_slot q from (q.bindings from))) (bind B from none))
                (sym (leave_slot-bindings q from (q.bindings from))) agree)
              vacant')
    ]

pub bind_peer-bindings :
    (r : Relay) (s k : ℕ) (from : Addr)
    → IsSound r
    → (bind_peer r s k from).bindings from ≡ some (s, k)
unfolding bind_peer
bind_peer-bindings r s k from sound =
    let old = (peer_of r s k).addrs from.is4 in
    elim (Bool-cases (is_addr from old)) [
      | inl e ↦ rw e (sound.1 s k from.is4 from (is_addr-eq from old e)).0
      | inr e ↦ rw e (
          bind_self
            (leave_slot (drop_old r s k old) from ((drop_old r s k old).bindings from)).bindings
            from (some (s, k)))
    ]
