-- ===== src/Relay/Sound.antt =====
-- The relay's bindings and the addresses of its peers stay the same relation.
use zdxsv.Prelude.{
  ℕ, ◌≡◌, ◌≢◌, refl, sym, ap, ◌∙◌, Option, none, some, Bool, true, false, arith, Bool-cases, inl,
  inr, ◌⊎◌, ==_refl,
}
use native.Mathlib.Decide.{ℕ_discrete}
use zdxsv.Relay.{Addr, RelayPeer, addr_eq, is_addr, same_family, bind, set_addr, unbind}

pub not_some : {A : Type 0} (a : A) → none ≡ some a → ⊥
not_some a e = grind (arith, e)

abbrev slot : ℕ → ℕ → Option (ℕ × ℕ)
slot s k = some (s, k)

pair_eq : (t j s k : ℕ) → slot t j ≡ slot s k → (t ≡ s) × (j ≡ k)
pair_eq t j s k e =
    let p : ℕ × ℕ = (t, j) in
    let q : ℕ × ℕ = (s, k) in let same : p ≡ q = cc e in (ap (λ x. x.0) same, ap (λ x. x.1) same)

same_family_eq : (f g : Bool) → same_family f g ≡ true → f ≡ g
same_family_eq true true e = refl
same_family_eq true false e = sym e
same_family_eq false true e = e
same_family_eq false false e = refl

same_family_refl : (f : Bool) → same_family f f ≡ true
same_family_refl true = refl
same_family_refl false = refl

pub addr_eq-eq : (a b : Addr) → addr_eq a b ≡ true → a ≡ b
addr_eq-eq a b e =
    let family : a.is4 ≡ b.is4 = same_family_eq a.is4 b.is4 (ground arith) in
    let ip : a.ip ≡ b.ip = ground arith in let port : a.port ≡ b.port = ground arith in cc

pub addr_eq_refl : (a : Addr) → addr_eq a a ≡ true
addr_eq_refl a = rw (same_family_refl a.is4, ==_refl a.ip, ==_refl a.port) refl

pub addr_cases : (a b : Addr) → (a ≡ b) ⊎ ((a ≢ b) × (addr_eq a b ≡ false))
addr_cases a b = elim (Bool-cases (addr_eq a b)) [
  | inl e ↦ inl (addr_eq-eq a b e)
  | inr e ↦ inr (λ i. grind (arith, addr_eq_refl a, i, e), e)
]

pub bind_self : (f : Addr → Option (ℕ × ℕ)) (a : Addr) (v : Option (ℕ × ℕ)) → bind f a v a ≡ v
bind_self f a v = rw (addr_eq_refl a) refl

pub bind_ne :
    (f : Addr → Option (ℕ × ℕ)) (a : Addr) (v : Option (ℕ × ℕ)) (b : Addr)
    → b ≢ a
    → bind f a v b ≡ f b
bind_ne f a v b n = elim (addr_cases b a) [ inl e ↦ absurd (n e) | inr (_, e) ↦ rw e refl ]

pub set_addr_cases :
    (f : Bool → Option Addr) (family : Bool) (v : Option Addr) (g : Bool)
    → ((family ≡ g) × (set_addr f family v g ≡ v)) ⊎ ((family ≢ g) × (set_addr f family v g ≡ f g))
set_addr_cases f family v g = elim (Bool-cases (same_family family g)) [
  | inl e ↦ inl (same_family_eq family g e, rw e refl)
  | inr e ↦ inr (λ i. grind (arith, same_family_refl family, i, e), rw e refl)
]

-- The bindings and the addresses of the peers say the same, and a peer is reached at one of its
-- addresses.
abbrev pub Agree : (ℕ → ℕ → RelayPeer) → (Addr → Option (ℕ × ℕ)) → Type 0
Agree P B =
    ((a : Addr) (s k : ℕ) → B a ≡ some (s, k) → (P s k).addrs a.is4 ≡ some a)
    × ((s k : ℕ) (f : Bool) (a : Addr)
        → (P s k).addrs f ≡ some a
        → (B a ≡ some (s, k)) × (a.is4 ≡ f))
    × ((s k : ℕ) (a : Addr) → (P s k).active ≡ some a → (P s k).addrs a.is4 ≡ some a)

-- The slots `Q` are `P` with one changed.
abbrev pub Changed : (ℕ → ℕ → RelayPeer) → ℕ → ℕ → RelayPeer → (ℕ → ℕ → RelayPeer) → Type 0
Changed P s k v Q = (Q s k ≡ v) × ((t j : ℕ) → ((t ≡ s) × (j ≡ k) → ⊥) → Q t j ≡ P t j)

pub slot_cases : (s k t j : ℕ) → ((t ≡ s) × (j ≡ k)) ⊎ ((t ≡ s) × (j ≡ k) → ⊥)
slot_cases s k t j = elim (ℕ_discrete t s) [
  | yes e ↦ elim (ℕ_discrete j k) [ yes f ↦ inl (e, f) | no n ↦ inr (λ q. n q.1) ]
  | no n ↦ inr (λ q. n q.0)
]

pub unbind-addrs : (p : RelayPeer) (a : Addr) → (unbind p a).addrs ≡ set_addr p.addrs a.is4 none
unbind-addrs p a = elim (Bool-cases (is_addr a p.active)) [ inl e ↦ rw e refl | inr e ↦ rw e refl ]

unbind-active :
    (p : RelayPeer) (a b : Addr) → (unbind p a).active ≡ some b → (p.active ≡ some b) × (b ≢ a)
unbind-active p a b e = elim (Bool-cases (is_addr a p.active)) [
  | inl t ↦ absurd (grind (arith, rw t at e))
  | inr t ↦
      let now : p.active ≡ some b = rw t at e in
      (
        now,
        λ i.
            let yes' : is_addr a p.active ≡ true =
              ap (is_addr a) now ∙ ap (addr_eq a) i ∙ addr_eq_refl a in
            grind (arith, yes', t),
      )
]

module _ (P Q : ℕ → ℕ → RelayPeer) (B : Addr → Option (ℕ × ℕ)) (a : Addr) (s k : ℕ)
    (agree : Agree P B) (here : B a ≡ some (s, k))
    (change : Changed P s k (unbind (P s k) a) Q) where
  slot_addrs :
      (t j : ℕ) (f : Bool)
      → (t ≡ s) × (j ≡ k)
      → (Q t j).addrs f ≡ set_addr (P s k).addrs a.is4 none f
  slot_addrs t j f (e, i) =
      let changed : Q t j ≡ unbind (P s k) a = cc (change.0, e, i) in
      ap (λ p. p.addrs f) changed ∙ ap (λ g. g f) (unbind-addrs (P s k) a)

  kept : (t j : ℕ) (b : Addr) → (P t j).addrs b.is4 ≡ some b → b ≢ a → (Q t j).addrs b.is4 ≡ some b
  kept t j b old n = elim (slot_cases s k t j) [
    | inl q ↦ elim (set_addr_cases (P s k).addrs a.is4 none b.is4) [
      | inl (f, _) ↦
          let at : (P s k).addrs a.is4 ≡ some a = agree.0 a s k here in
          absurd (n (cc (at, old, q.0, q.1, f)))
      | inr (_, e) ↦ slot_addrs t j b.is4 q ∙ e ∙ cc (old, q.0, q.1)
    ]
    | inr q ↦ ap (λ p. p.addrs b.is4) (change.1 t j q) ∙ old
  ]

  pub release-Agree : Agree Q (bind B a none)
  release-Agree = (
    λ b t j e. elim (addr_cases b a) [
      | inl i ↦ absurd (not_some (t, j) (sym (bind_self B a none) ∙ ap (bind B a none) (sym i) ∙ e))
      | inr (n, _) ↦ kept t j b (agree.0 b t j (sym (bind_ne B a none b n) ∙ e)) n
    ],
    λ t j f b e. elim (slot_cases s k t j) [
      | inl q ↦ elim (set_addr_cases (P s k).addrs a.is4 none f) [
        | inl (_, i) ↦ absurd (not_some b (sym i ∙ sym (slot_addrs t j f q) ∙ e))
        | inr (nf, i) ↦
            let (bound, family) =
              agree.1 t j f b (cc (sym (slot_addrs t j f q) ∙ e, i, q.0, q.1)) in
            (bind_ne B a none b (λ i. nf (cc (i, family))) ∙ bound, family)
      ]
      | inr q ↦
          let (bound, family) = agree.1 t j f b (sym (ap (λ p. p.addrs f) (change.1 t j q)) ∙ e) in
          (bind_ne B a none b (λ i. q (pair_eq t j s k (cc (bound, i, here)))) ∙ bound, family)
    ],
    λ t j b e. elim (slot_cases s k t j) [
      | inl q ↦
          let changed : Q t j ≡ unbind (P s k) a = cc (change.0, q.0, q.1) in
          let (old, n) = unbind-active (P s k) a b (ap (λ p. p.active) (sym changed) ∙ e) in
          kept t j b (agree.2 t j b (cc (old, q.0, q.1))) n
      | inr q ↦
          let old = agree.2 t j b (sym (ap (λ p. p.active) (change.1 t j q)) ∙ e) in
          ap (λ p. p.addrs b.is4) (change.1 t j q) ∙ old
    ],
  )

module _ (P Q : ℕ → ℕ → RelayPeer) (B : Addr → Option (ℕ × ℕ)) (a : Addr) (s k : ℕ)
    (agree : Agree P (bind B a none)) (vacant : (P s k).addrs a.is4 ≡ none)
    (change : Changed P s k
      (record (P s k) { addrs = set_addr (P s k).addrs a.is4 (some a) })
      Q) where
  taken_addrs :
      (t j : ℕ) (f : Bool)
      → (t ≡ s) × (j ≡ k)
      → (Q t j).addrs f ≡ set_addr (P s k).addrs a.is4 (some a) f
  taken_addrs t j f (e, i) =
      let changed : Q t j ≡ Q s k = cc (e, i) in
      ap (λ p. p.addrs f) changed ∙ ap (λ p. p.addrs f) change.0

  taken_active : (t j : ℕ) → (Q t j).active ≡ (P t j).active
  taken_active t j = elim (slot_cases s k t j) [
    | inl q ↦
        let changed : Q t j ≡ Q s k = cc (q.0, q.1) in
        let old : P s k ≡ P t j = cc (q.0, q.1) in
        ap (λ p. p.active) changed ∙ ap (λ p. p.active) change.0 ∙ ap (λ p. p.active) old
    | inr q ↦ ap (λ p. p.active) (change.1 t j q)
  ]

  taken_kept : (t j : ℕ) (b : Addr) → (P t j).addrs b.is4 ≡ some b → (Q t j).addrs b.is4 ≡ some b
  taken_kept t j b old = elim (slot_cases s k t j) [
    | inl q ↦ elim (set_addr_cases (P s k).addrs a.is4 (some a) b.is4) [
      | inl (f, _) ↦ absurd (not_some b (cc (vacant, old, q.0, q.1, f)))
      | inr (_, e) ↦ taken_addrs t j b.is4 q ∙ e ∙ cc (old, q.0, q.1)
    ]
    | inr q ↦ ap (λ p. p.addrs b.is4) (change.1 t j q) ∙ old
  ]

  -- A binding of another address.
  bound_other :
      (t j : ℕ) (f : Bool) (b : Addr)
      → (P t j).addrs f ≡ some b
      → (bind B a (some (s, k)) b ≡ some (t, j)) × (b.is4 ≡ f)
  bound_other t j f b old =
      let (bound, family) = agree.1 t j f b old in
      elim (addr_cases b a) [
        | inl i ↦
            absurd (not_some (t, j) (sym (bind_self B a none) ∙ ap (bind B a none) (sym i) ∙ bound))
        | inr (n, _) ↦ (bind_ne B a (some (s, k)) b n ∙ sym (bind_ne B a none b n) ∙ bound, family)
      ]

  pub take-Agree : Agree Q (bind B a (some (s, k)))
  take-Agree = (
    λ b t j e. elim (addr_cases b a) [
      | inl i ↦
          let q =
            pair_eq t j s k
              (sym (sym (bind_self B a (some (s, k))) ∙ ap (bind B a (some (s, k))) (sym i) ∙ e)) in
          elim (set_addr_cases (P s k).addrs a.is4 (some a) b.is4) [
            | inl (_, f) ↦ taken_addrs t j b.is4 q ∙ f ∙ ap some (sym i)
            | inr (nf, _) ↦ absurd (nf (ap (λ x. x.is4) (sym i)))
          ]
      | inr (n, _) ↦
          taken_kept t j b
            (agree.0 b t j (bind_ne B a none b n ∙ sym (bind_ne B a (some (s, k)) b n) ∙ e))
    ],
    λ t j f b e. elim (slot_cases s k t j) [
      | inl q ↦ elim (set_addr_cases (P s k).addrs a.is4 (some a) f) [
        | inl (g, i) ↦
            let same : a ≡ b = cc (sym i ∙ sym (taken_addrs t j f q) ∙ e) in
            (
              ap (bind B a (some (s, k))) (sym same) ∙ bind_self B a (some (s, k)) ∙ cc (q.0, q.1),
              ap (λ x. x.is4) (sym same) ∙ g,
            )
        | inr (_, i) ↦ bound_other t j f b (cc (sym (taken_addrs t j f q) ∙ e, i, q.0, q.1))
      ]
      | inr q ↦ bound_other t j f b (sym (ap (λ p. p.addrs f) (change.1 t j q)) ∙ e)
    ],
    λ t j b e. taken_kept t j b (agree.2 t j b (sym (taken_active t j) ∙ e)),
  )
