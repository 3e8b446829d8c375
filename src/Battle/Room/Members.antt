-- ===== src/Battle/Room/Members.antt =====
-- The members of a battle room, and that each stands at the place it holds.
use native.Mathlib.Decide.{ℕ_discrete}
use zdxsv.Prelude.{
  ℕ, zero, suc, ◌+◌, ◌≤◌, ◌<◌, ◌≡◌, ◌≢◌, refl, sym, ap, ◌∙◌, List, [], ◌∷◌, ◌++◌, Option, none,
  some, true, if◌then◌else◌, length, set, ◌==◌, In, inl, inr, arith, ==_iff,
}
use zdxsv.Prelude.{==_ne}
use zdxsv.Battle.Room.{Heap, update, others, is_empty}

abbrev pub members : List (Option ℕ) → List ℕ
members [] = []
members (none ∷ ps) = members ps
members (some p ∷ ps) = p ∷ members ps

abbrev pub without : ℕ → List ℕ → List ℕ
without p [] = []
without p (q ∷ qs) = let rest = without p qs in if q == p then rest else q ∷ rest

-- Those that do not hold the place `k`.
abbrev pub elsewhere_than : Heap → ℕ → List ℕ → List ℕ
elsewhere_than h k [] = []
elsewhere_than h k (q ∷ qs) =
    let rest = elsewhere_than h k qs in if (h q).position == k then rest else q ∷ rest

-- The peers from place `i` on hold their places and the room's number.
abbrev pub Placed : Heap → ℕ → ℕ → List (Option ℕ) → Type 0
Placed h id i [] = Unit
Placed h id i (none ∷ ps) = Placed h id (suc i) ps
Placed h id i (some p ∷ ps) = ((h p).position ≡ i) × ((h p).room_id ≡ id) × Placed h id (suc i) ps

module _ (h : Heap) (id : ℕ) where
  pub Placed-low :
      (i : ℕ) (ps : List (Option ℕ)) (q : ℕ)
      → Placed h id i ps
      → In q (members ps)
      → i ≤ (h q).position
  Placed-low i [] q w m = absurd m
  Placed-low i (none ∷ ps) q w m = let r = Placed-low (suc i) ps q w m in omega arith
  Placed-low i (some p ∷ ps) q w (inl e) = rw e (omega (arith, w.0))
  Placed-low i (some p ∷ ps) q w (inr m) = let r = Placed-low (suc i) ps q w.2 m in omega arith

  pub Placed-unique :
      (i : ℕ) (ps : List (Option ℕ)) (p q : ℕ)
      → Placed h id i ps
      → In p (members ps)
      → In q (members ps)
      → (h q).position ≡ (h p).position
      → q ≡ p
  Placed-unique i [] p q w m n e = absurd m
  Placed-unique i (none ∷ ps) p q w m n e = Placed-unique (suc i) ps p q w m n e
  Placed-unique i (some s ∷ ps) p q w (inl a) (inl b) e = b ∙ sym a
  Placed-unique i (some s ∷ ps) p q w (inl a) (inr n) e =
      let low = Placed-low (suc i) ps q w.2 n in
      let at : (h p).position ≡ i = ap (λ x. (h x).position) a ∙ w.0 in absurd (omega arith)
  Placed-unique i (some s ∷ ps) p q w (inr m) (inl b) e =
      let low = Placed-low (suc i) ps p w.2 m in
      let at : (h q).position ≡ i = ap (λ x. (h x).position) b ∙ w.0 in absurd (omega arith)
  Placed-unique i (some s ∷ ps) p q w (inr m) (inr n) e = Placed-unique (suc i) ps p q w.2 m n e

-- No other member of the list holds the place of `p`.
abbrev pub IsAlone : Heap → ℕ → List ℕ → Type 0
IsAlone h p qs = (q : ℕ) → In q qs → (h q).position ≡ (h p).position → q ≡ p

without-absent : (p : ℕ) (qs : List ℕ) → ((q : ℕ) → In q qs → q ≢ p) → without p qs ≡ qs
without-absent p [] h = refl
without-absent p (q ∷ qs) h =
    rw (==_ne q p (h q (inl refl))) (ap (◌∷◌ q) (without-absent p qs (λ r m. h r (inr m))))

module _ (h : Heap) (id p : ℕ) where
  pub others-without :
      (i : ℕ) (ps : List (Option ℕ))
      → Placed h id i ps
      → IsAlone h p (members ps)
      → others (h p).position i ps ≡ without p (members ps)
  others-without i [] w u = refl
  others-without i (none ∷ ps) w u = elim (ℕ_discrete i (h p).position) [
    | yes e ↦ rw ((==_iff i (h p).position).1 e) (others-without (suc i) ps w u)
    | no n ↦ rw (==_ne i (h p).position n) (others-without (suc i) ps w u)
  ]
  others-without i (some q ∷ ps) w u =
      let rest = others-without (suc i) ps w.2 (λ r m. u r (inr m)) in
      elim (ℕ_discrete i (h p).position) [
        | yes e ↦ rw ((==_iff i (h p).position).1 e, (==_iff q p).1 (u q (inl refl) (w.0 ∙ e))) rest
        | no n ↦
            rw (==_ne i (h p).position n, ==_ne q p (λ e. n (sym w.0 ∙ ap (λ x. (h x).position) e)))
              (ap (◌∷◌ q) rest)
      ]

  behind-absent :
      (i : ℕ) (ps : List (Option ℕ))
      → Placed h id (suc i) ps
      → (h p).position ≡ i
      → without p (members ps) ≡ members ps
  behind-absent i ps w at = without-absent p (members ps) (λ q m e.
      let low = Placed-low h id (suc i) ps q w m in
      let same : (h q).position ≡ (h p).position = ap (λ x. (h x).position) e in omega arith)

  pub members-set :
      (i j : ℕ) (ps : List (Option ℕ))
      → Placed h id i ps
      → IsAlone h p (members ps)
      → (h p).position ≡ i + j
      → members (set ps j none) ≡ without p (members ps)
  members-set i j [] w u at = refl
  members-set i zero (none ∷ ps) w u at = sym (behind-absent i ps w (omega arith))
  members-set i zero (some q ∷ ps) w u at =
      let e : q ≡ p = u q (inl refl) (omega (arith, w.0)) in
      rw ((==_iff q p).1 e) (sym (behind-absent i ps w.2 (omega arith)))
  members-set i (suc j) (none ∷ ps) w u at = members-set (suc i) j ps w u (omega arith)
  members-set i (suc j) (some q ∷ ps) w u at =
      let far : (q ≡ p) → ⊥ = λ e.
        let same : (h q).position ≡ (h p).position = ap (λ x. (h x).position) e in
        omega (arith, w.0) in
      rw (==_ne q p far)
        (ap (◌∷◌ q) (members-set (suc i) j ps w.2 (λ r m. u r (inr m)) (omega arith)))

module _ (h : Heap) (id : ℕ) where
  elsewhere-behind :
      (i k : ℕ) (ps : List (Option ℕ))
      → Placed h id i ps
      → k < i
      → elsewhere_than h k (members ps) ≡ members ps
  elsewhere-behind i k [] w l = refl
  elsewhere-behind i k (none ∷ ps) w l = elsewhere-behind (suc i) k ps w (omega arith)
  elsewhere-behind i k (some q ∷ ps) w l =
      rw (==_ne (h q).position k (λ e. absurd (omega (arith, w.0))))
        (ap (◌∷◌ q) (elsewhere-behind (suc i) k ps w.2 (omega arith)))

  pub members-set_place :
      (i j : ℕ) (ps : List (Option ℕ))
      → Placed h id i ps
      → members (set ps j none) ≡ elsewhere_than h (i + j) (members ps)
  members-set_place i j [] w = refl
  members-set_place i zero (none ∷ ps) w = sym (elsewhere-behind (suc i) (i + 0) ps w (omega arith))
  members-set_place i zero (some q ∷ ps) w =
      rw ((==_iff (h q).position (i + 0)).1 (omega (arith, w.0)))
        (sym (elsewhere-behind (suc i) (i + 0) ps w.2 (omega arith)))
  members-set_place i (suc j) (none ∷ ps) w =
      let e : suc i + j ≡ i + suc j = omega arith in
      members-set_place (suc i) j ps w ∙ ap (λ k. elsewhere_than h k (members ps)) e
  members-set_place i (suc j) (some q ∷ ps) w =
      let e : suc i + j ≡ i + suc j = omega arith in
      rw (==_ne (h q).position (i + suc j) (λ f. absurd (omega (arith, w.0)))) (
        ap (◌∷◌ q)
          (members-set_place (suc i) j ps w.2 ∙ ap (λ k. elsewhere_than h k (members ps)) e))

  pub set-Placed :
      (i j : ℕ) (ps : List (Option ℕ)) → Placed h id i ps → Placed h id i (set ps j none)
  set-Placed i j [] w = w
  set-Placed i zero (none ∷ ps) w = w
  set-Placed i zero (some p ∷ ps) w = w.2
  set-Placed i (suc j) (none ∷ ps) w = set-Placed (suc i) j ps w
  set-Placed i (suc j) (some p ∷ ps) w = (w.0, w.1, set-Placed (suc i) j ps w.2)

  pub append-Placed :
      (i : ℕ) (ps : List (Option ℕ)) (p : ℕ)
      → Placed h id i ps
      → (h p).position ≡ i + length ps
      → (h p).room_id ≡ id
      → Placed h id i (ps ++ some p ∷ [])
  append-Placed i [] p w at r = (omega arith, r, tt)
  append-Placed i (none ∷ ps) p w at r = append-Placed (suc i) ps p w (omega arith) r
  append-Placed i (some q ∷ ps) p w at r =
      (w.0, w.1, append-Placed (suc i) ps p w.2 (omega arith) r)

pub members-append :
    (ps : List (Option ℕ)) (p : ℕ) → members (ps ++ some p ∷ []) ≡ members ps ++ p ∷ []
members-append [] p = refl
members-append (none ∷ ps) p = members-append ps p
members-append (some q ∷ ps) p = ap (◌∷◌ q) (members-append ps p)

pub is_empty-members : (ps : List (Option ℕ)) → is_empty ps ≡ true → members ps ≡ []
is_empty-members [] e = refl
is_empty-members (none ∷ ps) e = is_empty-members ps e
is_empty-members (some p ∷ ps) e = absurd (ground arith)

-- What happens to a peer outside a room does not reach the room.
pub update-Placed :
    (h : Heap) (id i : ℕ) (ps : List (Option ℕ)) (p : ℕ) (v : _)
    → Placed h id i ps
    → ((q : ℕ) → In q (members ps) → q ≢ p)
    → Placed (update h p v) id i ps
update-Placed h id i [] p v w n = tt
update-Placed h id i (none ∷ ps) p v w n = update-Placed h id (suc i) ps p v w n
update-Placed h id i (some q ∷ ps) p v w n =
    rw (==_ne q p (n q (inl refl)))
      (w.0, w.1, update-Placed h id (suc i) ps p v w.2 (λ r m. n r (inr m)))
