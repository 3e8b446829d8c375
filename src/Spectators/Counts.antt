-- ===== src/Spectators/Counts.antt =====
-- The numbers of spectators and the sizes of the buffers in pkg/lobby/spectator.go.
use zdxsv.Prelude.{
  ℕ, suc, ◌+◌, ◌-◌, min, Bool, true, false, List, [], ◌∷◌, ◌++◌, ◌≡◌, refl, sym, ap, ◌∙◌, inl, inr,
  ◌==◌, if◌then◌else◌, length, Bool-cases, ==_iff, ==_refl, arith,
}
use zdxsv.Spectators.{LiveBattle, LiveWatcher, SpectatorRegistry, unpick}
use zdxsv.Spectators.Writes.{Outcome, to_send, advance, advanced, write, serve_watcher, serve_all}

-- The spectators of a battle.
abbrev pub count : ℕ → List LiveWatcher → ℕ
count b [] = 0
count b (w ∷ ws) = let rest = count b ws in if b == w.b then suc rest else rest

pub count-append : (b : ℕ) (us vs : List LiveWatcher) → count b (us ++ vs) ≡ count b us + count b vs
count-append b [] vs = omega arith
count-append b (u ∷ us) vs = elim (Bool-cases (b == u.b)) [
  | inl e ↦ rw e (omega (arith, count-append b us vs))
  | inr e ↦ rw e (count-append b us vs)
]

advance-b :
    (now : ℕ) (buf : List ℕ) (n : ℕ) (w : LiveWatcher) (pre : List ℕ)
    → (advance now buf n w pre).b ≡ w.b
advance-b now buf n w [] = refl
advance-b now buf n w (x ∷ xs) = refl

advanced-b : (now : ℕ) (buf : List ℕ) (n : ℕ) (w : LiveWatcher) → (advanced now buf n w).b ≡ w.b
advanced-b now buf n w = elim (Bool-cases (n == 0)) [
  | inl e ↦ rw e refl
  | inr e ↦ rw e (advance-b now buf n w w.pre)
]

if-b :
    (t : Bool) (x y : Bool × LiveWatcher) (b : ℕ)
    → x.1.b ≡ b
    → y.1.b ≡ b
    → (if t then x else y).1.b ≡ b
if-b true x y b e f = e
if-b false x y b e f = f

pub write-b :
    (now : ℕ) (buf : List ℕ) (os : List Outcome) (w : LiveWatcher) → (write now buf os w).1.b ≡ w.b
unfolding write
write-b now buf [] w = refl
write-b now buf (o ∷ os) w =
    let n = min o.taken (length (to_send w buf)) in
    let w' = advanced now buf n w in
    let kept = advanced-b now buf n w in
    if-b (length (to_send w buf) == 0) _ _ w.b refl (
      if-b o.failed _ _ w.b kept
        (if-b (n == length (to_send w buf)) _ _ w.b (write-b now buf os w' ∙ kept) kept))

-- `n` spectators in all, and `c b` of each battle.
abbrev pub Counted : SpectatorRegistry → ℕ → (ℕ → ℕ) → Type 0
Counted r n c = (r.nwatchers ≡ n) × ((b : ℕ) → (r.store b).watchers ≡ c b)

pub unpick-Counted :
    (r : SpectatorRegistry) (w : ℕ) (n : ℕ) (c : ℕ → ℕ)
    → Counted r (suc n) (λ b. if b == w then suc (c b) else c b)
    → Counted (unpick r w) n c
unfolding unpick
unpick-Counted r w n c (all, each) = (
  omega arith,
  λ b. elim (Bool-cases (b == w)) [
    | inl e ↦
        let one : (r.store w).watchers ≡ suc (c w) = each w ∙ rw (==_refl w) refl in
        let less : (r.store w).watchers - 1 ≡ c w = omega arith in
        rw e (less ∙ ap c (sym ((==_iff b w).0 e)))
    | inr e ↦ rw e (each b ∙ rw e refl)
  ],
)

shift : (t : Bool) (x y : ℕ) → x + (if t then suc y else y) ≡ (if t then suc x else x) + y
shift true x y = omega arith
shift false x y = refl

gather : (t : Bool) (x y : ℕ) → x + (if t then suc y else y) ≡ (if t then suc (x + y) else x + y)
gather true x y = omega arith
gather false x y = refl

-- A turn counts out those it drops; `n` and `c` count the spectators that are not of the turn.
pub serve_all-Counted :
    (now : ℕ) (views : ℕ → LiveBattle) (outcomes : ℕ → List Outcome) (r : SpectatorRegistry) (n : ℕ)
    (c : ℕ → ℕ) (ws : List LiveWatcher)
    → Counted r (n + length ws) (λ b. c b + count b ws)
    → Counted
        (serve_all now views outcomes r ws).0
        (n + length (serve_all now views outcomes r ws).1)
        (λ b. c b + count b (serve_all now views outcomes r ws).1)
serve_all-Counted now views outcomes r n c [] h = h
serve_all-Counted now views outcomes r n c (w ∷ ws) (all, each) =
    let w' = (serve_watcher now views outcomes w).1 in
    let same : w.b ≡ w'.b = sym (write-b now (views w.b).buf (outcomes w.conn) w) in
    let each' : (b : ℕ)
        → (r.store b).watchers ≡ c b + (if b == w'.b then suc (count b ws) else count b ws) =
      λ b. each b ∙ ap (λ k. c b + (if b == k then suc (count b ws) else count b ws)) same in
    elim (Bool-cases (serve_watcher now views outcomes w).0) [
      | inl e ↦
          let more : ℕ → ℕ = λ b. if b == w'.b then suc (c b) else c b in
          let (all'', each'') =
            serve_all-Counted now views outcomes r (n + 1) more ws
              (all ∙ omega arith, λ b. each' b ∙ shift (b == w'.b) (c b) (count b ws)) in
          rw e (all'' ∙ omega arith, λ b. each'' b ∙ sym (shift (b == w'.b) (c b) _))
      | inr e ↦ rw e (
          serve_all-Counted now views outcomes (unpick r w'.b) n c ws (
            unpick-Counted r w'.b (n + length ws) (λ b. c b + count b ws)
              (all ∙ omega arith, λ b. each' b ∙ gather (b == w'.b) (c b) (count b ws))))
    ]
