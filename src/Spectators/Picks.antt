-- ===== src/Spectators/Picks.antt =====
-- The picks of a battle keep the numbers of spectators right.
use mathlib.Core.Path.{subst}
use zdxsv.Prelude.{
  ℕ, suc, ◌+◌, ◌<◌, String, Bool, true, false, not, ◌||◌, List, [], ◌∷◌, ◌++◌, Option, none, some,
  ◌≡◌, ◌≢◌, refl, sym, ap, ◌∙◌, inl, inr, ◌==◌, if◌then◌else◌, leb, str_eq, find, length-append,
  All, Bool-cases, ==_iff, ==_ne, arith,
}
use zdxsv.Spectators.{
  LiveWatcher, SpectatorRegistry, found, not_found, unavailable, put_battle, skips, better,
  better_of, choose, newest, pick_battle, live_max_spectators, live_max_battle_watchers,
}
use zdxsv.Spectators.Counts.{count, count-append}
use zdxsv.Spectators.Bounds.{IsSound, put_battle-small}

or_false : (x y : Bool) → x || y ≡ false → (x ≡ false) × (y ≡ false)
or_false true y e = absurd (grind (arith, e))
or_false false y e = (refl, e)

pub refused-IsSound :
    (r : SpectatorRegistry) (ws : List LiveWatcher) (o : Option ℕ)
    → IsSound r ws
    → ((b : ℕ) → (pick_battle r o).0 ≢ found b)
    → IsSound (pick_battle r o).1 ws
refused-IsSound r ws none s h = s
refused-IsSound r ws (some b) s h = elim (Bool-cases (not (r.store b).uploaded)) [
  | inl e ↦ rw e s
  | inr e ↦
      elim (Bool-cases (
        leb live_max_spectators r.nwatchers || leb live_max_battle_watchers (r.store b).watchers)) [
          | inl f ↦ rw (e, f) s
          | inr f ↦ absurd ((rw (e, f) at (h b)) refl)
        ]
]

count_last :
    (d : ℕ) (ws : List LiveWatcher) (w : LiveWatcher)
    → count d (ws ++ w ∷ []) ≡ (if d == w.b then suc (count d ws) else count d ws)
count_last d ws w = elim (Bool-cases (d == w.b)) [
  | inl e ↦
      let one : count d (w ∷ []) ≡ 1 = rw e refl in rw e (omega (arith, count-append d ws (w ∷ [])))
  | inr e ↦
      let no : count d (w ∷ []) ≡ 0 = rw e refl in rw e (omega (arith, count-append d ws (w ∷ [])))
]

picked-IsSound :
    (r : SpectatorRegistry) (ws : List LiveWatcher) (w : LiveWatcher)
    → IsSound r ws
    → w.b < r.next
    → r.nwatchers < live_max_spectators
    → (r.store w.b).watchers < live_max_battle_watchers
    → IsSound
        (record (put_battle r w.b
          (record (r.store w.b) { watchers = (r.store w.b).watchers + 1 })) {
            nwatchers = r.nwatchers + 1;
          })
        (ws ++ w ∷ [])
picked-IsSound r ws w s old room room_in =
    let all = s.counted.0 in
    let last = length-append ws (w ∷ []) in
    record {
      counted = (
        omega arith,
        λ d. elim (Bool-cases (d == w.b)) [
          | inl e ↦
              let here = s.counted.1 w.b in
              let same : count w.b ws ≡ count d ws =
                ap (λ k. count k ws) (sym ((==_iff d w.b).0 e)) in
              let now : count d (ws ++ w ∷ []) ≡ suc (count d ws) = count_last d ws w ∙ rw e refl in
              let grown : (r.store w.b).watchers + 1 ≡ count d (ws ++ w ∷ []) = omega arith in
              rw e grown
          | inr e ↦ rw e (s.counted.1 d ∙ sym (count_last d ws w ∙ rw e refl))
        ],
      );
      few = omega arith;
      few_each = λ d. elim (Bool-cases (d == w.b)) [
        | inl e ↦
            let here = s.counted.1 w.b in
            let same : count w.b ws ≡ count d ws =
              ap (λ k. count k ws) (sym ((==_iff d w.b).0 e)) in
            let now : count d (ws ++ w ∷ []) ≡ suc (count d ws) = count_last d ws w ∙ rw e refl in
            omega arith
        | inr e ↦
            let now : count d (ws ++ w ∷ []) ≡ count d ws = count_last d ws w ∙ rw e refl in
            let before = s.few_each d in omega arith
      ];
      small = put_battle-small r w.b _ (s.small w.b) s.small;
      older = s.older;
      unborn = λ d h.
          let no : (d == w.b) ≡ false = ==_ne d w.b (λ e. absurd (omega arith)) in
          count_last d ws w ∙ rw no (s.unborn d h);
    }

-- What `pick` looks for is one of the battles.
abbrev pub Older : ℕ → Option ℕ → Type 0
Older n o = (b : ℕ) → o ≡ some b → b < n

pub find-Older :
    (n : ℕ) (es : List (String × ℕ)) (k : String) → All (λ e. e.1 < n) es → Older n (find es k)
find-Older n [] k a b e = absurd (cc e)
find-Older n ((j, c) ∷ es) k (l, a) b e = elim (Bool-cases (str_eq j k)) [
  | inl h ↦ let same : some c ≡ some b = rw h at e in subst (λ x. x < n) (cc same) l
  | inr h ↦ find-Older n es k a b (rw h at e)
]

pub if-Older :
    (n : ℕ) (t : Bool) (x y : Option ℕ) → Older n x → Older n y → Older n (if t then x else y)
if-Older n true x y a b = a
if-Older n false x y a b = b

some-Older : (n c : ℕ) → c < n → Older n (some c)
some-Older n c l b e = subst (λ x. x < n) (cc e) l

better-Older :
    (r : SpectatorRegistry) (n c : ℕ) (best : Option ℕ)
    → c < n
    → Older n best
    → Older n (better_of r best c)
better-Older r n c none l o = some-Older n c l
better-Older r n c (some d) l o =
    if-Older n (better (r.store d) (r.store c)) _ _ (some-Older n c l) o

not_found_ne : (b : ℕ) → not_found ≢ found b
not_found_ne b e = cc e

unavailable_ne : (b : ℕ) → unavailable ≢ found b
unavailable_ne b e = cc e

choose-Older :
    (r : SpectatorRegistry) (skip : Option (List String)) (n : ℕ) (es : List (String × ℕ))
    (best : Option ℕ)
    → All (λ e. e.1 < n) es
    → Older n best
    → Older n (choose r skip es best)
choose-Older r skip n [] best a o = o
choose-Older r skip n ((k, c) ∷ es) best (l, a) o = choose-Older r skip n es _ a (
    if-Older n (not (r.store c).uploaded || skips skip (r.store c)) best _ o
      (better-Older r n c best l o))

pub newest-Older :
    (r : SpectatorRegistry) (ws : List LiveWatcher) (skip : Option (List String))
    → IsSound r ws
    → Older r.next (newest r skip)
newest-Older r ws skip s = choose-Older r skip r.next r.battles none s.older (λ b e. absurd (cc e))

pub picked_battle-IsSound :
    (r : SpectatorRegistry) (ws : List LiveWatcher) (o : Option ℕ) (w : LiveWatcher)
    → IsSound r ws
    → Older r.next o
    → (pick_battle r o).0 ≡ found w.b
    → IsSound (pick_battle r o).1 (ws ++ w ∷ [])
picked_battle-IsSound r ws none w s old e = absurd (cc e)
picked_battle-IsSound r ws (some b) w s old e = elim (Bool-cases (not (r.store b).uploaded)) [
  | inl x ↦ absurd (not_found_ne w.b (rw x at e))
  | inr x ↦
      elim (Bool-cases (
        leb live_max_spectators r.nwatchers || leb live_max_battle_watchers (r.store b).watchers)) [
          | inl f ↦ absurd (unavailable_ne w.b (rw (x, f) at e))
          | inr f ↦
              let here : found b ≡ found w.b = rw (x, f) at e in
              let same : b ≡ w.b = cc here in
              let (few, few_each) =
                or_false (leb live_max_spectators r.nwatchers)
                  (leb live_max_battle_watchers (r.store b).watchers) f in
              let room : r.nwatchers < live_max_spectators = ground arith in
              let room_in : (r.store b).watchers < live_max_battle_watchers = ground arith in
              rw (x, f)
                (subst
                  (λ k.
                    IsSound
                      (record (put_battle r k
                        (record (r.store k) { watchers = (r.store k).watchers + 1 })) {
                          nwatchers = r.nwatchers + 1;
                        })
                      (ws ++ w ∷ []))
                  (sym same)
                  (picked-IsSound r ws w s (subst (λ k. k < r.next) same (old b refl)) room
                    (subst (λ k. (r.store k).watchers < live_max_battle_watchers) same room_in)))
        ]
]
