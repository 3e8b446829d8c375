-- ===== src/Spectators/History.antt =====
-- The bounds hold in every state that the registry can reach.
use mathlib.Core.Path.{subst}
use zdxsv.Prelude.{
  ◌%◌, ℕ, suc, ◌≤◌, ◌<◌, Bool, true, false, List, [], ◌∷◌, ◌++◌, ◌≡◌, refl, sym, ap, ◌∙◌, inl, inr,
  ◌==◌, if◌then◌else◌, str_eq, find, length, length-append, take, drop, All, Bool-cases, ==_iff,
  arith, take-append-drop,
}
use zdxsv.Spectators.{
  LiveBattle, LiveWatcher, SpectatorRegistry, new_spectator_registry, open_battle, start_upload,
  end_upload, newest, pick, unpick, live_max_bytes,
}
use zdxsv.Spectators.Writes.{Outcome, serve_watcher, serve_all, deliver}
use zdxsv.Spectators.Counts.{count, count-append, write-b, unpick-Counted, serve_all-Counted}
use zdxsv.Spectators.Bounds.{
  IsSound, Reached, start, opened, ticked, upload_started, added, upload_ended, refused, picked,
  unpicked, delivered, put_battle-IsSound, open_new-IsSound, tick-IsSound, upload_to-IsSound,
  add-IsSound,
}
use zdxsv.Spectators.Picks.{
  refused-IsSound, picked_battle-IsSound, find-Older, newest-Older, if-Older,
}

-- What a turn keeps, and what it does not let grow.
Kept : SpectatorRegistry → List LiveWatcher → SpectatorRegistry → List LiveWatcher → Type 0
Kept r ws r' keep =
    (r'.battles ≡ r.battles)
    × (r'.next ≡ r.next)
    × ((b : ℕ) → (r'.store b).buf ≡ (r.store b).buf)
    × (length keep ≤ length ws)
    × ((b : ℕ) → count b keep ≤ count b ws)

unpick-buf : (r : SpectatorRegistry) (w b : ℕ) → ((unpick r w).store b).buf ≡ (r.store b).buf
unfolding unpick
unpick-buf r w b = elim (Bool-cases (b == w)) [
  | inl e ↦ rw e (ap (λ k. (r.store k).buf) (sym ((==_iff b w).0 e)))
  | inr e ↦ rw e refl
]

count-grow : (t : Bool) (x y : ℕ) → x ≤ y → (if t then suc x else x) ≤ (if t then suc y else y)
count-grow true x y h = omega arith
count-grow false x y h = h

count-wait : (t : Bool) (x y : ℕ) → x ≤ y → x ≤ (if t then suc y else y)
count-wait true x y h = omega arith
count-wait false x y h = h

serve_all-Kept :
    (now : ℕ) (views : ℕ → LiveBattle) (outcomes : ℕ → List Outcome) (r : SpectatorRegistry)
    (ws : List LiveWatcher)
    → Kept r ws (serve_all now views outcomes r ws).0 (serve_all now views outcomes r ws).1
unfolding Kept unpick
serve_all-Kept now views outcomes r [] = (refl, refl, λ b. refl, omega arith, λ b. omega arith)
serve_all-Kept now views outcomes r (w ∷ ws) =
    let w' = (serve_watcher now views outcomes w).1 in
    let same : w'.b ≡ w.b = write-b now (views w.b).buf (outcomes w.conn) w in
    elim (Bool-cases (serve_watcher now views outcomes w).0) [
      | inl e ↦
          let kept = (serve_all now views outcomes r ws).1 in
          let (bs, n, buf, few, each) = serve_all-Kept now views outcomes r ws in
          rw e (
            bs,
            n,
            buf,
            omega arith,
            λ b.
                subst
                  (λ k.
                    (if b == k then suc (count b kept) else count b kept)
                    ≤ (if b == w.b then suc (count b ws) else count b ws))
                  (sym same) (count-grow (b == w.b) (count b kept) (count b ws) (each b)),
          )
      | inr e ↦
          let (bs, n, buf, few, each) = serve_all-Kept now views outcomes (unpick r w'.b) ws in
          rw e (
            bs,
            n,
            λ b. buf b ∙ unpick-buf r w'.b b,
            omega arith,
            λ b. count-wait (b == w.b) _ _ (each b),
          )
    ]

-- The turn's order has the same spectators.
turned-length : (k : ℕ) (ws : List LiveWatcher) → length (drop k ws ++ take k ws) ≡ length ws
turned-length k ws =
    let parts : length (take k ws ++ drop k ws) ≡ length ws = ap length (take-append-drop k ws) in
    omega (arith, length-append (drop k ws) (take k ws), length-append (take k ws) (drop k ws))

turned-count : (k b : ℕ) (ws : List LiveWatcher) → count b (drop k ws ++ take k ws) ≡ count b ws
turned-count k b ws =
    let parts : count b (take k ws ++ drop k ws) ≡ count b ws =
      ap (count b) (take-append-drop k ws) in
    omega (arith, count-append b (drop k ws) (take k ws), count-append b (take k ws) (drop k ws))

deliver-IsSound :
    (r : SpectatorRegistry) (ws : List LiveWatcher) (turn now : ℕ) (outcomes : ℕ → List Outcome)
    → IsSound r ws
    → IsSound (deliver r ws turn now outcomes).0 (deliver r ws turn now outcomes).1
unfolding deliver Kept
deliver-IsSound r ws turn now outcomes s =
    let k = turn % length ws in
    let order = drop k ws ++ take k ws in
    let all : length order ≡ length ws = turned-length k ws in
    let (bs, n, buf, few, each) = serve_all-Kept now r.store outcomes r order in
    record {
      counted =
          let (total, parts) =
            serve_all-Counted now r.store outcomes r 0 (λ b. 0) order
              (
                s.counted.0 ∙ sym all ∙ omega arith,
                λ b. s.counted.1 b ∙ sym (turned-count k b ws) ∙ omega arith,
              ) in
          (total ∙ omega arith, λ b. parts b ∙ omega arith);
      few = let low = s.few in omega arith;
      few_each = λ b.
          let low = s.few_each b in
          let same = turned-count k b ws in let less = each b in omega arith;
      small = λ b. subst (λ l. length l ≤ live_max_bytes) (sym (buf b)) (s.small b);
      older =
          subst (λ es. All (λ e. e.1 < (serve_all now r.store outcomes r order).0.next) es) (sym bs)
            (subst (λ m. All (λ e. e.1 < m) r.battles) (sym n) s.older);
      unborn = λ b h.
          let no : count b ws ≡ 0 = s.unborn b (omega arith) in
          let same = turned-count k b ws in let less = each b in omega arith;
    }

-- Taking out one spectator.
count-out :
    (b : ℕ) (us : List LiveWatcher) (w : LiveWatcher) (vs : List LiveWatcher)
    → count b (us ++ w ∷ vs) ≡ (if b == w.b then suc (count b (us ++ vs)) else count b (us ++ vs))
count-out b us w vs = elim (Bool-cases (b == w.b)) [
  | inl e ↦
      let one : count b (w ∷ vs) ≡ suc (count b vs) = rw e refl in
      rw e (omega (arith, count-append b us (w ∷ vs), count-append b us vs))
  | inr e ↦
      let no : count b (w ∷ vs) ≡ count b vs = rw e refl in
      rw e (omega (arith, count-append b us (w ∷ vs), count-append b us vs))
]

unpick-IsSound :
    (r : SpectatorRegistry) (us : List LiveWatcher) (w : LiveWatcher) (vs : List LiveWatcher)
    → IsSound r (us ++ w ∷ vs)
    → IsSound (unpick r w.b) (us ++ vs)
unfolding unpick
unpick-IsSound r us w vs s =
    let size : length (us ++ w ∷ vs) ≡ suc (length (us ++ vs)) =
      omega (arith, length-append us (w ∷ vs), length-append us vs) in
    let less : (b : ℕ) → count b (us ++ vs) ≤ count b (us ++ w ∷ vs) = λ b.
      subst (λ n. count b (us ++ vs) ≤ n) (sym (count-out b us w vs))
        (count-wait (b == w.b) _ _ (omega arith)) in
    record {
      counted =
          unpick-Counted r w.b (length (us ++ vs)) (λ b. count b (us ++ vs))
            (s.counted.0 ∙ size, λ b. s.counted.1 b ∙ count-out b us w vs);
      few = let low = s.few in omega arith;
      few_each = λ b. let low = s.few_each b in let l = less b in omega arith;
      small = λ b. subst (λ l. length l ≤ live_max_bytes) (sym (unpick-buf r w.b b)) (s.small b);
      older = s.older;
      unborn = λ b h. let no = s.unborn b h in let l = less b in omega arith;
    }

new-IsSound : IsSound new_spectator_registry []
new-IsSound = record {
  counted = (refl, λ b. refl);
  few = omega arith;
  few_each = λ b. omega arith;
  small = λ b. omega arith;
  older = tt;
  unborn = λ b h. refl;
}

-- In every state that the registry can reach, its number of spectators is that of those counted, and
-- likewise for each battle; there are at most 4096 of them, at most 512 of one battle, and no buffer is
-- over 32 MiB.
pub Reached-IsSound : {r : SpectatorRegistry} {ws : List LiveWatcher} → Reached r ws → IsSound r ws
unfolding open_battle start_upload end_upload pick
Reached-IsSound start = new-IsSound
Reached-IsSound (opened {r = r} {ws = ws} code session now h) =
    open_new-IsSound r ws code session now (find r.battles code) (Reached-IsSound h)
Reached-IsSound (ticked {r = r} {ws = ws} now h) = tick-IsSound r ws now (Reached-IsSound h)
Reached-IsSound (upload_started {r = r} {ws = ws} code session h) =
    upload_to-IsSound r ws session (find r.battles code) (Reached-IsSound h)
Reached-IsSound (added {r = r} {ws = ws} b more h) = add-IsSound r ws b more (Reached-IsSound h)
Reached-IsSound (upload_ended {r = r} {ws = ws} b now h) =
    let s = Reached-IsSound h in put_battle-IsSound r ws b _ refl (s.small b) s
Reached-IsSound (refused {r = r} {ws = ws} code skip h never) =
    refused-IsSound r ws (if str_eq code "" then newest r skip else find r.battles code)
      (Reached-IsSound h) never
Reached-IsSound (picked {r = r} {ws = ws} code skip w h e) =
    let s = Reached-IsSound h in
    picked_battle-IsSound r ws (if str_eq code "" then newest r skip else find r.battles code) w s
      (if-Older r.next (str_eq code "") (newest r skip) (find r.battles code)
        (newest-Older r ws skip s) (find-Older r.next r.battles code s.older))
      e
Reached-IsSound (unpicked us w vs h) = unpick-IsSound _ us w vs (Reached-IsSound h)
Reached-IsSound (delivered {r = r} {ws = ws} turn now outcomes h) =
    deliver-IsSound r ws turn now outcomes (Reached-IsSound h)
