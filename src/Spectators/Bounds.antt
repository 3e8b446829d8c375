-- ===== src/Spectators/Bounds.antt =====
-- The calls of the registry but for picks keep the numbers of spectators right and bounded, and the buffers too.
use zdxsv.Prelude.{
  ℕ, ◌+◌, ◌≤◌, ◌<◌, String, not, List, [], ◌∷◌, ◌++◌, Option, none, some, ◌≡◌, ◌≢◌, refl, sym, ap,
  ◌∙◌, inl, inr, ◌==◌, ltb, length, length-append, All, Bool-cases, ==_iff, arith,
}
use zdxsv.Spectators.{
  LiveBattle, LiveWatcher, SpectatorRegistry, found, new_spectator_registry, new_battle, put_battle,
  open_new, open_battle, is_stale, fresh, tick, upload_to, start_upload, add, end_upload, pick,
  unpick, live_max_bytes, live_max_spectators, live_max_battle_watchers,
}
use zdxsv.Spectators.Writes.{Outcome, deliver}
use zdxsv.Spectators.Counts.{count, Counted}

-- The registry and the spectators that it has counted: those of the loop `Run`, of its channel, and of
-- the requests on their way there.
pub record IsSound (r : SpectatorRegistry) (ws : List LiveWatcher) : Type 0 where
  pub counted : Counted r (length ws) (λ b. count b ws)
  pub few : length ws ≤ live_max_spectators
  pub few_each : (b : ℕ) → count b ws ≤ live_max_battle_watchers
  pub small : (b : ℕ) → length (r.store b).buf ≤ live_max_bytes
  pub older : All (λ e. e.1 < r.next) r.battles
  pub unborn : (b : ℕ) → r.next ≤ b → count b ws ≡ 0

pub data Reached : SpectatorRegistry → List LiveWatcher → Type 0 where
  start : Reached new_spectator_registry []
  opened :
      {r : SpectatorRegistry} {ws : List LiveWatcher} (code : String) (session now : ℕ)
      → Reached r ws
      → Reached (open_battle r code session now) ws
  ticked :
      {r : SpectatorRegistry} {ws : List LiveWatcher} (now : ℕ)
      → Reached r ws
      → Reached (tick r now) ws
  upload_started :
      {r : SpectatorRegistry} {ws : List LiveWatcher} (code : String) (session : ℕ)
      → Reached r ws
      → Reached (start_upload r code session).1 ws
  added :
      {r : SpectatorRegistry} {ws : List LiveWatcher} (b : ℕ) (more : List ℕ)
      → Reached r ws
      → Reached (add r b more).1 ws
  upload_ended :
      {r : SpectatorRegistry} {ws : List LiveWatcher} (b now : ℕ)
      → Reached r ws
      → Reached (end_upload r b now) ws
  refused :
      {r : SpectatorRegistry} {ws : List LiveWatcher} (code : String) (skip : Option (List String))
      → Reached r ws
      → ((b : ℕ) → (pick r code skip).0 ≢ found b)
      → Reached (pick r code skip).1 ws
  picked :
      {r : SpectatorRegistry} {ws : List LiveWatcher} (code : String) (skip : Option (List String))
      (w : LiveWatcher)
      → Reached r ws
      → (pick r code skip).0 ≡ found w.b
      → Reached (pick r code skip).1 (ws ++ w ∷ [])
  unpicked :
      {r : SpectatorRegistry} (us : List LiveWatcher) (w : LiveWatcher) (vs : List LiveWatcher)
      → Reached r (us ++ w ∷ vs)
      → Reached (unpick r w.b) (us ++ vs)
  delivered :
      {r : SpectatorRegistry} {ws : List LiveWatcher} (turn now : ℕ) (outcomes : ℕ → List Outcome)
      → Reached r ws
      → Reached (deliver r ws turn now outcomes).0 (deliver r ws turn now outcomes).1

-- A battle is written with as many spectators as it had, and with a buffer that fits.
put_battle-Counted :
    (r : SpectatorRegistry) (b : ℕ) (v : LiveBattle) (n : ℕ) (c : ℕ → ℕ)
    → v.watchers ≡ (r.store b).watchers
    → Counted r n c
    → Counted (put_battle r b v) n c
put_battle-Counted r b v n c e (all, each) = (
  all,
  λ d. elim (Bool-cases (d == b)) [
    | inl h ↦ rw h (e ∙ each b ∙ ap c (sym ((==_iff d b).0 h)))
    | inr h ↦ rw h (each d)
  ],
)

pub put_battle-small :
    (r : SpectatorRegistry) (b : ℕ) (v : LiveBattle)
    → length v.buf ≤ live_max_bytes
    → ((d : ℕ) → length (r.store d).buf ≤ live_max_bytes)
    → (d : ℕ) → length ((put_battle r b v).store d).buf ≤ live_max_bytes
put_battle-small r b v fits small d = elim (Bool-cases (d == b)) [
  | inl h ↦ rw h fits
  | inr h ↦ rw h (small d)
]

pub put_battle-IsSound :
    (r : SpectatorRegistry) (ws : List LiveWatcher) (b : ℕ) (v : LiveBattle)
    → v.watchers ≡ (r.store b).watchers
    → length v.buf ≤ live_max_bytes
    → IsSound r ws
    → IsSound (put_battle r b v) ws
put_battle-IsSound r ws b v e fits s = record {
  counted = put_battle-Counted r b v _ _ e s.counted;
  few = s.few;
  few_each = s.few_each;
  small = put_battle-small r b v fits s.small;
  older = s.older;
  unborn = s.unborn;
}

All-later : (n : ℕ) (es : List (String × ℕ)) → All (λ e. e.1 < n) es → All (λ e. e.1 < n + 1) es
All-later n [] a = tt
All-later n ((k, b) ∷ es) (l, a) = (omega arith, All-later n es a)

All-last :
    (P : String × ℕ → Type 0) (es : List (String × ℕ)) (e : String × ℕ)
    → All P es
    → P e
    → All P (es ++ e ∷ [])
All-last P [] e a p = (p, tt)
All-last P (x ∷ es) e (q, a) p = (q, All-last P es e a p)

pub open_new-IsSound :
    (r : SpectatorRegistry) (ws : List LiveWatcher) (code : String) (session now : ℕ) (o : Option ℕ)
    → IsSound r ws
    → IsSound (open_new r code session now o) ws
open_new-IsSound r ws code session now (some b) s = s
open_new-IsSound r ws code session now none s =
    let none_yet : 0 ≡ (r.store r.next).watchers =
      sym (s.unborn r.next (omega arith)) ∙ sym (s.counted.1 r.next) in
    let made =
      put_battle-IsSound r ws r.next (new_battle code session now) none_yet (omega arith) s in
    record {
      counted = made.counted;
      few = s.few;
      few_each = s.few_each;
      small = made.small;
      older =
          All-last _ r.battles (code, r.next) (All-later r.next r.battles s.older) (omega arith);
      unborn = λ b h. s.unborn b (omega arith);
    }

All-fresh :
    (r : SpectatorRegistry) (now n : ℕ) (es : List (String × ℕ))
    → All (λ e. e.1 < n) es
    → All (λ e. e.1 < n) (fresh r now es)
All-fresh r now n [] a = tt
All-fresh r now n ((k, b) ∷ es) (l, a) = elim (Bool-cases (is_stale (r.store b) now)) [
  | inl h ↦ rw h (All-fresh r now n es a)
  | inr h ↦ rw h (l, All-fresh r now n es a)
]

pub tick-IsSound :
    (r : SpectatorRegistry) (ws : List LiveWatcher) (now : ℕ)
    → IsSound r ws
    → IsSound (tick r now) ws
unfolding tick
tick-IsSound r ws now s = record {
  counted = s.counted;
  few = s.few;
  few_each = s.few_each;
  small = s.small;
  older = All-fresh r now r.next r.battles s.older;
  unborn = s.unborn;
}

pub upload_to-IsSound :
    (r : SpectatorRegistry) (ws : List LiveWatcher) (session : ℕ) (o : Option ℕ)
    → IsSound r ws
    → IsSound (upload_to r session o).1 ws
upload_to-IsSound r ws session none s = s
upload_to-IsSound r ws session (some b) s =
    elim (Bool-cases (not ((r.store b).session == session))) [
      | inl e ↦ rw e s
      | inr e ↦ elim (Bool-cases (r.store b).uploaded) [
        | inl f ↦ rw (e, f) s
        | inr f ↦ rw (e, f) (put_battle-IsSound r ws b _ refl (s.small b) s)
      ]
    ]

pub add-IsSound :
    (r : SpectatorRegistry) (ws : List LiveWatcher) (b : ℕ) (more : List ℕ)
    → IsSound r ws
    → IsSound (add r b more).1 ws
unfolding add
add-IsSound r ws b more s =
    elim (Bool-cases (ltb live_max_bytes (length (r.store b).buf + length more))) [
      | inl e ↦ rw e s
      | inr e ↦
          let low : length (r.store b).buf + length more ≤ live_max_bytes = ground arith in
          rw e
            (put_battle-IsSound r ws b _ refl (omega (arith, length-append (r.store b).buf more)) s)
    ]
