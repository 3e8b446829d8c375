-- ===== src/Spectators/Writes.antt =====
-- pkg/lobby/spectator.go: the writes to the spectators.
use zdxsv.Prelude.{
  ℕ, ◌+◌, ◌-◌, ◌%◌, min, Bool, true, false, not, ◌&&◌, ◌||◌, List, [], ◌∷◌, ◌++◌, ◌==◌,
  if◌then◌else◌, ltb, length, take, drop,
}
use zdxsv.Spectators.{live_stall, LiveBattle, LiveWatcher, SpectatorRegistry, is_done, unpick}

-- A call of `Write`: how many bytes the connection would take, and whether it fails otherwise than by
-- its deadline. A call that does not take all its bytes ends with an error, the deadline's if no other.
pub record Outcome : Type 0 where
  pub taken : ℕ
  pub failed : Bool

abbrev pub to_send : LiveWatcher → List ℕ → List ℕ
to_send w buf = elim w.pre [ [] ↦ drop w.pos buf | x ∷ xs ↦ w.pre ]

abbrev pub advance : ℕ → List ℕ → ℕ → LiveWatcher → List ℕ → LiveWatcher
advance now buf n w [] = record w {
  got = w.got ++ take n (drop w.pos buf);
  pos = w.pos + n;
  progress = now;
}
advance now buf n w (x ∷ xs) = record w {
  got = w.got ++ take n w.pre;
  pre = drop n w.pre;
  progress = now;
}

abbrev pub advanced : ℕ → List ℕ → ℕ → LiveWatcher → LiveWatcher
advanced now buf n w = if n == 0 then w else advance now buf n w w.pre

-- `write`; when `outcomes` ends, the next call would reach its deadline with no byte taken.
unfoldable pub write : ℕ → List ℕ → List Outcome → LiveWatcher → Bool × LiveWatcher
write now buf [] w = (true, w)
write now buf (o ∷ os) w =
    let n = min o.taken (length (to_send w buf)) in
    let w' = advanced now buf n w in
    let rest = write now buf os w' in
    if length (to_send w buf) == 0
    then (true, w)
    else if o.failed
    then (false, w')
    else if n == length (to_send w buf)
    then rest
    else (true, w')

abbrev is_finished : LiveBattle → LiveWatcher → Bool
is_finished v w = is_done v && length w.pre == 0 && w.pos == length v.buf

-- One round of the loop of `deliver`: whether the watcher stays, and what it is then.
abbrev pub serve_watcher :
    ℕ → (ℕ → LiveBattle) → (ℕ → List Outcome) → LiveWatcher → Bool × LiveWatcher
serve_watcher now views outcomes w =
    let (ok, w') = write now (views w.b).buf (outcomes w.conn) w in
    (not (not ok || is_finished (views w.b) w' || ltb live_stall (now - w'.progress)), w')

abbrev pub serve_all :
    ℕ
    → (ℕ → LiveBattle)
    → (ℕ → List Outcome)
    → SpectatorRegistry
    → List LiveWatcher
    → SpectatorRegistry × List LiveWatcher
serve_all now views outcomes r [] = (r, [])
serve_all now views outcomes r (w ∷ ws) =
    let (stays, w') = serve_watcher now views outcomes w in
    let (r', keep) = serve_all now views outcomes (if stays then r else unpick r w'.b) ws in
    (r', if stays then w' ∷ keep else keep)

-- `deliver` begins with another watcher each turn, and sees the buffers as they are at its start.
unfoldable pub deliver :
    SpectatorRegistry
    → List LiveWatcher
    → ℕ
    → ℕ
    → (ℕ → List Outcome)
    → SpectatorRegistry × List LiveWatcher
deliver r ws turn now outcomes =
    let k = turn % length ws in serve_all now r.store outcomes r (drop k ws ++ take k ws)
