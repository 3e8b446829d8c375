-- ===== src/Spectators/Tests.antt =====
-- One battle with an upload of three bytes, and one spectator of it.
use zdxsv.Prelude.{ℕ, false, List, [], ◌∷◌, ◌++◌, none, ◌≡◌, refl, length, drop}
use zdxsv.Spectators.{
  LiveWatcher, SpectatorRegistry, found, new_spectator_registry, open_battle, start_upload, add,
  pick,
}
use zdxsv.Spectators.Writes.{Outcome, write, deliver}
use zdxsv.Spectators.Delivery.{joined, grown, served, watching_lem}
use zdxsv.Spectators.Bounds.{IsSound, start, opened, upload_started, added, picked, delivered}
use zdxsv.Spectators.History.{Reached-IsSound}

abbrev opened_one : SpectatorRegistry
opened_one = open_battle new_spectator_registry "ab" 7 0

abbrev uploading_one : SpectatorRegistry
uploading_one = (start_upload opened_one "ab" 7).1

abbrev filled : SpectatorRegistry
filled = (add uploading_one 0 (1 ∷ 2 ∷ 3 ∷ [])).1

abbrev watcher : LiveWatcher
watcher = record { b = 0; conn = 1; got = []; pre = 8 ∷ 9 ∷ []; pos = 0; progress = 5 }

-- The header is taken, then two bytes of the upload, and then the connection is full.
abbrev outcomes : List Outcome
outcomes = record { taken = 9; failed = false } ∷ record { taken = 2; failed = false } ∷ []

abbrev watched : SpectatorRegistry
watched = (pick filled "ab" none).1

picked_first : (pick filled "ab" none).0 ≡ found 0
unfolding pick add start_upload open_battle
picked_first = refl

sent_bytes : (write 6 (1 ∷ 2 ∷ 3 ∷ []) outcomes watcher).1.got ≡ 8 ∷ 9 ∷ 1 ∷ 2 ∷ []
unfolding write
sent_bytes = refl

still_there : length (deliver watched (watcher ∷ []) 0 6 (λ c. outcomes)).1 ≡ 1
unfolding deliver write pick add start_upload open_battle
still_there = refl

counted_one : (deliver watched (watcher ∷ []) 0 6 (λ c. outcomes)).0.nwatchers ≡ 1
unfolding deliver write pick add start_upload open_battle
counted_one = refl

watching_lem_example :
    let w = (write 6 (1 ∷ 2 ∷ 3 ∷ []) outcomes watcher).1 in
    (w.got ++ (w.pre ++ drop w.pos (1 ∷ 2 ∷ 3 ∷ [])) ≡ 8 ∷ 9 ∷ 1 ∷ 2 ∷ 3 ∷ [])
    × (w.pre ≡ [] → w.pos ≡ length {A = ℕ} (1 ∷ 2 ∷ 3 ∷ []) → w.got ≡ 8 ∷ 9 ∷ 1 ∷ 2 ∷ 3 ∷ [])
watching_lem_example =
    watching_lem (8 ∷ 9 ∷ []) (1 ∷ 2 ∷ 3 ∷ []) (write 6 (1 ∷ 2 ∷ 3 ∷ []) outcomes watcher).1
      (served 6 outcomes (grown (2 ∷ 3 ∷ []) (joined (1 ∷ []) 0 1 5)))

Reached-IsSound_example :
    IsSound
      (deliver watched (watcher ∷ []) 0 6 (λ c. outcomes)).0
      (deliver watched (watcher ∷ []) 0 6 (λ c. outcomes)).1
Reached-IsSound_example = Reached-IsSound (
    delivered 0 6 (λ c. outcomes)
      (picked "ab" none watcher
        (added 0 (1 ∷ 2 ∷ 3 ∷ []) (upload_started "ab" 7 (opened "ab" 7 0 start))) picked_first))
