-- ===== src/Proto/MessageFilter/Tests.antt =====
-- The receive side on concrete messages.
use zdxsv.Prelude.{ℕ, ◌≡◌, refl, [], ◌∷◌, some, arith}
use zdxsv.Proto.BattleBuffer.{BattleMessage}
use zdxsv.Proto.MessageFilter.{MessageFilter, new_message_filter, accept_ids, filter, filter_all}
use zdxsv.Proto.MessageFilter.Runs.{filter_all-run}

abbrev msg : ℕ → BattleMessage
msg n = record { user_id = "AAAAAA"; seq = n; body = [] }

abbrev seen_two : MessageFilter
seen_two = record { seq = 1; recv_seq = λ _. some 2 }

-- The window 1 to 4 comes again: only 3 and 4 are new.
filter_all-run_example :
    ((filter_all seen_two (msg 1 ∷ msg 2 ∷ msg 3 ∷ msg 4 ∷ [])).0 ≡ msg 3 ∷ msg 4 ∷ [])
    × ((filter_all seen_two (msg 1 ∷ msg 2 ∷ msg 3 ∷ msg 4 ∷ [])).1.recv_seq "AAAAAA" ≡ some 4)
filter_all-run_example =
    filter_all-run "AAAAAA" (msg 1 ∷ msg 2 ∷ msg 3 ∷ msg 4 ∷ []) seen_two 1 2 refl
      (refl, refl, (refl, refl, (refl, refl, (refl, refl, tt)))) (omega arith) (omega arith)
      (omega arith) (omega arith)

-- A stranger's message, and one behind a gap, are dropped.
drops_gap : (filter_all (new_message_filter ("AAAAAA" ∷ [])) (msg 1 ∷ msg 3 ∷ [])).0 ≡ msg 1 ∷ []
unfolding new_message_filter accept_ids filter filter_all
drops_gap = refl

drops_stranger : (filter_all (new_message_filter ("BBBBBB" ∷ [])) (msg 1 ∷ [])).0 ≡ []
unfolding new_message_filter accept_ids filter filter_all
drops_stranger = refl
