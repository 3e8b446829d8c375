-- ===== src/Battle/Room/Tests.antt =====
-- A run of a room.
use zdxsv.Prelude.{ℕ, ◌≡◌, ◌≢◌, refl, [], ◌∷◌, arith, inl, inr, In}
use zdxsv.Battle.Room.{Heap, Room, new_room, join, leave, clear, send_message}
use zdxsv.Battle.Room.History.{
  History, opened, joined, left, cleared, Refines, history-Refines, send_message-history,
}

abbrev heap : Heap
heap p = record { session_id = ""; user_id = ""; position = 9; room_id = 9 }

abbrev first : Heap × Room
first = join heap (new_room 5) 1

abbrev second : Heap × Room
second = join first.0 first.1 2

abbrev third : Heap × Room
third = join second.0 second.1 3

new_second : (q : ℕ) → In q (1 ∷ []) → q ≢ 2
new_second q (inl e) = grind (arith, e)
new_second q (inr m) = absurd m

new_third : (q : ℕ) → In q (1 ∷ 2 ∷ []) → q ≢ 3
new_third q (inl e) = grind (arith, e)
new_third q (inr (inl e)) = grind (arith, e)
new_third q (inr (inr m)) = absurd m

abbrev run : History 5 0 (1 ∷ 2 ∷ 3 ∷ []) third.0 third.1
run = joined (joined (joined (opened heap) 1 (λ q m. absurd m)) 2 new_second) 3 new_third

reached : send_message third.0 (leave third.0 third.1 2).1 3 ≡ 1 ∷ []
unfolding send_message join leave clear new_room
reached = refl

-- Peer 1 leaves and finds the room empty, peer 2 joins, and the room is cleared: 3 then joins a room in
-- which 2 is not, and its messages reach nobody.
abbrev vacant : Room
vacant = (leave first.0 first.1 1).1

abbrev late : Heap × Room
late = join first.0 vacant 2

abbrev after : Heap × Room
after = join late.0 (clear late.1) 3

new_after : (q : ℕ) → In q [] → q ≢ 3
new_after q m = absurd m

new_late : (q : ℕ) → In q [] → q ≢ 2
new_late q m = absurd m

interleaved : History 5 0 (3 ∷ []) after.0 after.1
unfolding join leave clear new_room
interleaved =
    joined
      (cleared (joined (left (joined (opened heap) 1 (λ q m. absurd m)) 1 (inl refl)) 2 new_late)) 3
      new_after

wiped :
    ((after.0 2).position ≡ 1) × ((after.0 3).position ≡ 0) × (send_message after.0 after.1 3 ≡ [])
unfolding send_message join leave clear new_room
wiped = (refl, refl, refl)

history-Refines_example : Refines 5 (3 ∷ []) after.0 after.1
history-Refines_example = history-Refines 5 0 (3 ∷ []) after.0 after.1 interleaved

send_message-history_example : send_message third.0 third.1 2 ≡ 1 ∷ 3 ∷ []
send_message-history_example =
    send_message-history 5 0 (1 ∷ 2 ∷ 3 ∷ []) third.0 third.1 2 run (inr (inl refl))
