-- ===== src/Proto/BattleBuffer/Tests.antt =====
-- The send side on concrete messages.
use zdxsv.Prelude.{ℕ, ◌+◌, ◌-◌, ◌≡◌, refl, List, [], ◌∷◌, some, map, take, drop, arith}
use zdxsv.Proto.BattleBuffer.{
  get_id, set_id, BattleMessage, BattleBuffer, new_battle_buffer, push_battle_message,
  get_send_data, apply_seq_ack, send_end, ring_slice,
}
use zdxsv.Proto.BattleBuffer.Represents.{
  Represents, burst, new_battle_buffer-Represents, push_battle_message-Represents,
  get_send_data_lem,
}

abbrev msg : ℕ → BattleMessage
msg n = record { user_id = "AAAAAA"; seq = n; body = n ∷ [] }

pushed_one : BattleBuffer
pushed_one = push_battle_message (new_battle_buffer "AAAAAA") (msg 1)

pushed_two : BattleBuffer
unfolding pushed_one
pushed_two = push_battle_message pushed_one (msg 2)

abbrev two : List BattleMessage
two = msg 1 ∷ msg 2 ∷ []

one-Represents : Represents pushed_one (msg 1 ∷ [])
unfolding pushed_one
one-Represents =
    push_battle_message-Represents (new_battle_buffer "AAAAAA") [] (msg 1)
      (new_battle_buffer-Represents "AAAAAA") (omega arith)

two-Represents : Represents pushed_two two
unfolding pushed_two
two-Represents =
    push_battle_message-Represents pushed_one (msg 1 ∷ []) (msg 2) one-Represents (omega arith)

push_example : Represents (push_battle_message pushed_two (msg 3)) (msg 1 ∷ msg 2 ∷ msg 3 ∷ [])
push_example = push_battle_message-Represents pushed_two two (msg 3) two-Represents (omega arith)

get_send_data_example :
    ((get_send_data pushed_two).messages
      ≡ map some (take (burst pushed_two) (drop (pushed_two.begin - 1) two)))
    × ((get_send_data pushed_two).seq ≡ pushed_two.begin - 1 + burst pushed_two)
    × ((get_send_data pushed_two).ack ≡ pushed_two.ack)
unfolding pushed_two push_battle_message new_battle_buffer
get_send_data_example =
    get_send_data_lem pushed_two two two-Represents (omega arith) (omega arith) (omega arith)
      (omega arith)

-- Past the acknowledgement of the first message only the second is sent.
sends_rest : (get_send_data (apply_seq_ack pushed_two 7 1)).messages ≡ some (msg 2) ∷ []
unfolding pushed_two push_battle_message new_battle_buffer get_send_data apply_seq_ack send_end
    ring_slice
sends_rest = refl

renamed : get_id (set_id pushed_one "BBBBBB") ≡ "BBBBBB"
unfolding get_id set_id
renamed = refl
