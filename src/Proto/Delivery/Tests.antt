-- ===== src/Proto/Delivery/Tests.antt =====
-- A link that writes, sends, receives and acknowledges one message.
use zdxsv.Prelude.{◌≡◌, refl, [], ◌∷◌, inl, take, length, arith}
use zdxsv.Proto.BattleBuffer.{
  BattleMessage, get_send_data, send_end, ring_slice, push_battle_message, new_battle_buffer,
}
use zdxsv.Proto.MessageFilter.{generate_message, new_message_filter}
use zdxsv.Proto.Delivery.{
  Link, new_link, write, flush, receive, Reach, writes, flushes, receives, here, next,
}
use zdxsv.Proto.Delivery.Invariant.{delivered-prefix}
use zdxsv.Proto.Delivery.Progress.{delivered_eventually}

written : Link
written = write "AAAAAA" (7 ∷ []) (new_link "AAAAAA" "server")

abbrev first : BattleMessage
first = record { user_id = "AAAAAA"; seq = 1; body = 7 ∷ [] }

arrived : Link
arrived = receive (get_send_data written.sender) (first ∷ []) (flush written)

written-Reach : Reach "AAAAAA" (new_link "AAAAAA" "server") written
unfolding written new_link new_battle_buffer
written-Reach = next here (writes (7 ∷ []) (omega arith) (omega arith))

arrived-Reach : Reach "AAAAAA" (new_link "AAAAAA" "server") arrived
unfolding arrived flush written write generate_message new_link new_battle_buffer new_message_filter
    push_battle_message get_send_data send_end ring_slice
arrived-Reach = next (next written-Reach flushes) (receives _ (first ∷ []) (inl refl) refl)

delivered-prefix_example : arrived.delivered ≡ take (length arrived.delivered) arrived.history
delivered-prefix_example = delivered-prefix "AAAAAA" "server" arrived arrived-Reach

delivered_eventually_example :
    (m : Link) × Reach "AAAAAA" written m
    × (m.history ≡ written.history)
    × (m.delivered ≡ m.history)
delivered_eventually_example = delivered_eventually "AAAAAA" "server" written written-Reach
