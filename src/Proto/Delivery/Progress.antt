-- ===== src/Proto/Delivery/Progress.antt =====
-- A network that passes packets on again lets the receiver catch up.
use native.Mathlib.Decide.{dec_lt}
use zdxsv.Prelude.{
  ℕ, zero, suc, ◌+◌, ◌-◌, ◌≤◌, ◌≡◌, refl, ◌∙◌, String, List, inl, some, map, arith, drop, take,
  length,
}
use zdxsv.Prelude.Reading.{take_all}
use zdxsv.Proto.BattleBuffer.{BattleMessage, get_send_data, apply_seq_ack}
use zdxsv.Proto.BattleBuffer.Represents.{burst, get_send_data_lem}
use zdxsv.Proto.Delivery.{
  Link, new_link, flush, receive, reply, acknowledge, Reach, flushes, receives, replies,
  acknowledges, here, next,
}
use zdxsv.Proto.Delivery.Invariant.{Inv, Reach-Inv, reached-Inv}

Reach-trans : {user : String} {k l m : Link} → Reach user k l → Reach user l m → Reach user k m
Reach-trans r here = r
Reach-trans r (next s t) = next (Reach-trans r s) t

abbrev window : Link → List BattleMessage
window l = take (burst l.sender) (drop (l.sender.begin - 1) l.history)

abbrev received : Link → Link
received l = receive (get_send_data l.sender) (window l) (flush l)

-- A packet there, and an acknowledgement back.
abbrev exchange : Link → Link
exchange l = acknowledge (get_send_data (received l).receiver) (reply (received l))

module _ (user : String) (l : Link) (v : Inv user l) where
  sent :
      ((get_send_data l.sender).messages ≡ map some (window l))
      × ((get_send_data l.sender).seq ≡ l.sender.begin - 1 + burst l.sender)
  sent =
      let (messages, seq, _) =
        get_send_data_lem l.sender l.history v.ring v.window_low
          (omega (arith, v.ring.next, v.window_high, v.bounded)) v.window_wide v.room in
      (messages, seq)

  known : (get_send_data (received l).receiver).ack ≡ (get_send_data l.sender).seq
  unfolding receive flush apply_seq_ack get_send_data
  known = refl

  exchange-begin : (exchange l).sender.begin ≡ l.sender.begin + burst l.sender
  unfolding acknowledge reply apply_seq_ack
  exchange-begin =
      omega (arith, known, sent.1, v.ring.next, v.window_low, v.window_high, v.bounded, v.room)

  exchange-same : ((exchange l).history ≡ l.history) × ((exchange l).sender.end ≡ l.sender.end)
  unfolding acknowledge reply receive flush apply_seq_ack
  exchange-same = (refl, refl)

  exchange-Reach : Reach user l (exchange l)
  unfolding reply receive flush
  exchange-Reach =
      next (next (next (next here flushes) (receives _ (window l) (inl refl) sent.0)) replies)
        (acknowledges _ (inl refl) (omega (arith, known, sent.1, v.window_wide)))

-- From `l` the link may reach a state with the same history in which all is acknowledged.
abbrev CanCatchUp : String → Link → Type 0
CanCatchUp user l =
    (m : Link) × Reach user l m × (m.history ≡ l.history) × (m.sender.begin ≡ m.sender.end)

-- Each exchange that leaves something unacknowledged acknowledges at least one message more.
catch_up :
    (fuel : ℕ) (user : String) (l : Link)
    → Inv user l
    → l.sender.end ≤ l.sender.begin + fuel
    → CanCatchUp user l
catch_up zero user l v enough =
    (l, here, refl, omega (arith, v.ring.next, v.window_high, v.bounded))
catch_up (suc fuel) user l v enough = elim (dec_lt l.sender.begin l.sender.end) [
  | no done ↦ (l, here, refl, omega (arith, v.ring.next, v.window_high, v.bounded))
  | yes more ↦
      let r = exchange-Reach user l v in
      let (same, ends) = exchange-same user l v in
      let (m, s, e, all) =
        catch_up fuel user (exchange l) (Reach-Inv v r)
          (omega (arith, ends, exchange-begin user l v)) in
      (m, Reach-trans r s, e ∙ same, all)
]

-- From every state that the link can reach, it can go on to one in which no message was written in
-- between and everything written has been passed on.
pub delivered_eventually :
    (user peer : String) (l : Link)
    → Reach user (new_link user peer) l
    → (m : Link) × Reach user l m × (m.history ≡ l.history) × (m.delivered ≡ m.history)
delivered_eventually user peer l r =
    let v = reached-Inv user peer l r in
    let (m, s, same, all) = catch_up (l.sender.end - l.sender.begin) user l v (omega arith) in
    let w = Reach-Inv v s in
    (
      m,
      s,
      same,
      w.prefix
          ∙ take_all (length m.delivered) m.history
              (omega (arith, all, w.window_high, w.ring.next)),
    )
