-- ===== src/Proto/BattleBuffer/Represents.antt =====
-- The ring against the whole history of the messages pushed, which it forgets from the front.
use native.Mathlib.Decide.{dec_lt}
use zdxsv.Prelude.{
  ℕ, suc, ◌+◌, ◌-◌, ◌%◌, ◌≤◌, ◌<◌, ◌≡◌, refl, sym, ◌∙◌, String, List, [], ◌∷◌, ◌++◌, Option, none,
  some, map, min, arith, take, drop, length, get_elem?, length-append, length-set, length-replicate,
  set,
}
use zdxsv.Prelude.Reading.{
  read_at_congr, get_elem?-read_at, get_or-set_self, get_or-set_ne, get_elem?-append_left,
  get_elem?-append_self,
}
use zdxsv.Proto.BattleBuffer.{
  BattleMessage, BattleBuffer, ring_size, u32, new_battle_buffer, push_battle_message, send_end,
  get_send_data, apply_seq_ack, ring_slice,
}
use zdxsv.Proto.BattleBuffer.Window.{slot, ring_slice-read_at}

-- The message number `i + 1` is the `i`-th of the history; the last 4096 are still in the ring.
pub record Represents (b : BattleBuffer) (h : List BattleMessage) : Type 0 where
  pub sized : length b.rbuf ≡ ring_size
  pub next : b.end ≡ suc (length h)
  pub held : (i : ℕ) → i < length h → length h ≤ i + ring_size → slot b.rbuf (suc i) ≡ get_elem? h i

pub new_battle_buffer-Represents : (id : String) → Represents (new_battle_buffer id) []
unfolding new_battle_buffer
new_battle_buffer-Represents id = record {
  sized = length-replicate {A = Option BattleMessage} ring_size none;
  next = refl;
  held = λ i hi _. absurd (omega arith);
}

module _ (b : BattleBuffer) (h : List BattleMessage) (m : BattleMessage) where
  slot-push_old :
      Represents b h
      → (i : ℕ) → i < length h
      → suc (length h) ≤ i + ring_size
      → slot (set b.rbuf (b.end % ring_size) (some m)) (suc i) ≡ get_elem? (h ++ m ∷ []) i
  slot-push_old r i hi room =
      get_or-set_ne b.rbuf (b.end % ring_size) (suc i % ring_size) (some m) none
        (λ e. omega (arith, r.next))
      ∙ r.held i hi (omega arith)
      ∙ sym (get_elem?-append_left h (m ∷ []) i hi)

  slot-push_new :
      Represents b h
      → slot (set b.rbuf (b.end % ring_size) (some m)) (suc (length h))
        ≡ get_elem? (h ++ m ∷ []) (length h)
  slot-push_new r = rw r.next (
      get_or-set_self b.rbuf (suc (length h) % ring_size) (some m) none (omega (arith, r.sized))
      ∙ sym (get_elem?-append_self h m []))

  -- Pushing a message onto a ring that represents a history, while the numbers fit 32 bits, gives a
  -- ring that represents the history with that message behind it.
  pub push_battle_message-Represents :
      Represents b h → length h + 2 < u32 → Represents (push_battle_message b m) (h ++ m ∷ [])
  unfolding push_battle_message
  push_battle_message-Represents r fits = record {
    sized = length-set b.rbuf (b.end % ring_size) (some m) ∙ r.sized;
    next = omega (arith, r.next, length-append h (m ∷ []));
    held = λ i hi room. elim (dec_lt i (length h)) [
      | yes old ↦ slot-push_old r i old (omega (arith, length-append h (m ∷ [])))
      | no new ↦
          let e : i ≡ length h = omega (arith, length-append h (m ∷ [])) in rw e (slot-push_new r)
    ];
  }

pub apply_seq_ack-Represents :
    (b : BattleBuffer) (h : List BattleMessage) (seq ack : ℕ)
    → Represents b h
    → Represents (apply_seq_ack b seq ack) h
unfolding apply_seq_ack
apply_seq_ack-Represents b h seq ack r = record { sized = r.sized; next = r.next; held = r.held }

-- How many messages one packet carries.
abbrev pub burst : BattleBuffer → ℕ
burst b = min 50 (b.end - b.begin)

send_end-eq :
    (b : BattleBuffer) → b.begin ≤ b.end → b.end + 50 < u32 → send_end b ≡ b.begin + burst b
unfolding send_end
send_end-eq b le fits = ground arith

send_messages :
    (b : BattleBuffer) (h : List BattleMessage)
    → Represents b h
    → 1 ≤ b.begin
    → b.begin ≤ b.end
    → b.end ≤ b.begin + ring_size
    → ring_slice b.rbuf (b.begin % ring_size) ((b.begin + burst b) % ring_size)
      ≡ map some (take (burst b) (drop (b.begin - 1) h))
send_messages b h r pos le near =
    ring_slice-read_at b.rbuf b.begin (burst b) r.sized (omega arith)
    ∙ read_at_congr _ _ b.begin (b.begin - 1) (burst b) (λ i hi.
      let e : b.begin + i ≡ suc (b.begin - 1 + i) = omega arith in
      rw e (r.held (b.begin - 1 + i) (omega (arith, r.next)) (omega (arith, r.next))))
    ∙ get_elem?-read_at h (b.begin - 1) (burst b) (omega (arith, r.next))

-- Where the ring represents a history, with 1 <= begin <= end <= begin + 4096 and end + 50 < 2^32, a packet
-- carries the history's messages from the first unacknowledged one on, in order, at most 50 and no
-- nil, with the number of the last one and the last number received from the peer.
pub get_send_data_lem :
    (b : BattleBuffer) (h : List BattleMessage)
    → Represents b h
    → 1 ≤ b.begin
    → b.begin ≤ b.end
    → b.end ≤ b.begin + ring_size
    → b.end + 50 < u32
    → ((get_send_data b).messages ≡ map some (take (burst b) (drop (b.begin - 1) h)))
      × ((get_send_data b).seq ≡ b.begin - 1 + burst b)
      × ((get_send_data b).ack ≡ b.ack)
unfolding get_send_data
get_send_data_lem b h r pos le near fits =
    rw (send_end-eq b le fits) (send_messages b h r pos le near, omega arith, refl)
