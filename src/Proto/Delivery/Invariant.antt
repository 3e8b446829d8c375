-- ===== src/Proto/Delivery/Invariant.antt =====
-- Whatever the network does, the messages passed on are a prefix of those written.
use zdxsv.Prelude.{
  ℕ, suc, ◌+◌, ◌-◌, ◌≤◌, ◌<◌, ◌≡◌, refl, sym, ap, ◌∙◌, String, List, [], ◌∷◌, ◌++◌, some, map, max,
  arith, drop, take, length, str_eq_self, All, In, All-In, All-imp, length-append, length-take,
  length-drop,
}
use zdxsv.Prelude.Reading.{take-drop-append_left, take-append_left, take-splice}
use zdxsv.Proto.BattleBuffer.{
  BattleMessage, SendData, ring_size, u32, new_battle_buffer, push_battle_message, get_send_data,
  apply_seq_ack,
}
use zdxsv.Proto.BattleBuffer.Represents.{
  Represents, new_battle_buffer-Represents, push_battle_message-Represents,
  apply_seq_ack-Represents, burst, get_send_data_lem,
}
use zdxsv.Proto.MessageFilter.{new_message_filter, generate_message, filter_all}
use zdxsv.Proto.MessageFilter.Runs.{IsRun, filter_all-run, IsRun-append, IsRun-take, IsRun-drop}
use zdxsv.Proto.Delivery.{
  Link, new_link, write, flush, receive, reply, acknowledge, Step, Reach, writes, flushes, receives,
  replies, acknowledges, here, next,
}

-- A packet of the messages numbered `from + 1` up to `seq`, with none left out before.
pub record Carries (h : List BattleMessage) (n : ℕ) (p : SendData) : Type 0 where
  pub from : ℕ
  pub count : ℕ
  pub content : p.messages ≡ map some (take count (drop from h))
  pub last : p.seq ≡ from + count
  pub close : from ≤ n
  pub within : from + count ≤ length h

pub record Inv (user : String) (l : Link) : Type 0 where
  pub ring : Represents l.sender l.history
  pub run : IsRun user 1 l.history
  pub numbered : l.numbers.seq ≡ suc (length l.history)
  pub window_low : 1 ≤ l.sender.begin
  pub window_high : l.sender.begin ≤ suc (length l.delivered)
  pub window_wide : l.sender.end ≤ l.sender.begin + ring_size
  pub room : l.sender.end + 50 < u32
  pub accepted : l.inbound.recv_seq user ≡ some (length l.delivered)
  pub prefix : l.delivered ≡ take (length l.delivered) l.history
  pub bounded : length l.delivered ≤ length l.history
  pub acked : l.receiver.ack ≤ length l.delivered
  pub forward_ok : All (Carries l.history (length l.delivered)) l.forward
  pub backward_ok : All (λ q. q.ack ≤ length l.delivered) l.backward

new_link-Inv : (user peer : String) → Inv user (new_link user peer)
unfolding new_link new_battle_buffer new_message_filter
new_link-Inv user peer = record {
  ring = new_battle_buffer-Represents user;
  run = tt;
  numbered = refl;
  window_low = omega arith;
  window_high = omega arith;
  window_wide = omega arith;
  room = omega arith;
  accepted = rw (str_eq_self user);
  prefix = refl;
  bounded = omega arith;
  acked = omega arith;
  forward_ok = tt;
  backward_ok = tt;
}

Carries-append :
    (h : List BattleMessage) (m : BattleMessage) (n : ℕ) (p : SendData)
    → Carries h n p
    → Carries (h ++ m ∷ []) n p
Carries-append h m n p c = record {
  from = c.from;
  count = c.count;
  content =
      c.content ∙ ap (map some) (sym (take-drop-append_left c.count c.from h (m ∷ []) c.within));
  last = c.last;
  close = c.close;
  within = omega (arith, c.within, length-append h (m ∷ []));
}

Carries-mono :
    (h : List BattleMessage) (n k : ℕ) → n ≤ k → (p : SendData) → Carries h n p → Carries h k p
Carries-mono h n k le p c = record {
  from = c.from;
  count = c.count;
  content = c.content;
  last = c.last;
  close = omega (arith, c.close);
  within = c.within;
}

module _ (user : String) (l : Link) (v : Inv user l) where
  write-Inv :
      (body : List ℕ)
      → l.sender.end < l.sender.begin + ring_size
      → l.sender.end + 51 < u32
      → Inv user (write user body l)
  unfolding write generate_message push_battle_message
  write-Inv body room fits =
      let msg = (generate_message l.numbers user body).0 in
      record {
        ring =
            push_battle_message-Represents l.sender l.history msg v.ring
              (omega (arith, v.ring.next));
        run = IsRun-append user 1 l.history msg v.run refl (omega (arith, v.numbered));
        numbered = omega (arith, v.numbered, v.ring.next, length-append l.history (msg ∷ []));
        window_low = v.window_low;
        window_high = v.window_high;
        window_wide = omega arith;
        room = omega arith;
        accepted = v.accepted;
        prefix =
            v.prefix ∙ sym (take-append_left (length l.delivered) l.history (msg ∷ []) v.bounded);
        bounded = omega (arith, v.bounded, length-append l.history (msg ∷ []));
        acked = v.acked;
        forward_ok =
            All-imp _ _ (Carries-append l.history msg (length l.delivered)) l.forward v.forward_ok;
        backward_ok = v.backward_ok;
      }

  send_Carries : Carries l.history (length l.delivered) (get_send_data l.sender)
  send_Carries =
      let (messages, seq, _) =
        get_send_data_lem l.sender l.history v.ring v.window_low (omega (arith, v.ring.next))
          v.window_wide v.room in
      record {
        from = l.sender.begin - 1;
        count = burst l.sender;
        content = messages;
        last = seq;
        close = omega (arith, v.window_high);
        within = omega (arith, v.ring.next, v.window_low);
      }

  flush-Inv : Inv user (flush l)
  unfolding flush
  flush-Inv = record {
    ring = v.ring;
    run = v.run;
    numbered = v.numbered;
    window_low = v.window_low;
    window_high = v.window_high;
    window_wide = v.window_wide;
    room = v.room;
    accepted = v.accepted;
    prefix = v.prefix;
    bounded = v.bounded;
    acked = v.acked;
    forward_ok = (send_Carries, v.forward_ok);
    backward_ok = v.backward_ok;
  }

  reply-Inv : Inv user (reply l)
  unfolding reply get_send_data
  reply-Inv = record {
    ring = v.ring;
    run = v.run;
    numbered = v.numbered;
    window_low = v.window_low;
    window_high = v.window_high;
    window_wide = v.window_wide;
    room = v.room;
    accepted = v.accepted;
    prefix = v.prefix;
    bounded = v.bounded;
    acked = v.acked;
    forward_ok = v.forward_ok;
    backward_ok = (v.acked, v.backward_ok);
  }

  acknowledge-Inv :
      (q : SendData)
      → In q l.backward
      → l.sender.end ≤ q.ack + 1 + ring_size
      → Inv user (acknowledge q l)
  unfolding acknowledge apply_seq_ack
  acknowledge-Inv q sent fresh =
      let known = All-In _ q l.backward v.backward_ok sent in
      record {
        ring = apply_seq_ack-Represents l.sender l.history q.seq q.ack v.ring;
        run = v.run;
        numbered = v.numbered;
        window_low = omega (arith, v.ring.next);
        window_high = omega (arith, v.ring.next);
        window_wide = omega (arith, v.ring.next);
        room = v.room;
        accepted = v.accepted;
        prefix = v.prefix;
        bounded = v.bounded;
        acked = v.acked;
        forward_ok = v.forward_ok;
        backward_ok = v.backward_ok;
      }

map-some_injective : {A : Type 0} (xs ys : List A) → map some xs ≡ map some ys → xs ≡ ys
map-some_injective [] [] e = refl
map-some_injective [] (y ∷ ys) e = cc
map-some_injective (x ∷ xs) [] e = cc
map-some_injective (x ∷ xs) (y ∷ ys) e =
    let tails : map some xs ≡ map some ys = cc in cc (map-some_injective xs ys tails)

module _ (user : String) (l : Link) (v : Inv user l) (p : SendData) (ms : List BattleMessage) where
  -- What the filter passes on continues the prefix delivered so far.
  receive_splice :
      (c : Carries l.history (length l.delivered) p)
      → p.messages ≡ map some ms
      → (l.delivered ++ (filter_all l.inbound ms).0
          ≡ take (max (length l.delivered) (c.from + c.count)) l.history)
        × ((filter_all l.inbound ms).1.recv_seq user
            ≡ some (max (length l.delivered) (c.from + c.count)))
  receive_splice c e =
      let window = take c.count (drop c.from l.history) in
      let same : ms ≡ window = map-some_injective ms window (sym e ∙ c.content) in
      let run : IsRun user (1 + c.from) ms =
        rw same
          (IsRun-take user c.count (1 + c.from) _ (IsRun-drop user c.from 1 l.history v.run)) in
      let size : length ms ≡ c.count = omega (
        arith,
        ap length same,
        length-take c.count (drop c.from l.history),
        length-drop c.from l.history,
        c.within,
      ) in
      let n = length l.delivered in
      let (out, top) =
        filter_all-run user ms l.inbound (1 + c.from) n v.accepted run (omega arith)
          (omega (arith, c.close)) (omega (arith, v.ring.next))
          (omega (arith, v.ring.next, c.within)) in
      let skip : n + 1 - (1 + c.from) ≡ n - c.from = omega arith in
      let last : max n (1 + c.from + length ms - 1) ≡ max n (c.from + c.count) = omega arith in
      (
        ap (λ d. d ++ (filter_all l.inbound ms).0) v.prefix
            ∙ ap (◌++◌ (take n l.history))
                (out ∙ ap (λ k. drop k ms) skip ∙ ap (drop (n - c.from)) same)
            ∙ take-splice c.from n c.count l.history c.close v.bounded,
        top ∙ ap some last,
      )

  receive-Inv_at :
      Carries l.history (length l.delivered) p
      → p.messages ≡ map some ms
      → Inv user (receive p ms l)
  unfolding receive apply_seq_ack
  receive-Inv_at c e =
      let (spliced, top) = receive_splice c e in
      let n = length l.delivered in
      let k = max n (c.from + c.count) in
      let delivered = l.delivered ++ (filter_all l.inbound ms).0 in
      let size : length delivered ≡ k =
        omega (arith, ap length spliced, length-take k l.history, c.within, v.bounded) in
      record {
        ring = v.ring;
        run = v.run;
        numbered = v.numbered;
        window_low = v.window_low;
        window_high = omega (arith, v.window_high);
        window_wide = v.window_wide;
        room = v.room;
        accepted = top ∙ ap some (sym size);
        prefix = spliced ∙ ap (λ m. take m l.history) (sym size);
        bounded = omega (arith, c.within, v.bounded);
        acked = omega (arith, c.last);
        forward_ok =
            All-imp _ _ (Carries-mono l.history n (length delivered) (omega arith)) l.forward
              v.forward_ok;
        backward_ok = All-imp _ _ (λ q (h : q.ack ≤ n). omega arith) l.backward v.backward_ok;
      }

Step-Inv : {user : String} {l m : Link} → Step user l m → Inv user l → Inv user m
Step-Inv {user} {l} (writes body room fits) v = write-Inv user l v body room fits
Step-Inv {user} {l} flushes v = flush-Inv user l v
Step-Inv {user} {l} (receives p ms sent e) v =
    receive-Inv_at user l v p ms (All-In _ p l.forward v.forward_ok sent) e
Step-Inv {user} {l} replies v = reply-Inv user l v
Step-Inv {user} {l} (acknowledges q sent fresh) v = acknowledge-Inv user l v q sent fresh

pub Reach-Inv : {user : String} {l m : Link} → Inv user l → Reach user l m → Inv user m
Reach-Inv v here = v
Reach-Inv v (next r s) = Step-Inv s (Reach-Inv v r)

pub reached-Inv : (user peer : String) (l : Link) → Reach user (new_link user peer) l → Inv user l
reached-Inv user peer l r = Reach-Inv (new_link-Inv user peer) r

-- Whatever the network does, the messages passed on are the first ones written, in the order of
-- writing: none is lost in between, none comes twice.
pub delivered-prefix :
    (user peer : String) (l : Link)
    → Reach user (new_link user peer) l
    → l.delivered ≡ take (length l.delivered) l.history
delivered-prefix user peer l r = (reached-Inv user peer l r).prefix
