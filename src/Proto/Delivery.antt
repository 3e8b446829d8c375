-- ===== src/Proto/Delivery.antt =====
-- One direction of a battle stream: the sender's ring and numbers (pkg/proto/battlebuf.go), the
-- receiver's ring and filter, and a network between them that may lose, repeat and reorder
-- packets. The steps are those of UDPPeer.OnReceive and of its flush (pkg/battle/udp_peer.go), and
-- of the callbacks of Zproxy.ServeBattle (src/zproxy/main.go).
pub mod Invariant
pub mod Progress
mod Tests
use zdxsv.Prelude.{ℕ, suc, ◌+◌, ◌≤◌, ◌<◌, ◌≡◌, String, List, [], ◌∷◌, ◌++◌, some, map, length, In}
use zdxsv.Proto.BattleBuffer.{
  BattleMessage, BattleBuffer, SendData, ring_size, u32, new_battle_buffer, push_battle_message,
  get_send_data, apply_seq_ack,
}
use zdxsv.Proto.MessageFilter.{MessageFilter, new_message_filter, generate_message, filter_all}

-- `forward` and `backward` hold every packet sent so far, `history` every message written and
-- `delivered` every message passed on; the code has no such lists.
pub record Link : Type 0 where
  pub sender : BattleBuffer
  pub numbers : MessageFilter
  pub receiver : BattleBuffer
  pub inbound : MessageFilter
  pub history : List BattleMessage
  pub delivered : List BattleMessage
  pub forward : List SendData
  pub backward : List SendData

pub new_link : String → String → Link
new_link user peer = record {
  sender = new_battle_buffer user;
  numbers = new_message_filter [];
  receiver = new_battle_buffer peer;
  inbound = new_message_filter (user ∷ []);
  history = [];
  delivered = [];
  forward = [];
  backward = [];
}

-- The console's bytes are numbered and pushed.
pub write : String → List ℕ → Link → Link
write user body l =
    let (msg, numbers) = generate_message l.numbers user body in
    record l {
      sender = push_battle_message l.sender msg;
      numbers = numbers;
      history = l.history ++ msg ∷ [];
    }

pub flush : Link → Link
flush l = record l { forward = get_send_data l.sender ∷ l.forward }

-- OnReceive for a packet with the messages `ms`.
pub receive : SendData → List BattleMessage → Link → Link
receive p ms l =
    let (out, inbound) = filter_all l.inbound ms in
    record l {
      receiver = apply_seq_ack l.receiver p.seq p.ack;
      inbound = inbound;
      delivered = l.delivered ++ out;
    }

-- The other side's flush, of which this direction needs the acknowledgement only.
pub reply : Link → Link
reply l = record l { backward = get_send_data l.receiver ∷ l.backward }

pub acknowledge : SendData → Link → Link
acknowledge q l = record l { sender = apply_seq_ack l.sender q.seq q.ack }

-- What the network may do. A packet with a nil message is refused by the encoder, so a received
-- one has none. The ring holds 4096 messages: a write finds room, and an acknowledgement that
-- comes late is not older than that. Numbers stay below 2 ^ 32.
pub data Step (user : String) (l : Link) : Link → Type 0 where
  writes :
      (body : List ℕ)
      → l.sender.end < l.sender.begin + ring_size
      → l.sender.end + 51 < u32
      → Step user l (write user body l)
  flushes : Step user l (flush l)
  receives :
      (p : SendData) (ms : List BattleMessage)
      → In p l.forward
      → p.messages ≡ map some ms
      → Step user l (receive p ms l)
  replies : Step user l (reply l)
  acknowledges :
      (q : SendData)
      → In q l.backward
      → l.sender.end ≤ q.ack + 1 + ring_size
      → Step user l (acknowledge q l)

pub data Reach (user : String) (l : Link) : Link → Type 0 where
  here : Reach user l l
  next : {k m : Link} → Reach user l k → Step user k m → Reach user l m
