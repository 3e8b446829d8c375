-- ===== src/Battle/TcpPeer.antt =====
-- pkg/battle/tcp_peer.go: the read loop of a console's TCP connection, read by read.
pub mod Frames
pub mod Reads
mod Tests
use zdxsv.Prelude.{
  ℕ, zero, suc, ◌+◌, ◌%◌, String, List, [], ◌∷◌, ◌++◌, Option, none, some, Bool, true, false,
  if◌then◌else◌, leb, ltb, ◌==◌, length, take, drop,
}
use zdxsv.Proto.BattleBuffer.{BattleMessage, u32}
use zdxsv.Battle.Logic.{is_fin_data}

-- `in_room` is that `room` is not nil, `inbuf` the local of the loop.
pub record TcpPeer : Type 0 where
  pub user_id : String
  pub in_room : Bool
  pub seq : ℕ
  pub inbuf : List ℕ

abbrev pub new_tcp_peer : TcpPeer
new_tcp_peer = record { user_id = ""; in_room = false; seq = 1; inbuf = [] }

-- How the loop over the frames ends: at a frame of size zero, or with the whole frames and the bytes
-- left.
pub data Framed : Type 0 where
  zero_size : Framed
  framed : List ℕ → List ℕ → Framed
  out_of_fuel : Framed

-- `tmp` has the frames taken so far.
pub take_frames : ℕ → List ℕ → List ℕ → Framed
take_frames fuel tmp [] = framed tmp []
take_frames zero tmp (b ∷ bytes) = out_of_fuel
take_frames (suc fuel) tmp (b ∷ bytes) =
    let rest = take_frames fuel (tmp ++ take b (b ∷ bytes)) (drop b (b ∷ bytes)) in
    if b == 0
    then zero_size
    else if leb b (length (b ∷ bytes))
    then rest
    else framed tmp (b ∷ bytes)

-- What one read leads to: the loop ends, it goes on, it asks to join by the ten bytes of the session, or
-- it sends a message to the room and goes on.
pub data Event : Type 0 where
  ended : Event
  goes_on : TcpPeer → Event
  asks : List ℕ → TcpPeer → Event
  sends : BattleMessage → TcpPeer → Event
  stuck : Event

abbrev forward : TcpPeer → Framed → Event
forward u zero_size = ended
forward u (framed [] rest) = goes_on (record u { inbuf = rest })
forward u (framed (b ∷ tmp) rest) =
    sends (record { user_id = u.user_id; seq = u.seq; body = b ∷ tmp })
      (record u { inbuf = rest; seq = (u.seq + 1) % u32 })
forward u out_of_fuel = stuck

-- A frame takes a byte at least, so as many rounds as there are bytes are enough.
abbrev receive : TcpPeer → List ℕ → Event
receive u inbuf =
    if u.in_room
    then forward u (take_frames (length inbuf) [] inbuf)
    else if ltb (length inbuf) 22
    then goes_on (record u { inbuf = inbuf })
    else asks (take 10 (drop 12 inbuf)) (record u { inbuf = [] })

pub read : TcpPeer → List ℕ → Event
read u chunk = if is_fin_data chunk then ended else receive u (u.inbuf ++ chunk)

-- `logic.Join` has given a room and the user's id.
pub admit : TcpPeer → String → TcpPeer
admit u user_id = record u { user_id = user_id; in_room = true }

-- Several reads in a room: the messages sent, or none where the loop ends.
abbrev add_message :
    BattleMessage → Option (List BattleMessage × TcpPeer) → Option (List BattleMessage × TcpPeer)
add_message m none = none
add_message m (some (ms, u)) = some (m ∷ ms, u)

abbrev after_read :
    Event
    → (TcpPeer → Option (List BattleMessage × TcpPeer))
    → Option (List BattleMessage × TcpPeer)
after_read ended next = none
after_read (goes_on u) next = next u
after_read (asks value u) next = none
after_read (sends m u) next = add_message m (next u)
after_read stuck next = none

pub read_all : TcpPeer → List (List ℕ) → Option (List BattleMessage × TcpPeer)
read_all u [] = some ([], u)
read_all u (chunk ∷ chunks) = after_read (read u chunk) (λ v. read_all v chunks)
