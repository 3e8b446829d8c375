-- ===== src/Message.antt =====
-- pkg/lobby/message/message.go: the messages between the console and the lobby.
pub mod Codec
pub mod Dispatch
pub mod Body
mod Tests
use zdxsv.Prelude.{
  ℕ, ◌+◌, ◌-◌, ◌%◌, List, [], ◌∷◌, ◌++◌, Option, none, some, if◌then◌else◌, ltb, length, take, drop,
}
use zdxsv.Prelude.Bytes.{be16, be32, from16, from32}

abbrev pub header_size : ℕ
header_size = 12

abbrev pub server_to_client : ℕ
server_to_client = 0x18

abbrev pub client_to_server : ℕ
client_to_server = 0x81

abbrev pub category_question : ℕ
category_question = 0x01

abbrev pub category_answer : ℕ
category_answer = 0x02

abbrev pub category_notice : ℕ
category_notice = 0x10

abbrev pub status_error : ℕ
status_error = 0xffffffff

abbrev pub status_success : ℕ
status_success = 0x00ffffff

pub record Message : Type 0 where
  pub direction : ℕ
  pub category : ℕ
  pub command : ℕ
  pub body_size : ℕ
  pub seq : ℕ
  pub status : ℕ
  pub body : List ℕ

-- The bytes; `Serialize` also sets the message's `BodySize`, a uint16.
pub sized : Message → Message
sized m = record m { body_size = length m.body % 65536 }

abbrev pub header : Message → List ℕ
header m =
    m.direction ∷ m.category ∷ be16 m.command ++ be16 m.body_size ++ be16 m.seq ++ be32 m.status

pub serialize : Message → List ℕ × Message
serialize m = let s = sized m in (header s ++ s.body, s)

-- `none` and 0 bytes where the data is too short; `crash` is the panic of a slice whose end,
-- a uint16 sum, has wrapped to a place before its beginning.
pub data Parsed : Type 0 where
  incomplete : Parsed
  parsed : ℕ → Message → Parsed
  crash : Parsed

-- The part behind the test of the header's length.
pub parse_body : Message → List ℕ → List ℕ → Parsed
parse_body m bytes tail =
    if ltb (length bytes) (header_size + m.body_size)
    then incomplete
    else if ltb ((header_size + m.body_size) % 65536) header_size
    then crash
    else parsed ((header_size + m.body_size) % 65536)
        (record m { body = take ((header_size + m.body_size) % 65536 - header_size) tail })

pub deserialize : List ℕ → Parsed
deserialize (d ∷ c ∷ c1 ∷ c0 ∷ b1 ∷ b0 ∷ s1 ∷ s0 ∷ t3 ∷ t2 ∷ t1 ∷ t0 ∷ tail) =
    parse_body
      (record {
        direction = d;
        category = c;
        command = from16 c1 c0;
        body_size = from16 b1 b0;
        seq = from16 s1 s0;
        status = from32 t3 t2 t1 t0;
        body = [];
      })
      (d ∷ c ∷ c1 ∷ c0 ∷ b1 ∷ b0 ∷ s1 ∷ s0 ∷ t3 ∷ t2 ∷ t1 ∷ t0 ∷ tail) tail
deserialize _ = incomplete

-- `sequenceGenerator`: `n` is the counter, an int32 as its bit pattern. `%` takes the sign of its
-- left side, and the conversion to uint16 wraps.
pub next_seq : ℕ → ℕ × ℕ
next_seq n =
    let m = (n + 1) % 4294967296 in
    if ltb m 2147483648 then (m % 65535, m) else ((65536 - (4294967296 - m) % 65535) % 65536, m)

abbrev make : ℕ → ℕ → ℕ → ℕ → Message
make direction category command seq = record {
  direction = direction;
  category = category;
  command = command;
  body_size = 0;
  seq = seq;
  status = status_success;
  body = [];
}

-- A question or a notice takes the next number, an answer the number of its request.
pub new_server_question : ℕ → ℕ → Message × ℕ
new_server_question n command =
    let (seq, m) = next_seq n in (make server_to_client category_question command seq, m)

unfoldable pub new_server_answer : Message → Message
new_server_answer request = make server_to_client category_answer request.command request.seq

pub new_server_notice : ℕ → ℕ → Message × ℕ
new_server_notice n command =
    let (seq, m) = next_seq n in (make server_to_client category_notice command seq, m)

pub new_client_question : ℕ → ℕ → Message × ℕ
new_client_question n command =
    let (seq, m) = next_seq n in (make client_to_server category_question command seq, m)

pub new_client_answer : Message → Message
new_client_answer request = make client_to_server category_answer request.command request.seq

pub new_client_notice : ℕ → ℕ → Message × ℕ
new_client_notice n command =
    let (seq, m) = next_seq n in (make client_to_server category_notice command seq, m)
