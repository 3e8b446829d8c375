-- ===== src/Proto/BattleBuffer.antt =====
-- pkg/proto/battlebuf.go, the send side: a ring of the messages that one peer has yet to
-- acknowledge. Each method holds the buffer's lock throughout, so a call is one step.
pub mod Window
pub mod Represents
mod Tests
use zdxsv.Prelude.{
  ℕ, suc, ◌+◌, ◌-◌, ◌%◌, ◌^◌, String, List, [], ◌++◌, Option, none, some, ltb, leb, if◌then◌else◌,
  set, take, drop, replicate,
}

-- The fields of the protobuf message that the code reads; `body` is the game's bytes.
pub record BattleMessage : Type 0 where
  pub user_id : String
  pub seq : ℕ
  pub body : List ℕ

abbrev pub ring_size : ℕ
ring_size = 4096

-- A uint32 wraps at this value.
abbrev pub u32 : ℕ
u32 = 2 ^ 32

-- `none` in the ring is a nil pointer.
pub record BattleBuffer : Type 0 where
  pub id : String
  pub ack : ℕ
  pub begin : ℕ
  pub end : ℕ
  pub rbuf : List (Option BattleMessage)

unfoldable pub new_battle_buffer : String → BattleBuffer
new_battle_buffer id = record {
  id = id;
  ack = 0;
  begin = 1;
  end = 1;
  rbuf = replicate ring_size none;
}

pub set_id : BattleBuffer → String → BattleBuffer
set_id b id = record b { id = id }

pub get_id : BattleBuffer → String
get_id b = b.id

unfoldable pub push_battle_message : BattleBuffer → BattleMessage → BattleBuffer
push_battle_message b msg = record b {
  rbuf = set b.rbuf (b.end % ring_size) (some msg);
  end = (b.end + 1) % u32;
}

-- `e` of `GetSendData`: at most 50 messages are sent at once.
unfoldable pub send_end : BattleBuffer → ℕ
send_end b = if ltb ((b.begin + 50) % u32) b.end then (b.begin + 50) % u32 else b.end

-- The ring from index `l` up to `r`, in two parts where it runs over the end of the slice.
unfoldable pub ring_slice : List (Option BattleMessage) → ℕ → ℕ → List (Option BattleMessage)
ring_slice rbuf l r = if leb l r then take (r - l) (drop l rbuf) else drop l rbuf ++ take r rbuf

pub record SendData : Type 0 where
  pub messages : List (Option BattleMessage)
  pub seq : ℕ
  pub ack : ℕ

-- `e - 1` is a uint32 difference.
unfoldable pub get_send_data : BattleBuffer → SendData
get_send_data b = record {
  messages = ring_slice b.rbuf (b.begin % ring_size) (send_end b % ring_size);
  seq = (send_end b + u32 - 1) % u32;
  ack = b.ack;
}

unfoldable pub apply_seq_ack : BattleBuffer → ℕ → ℕ → BattleBuffer
apply_seq_ack b seq ack = record b { begin = (ack + 1) % u32; ack = seq }
