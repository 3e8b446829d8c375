-- ===== src/Proto/MessageFilter.antt =====
-- pkg/proto/battlebuf.go, the receive side: the last number accepted from each user, and the
-- numbers that the peer gives its own messages.
pub mod Runs
mod Tests
use zdxsv.Prelude.{
  ℕ, ◌+◌, ◌%◌, String, Bool, true, false, ◌||◌, List, [], ◌∷◌, Option, none, some, ◌==◌,
  if◌then◌else◌, insert,
}
use zdxsv.Proto.BattleBuffer.{BattleMessage, u32}

pub record MessageFilter : Type 0 where
  pub seq : ℕ
  pub recv_seq : String → Option ℕ

-- The loop of the constructor: every accepted user starts at 0.
pub accept_ids : List String → (String → Option ℕ) → String → Option ℕ
accept_ids [] m = m
accept_ids (id ∷ ids) m = accept_ids ids (insert id 0 m)

unfoldable pub new_message_filter : List String → MessageFilter
unfolding accept_ids
new_message_filter ids = record { seq = 1; recv_seq = accept_ids ids (λ _. none) }

unfoldable pub generate_message : MessageFilter → String → List ℕ → BattleMessage × MessageFilter
generate_message f user_id body =
    (record { user_id = user_id; seq = f.seq; body = body }, record f { seq = (f.seq + 1) % u32 })

pub filter : MessageFilter → BattleMessage → Bool × MessageFilter
filter f msg = elim (f.recv_seq msg.user_id) [
  | none ↦ (false, f)
  | some ack ↦
      if ack == 0 || msg.seq == (ack + 1) % u32
      then (true, record f { recv_seq = insert msg.user_id msg.seq f.recv_seq })
      else (false, f)
]

-- The loop over the messages of one packet: what is passed on, in order.
pub filter_all : MessageFilter → List BattleMessage → List BattleMessage × MessageFilter
filter_all f [] = ([], f)
filter_all f (msg ∷ msgs) =
    let (ok, g) = filter f msg in
    let (out, last) = filter_all g msgs in (if ok then msg ∷ out else out, last)
