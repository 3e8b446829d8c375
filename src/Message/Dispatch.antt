-- ===== src/Message/Dispatch.antt =====
-- pkg/lobby/server.go: a connection's buffers, the messages sent and those dispatched.
pub mod Order
pub mod Ending
use zdxsv.Prelude.{
  ℕ, zero, suc, ◌+◌, ◌≤◌, ◌<◌, ◌≡◌, refl, ap, ◌∙◌, List, [], ◌∷◌, ◌++◌, if◌then◌else◌, ltb, length,
  take, drop, arith, length-append, length-drop, map, true, false,
}
use zdxsv.Message.{
  Message, header_size, sized, serialize, Parsed, incomplete, parsed, crash, deserialize,
}
use zdxsv.Message.Codec.{IsEncodable, deserialize-serialize, deserialize-take}

-- `SendMessage`: the message's bytes go behind the output buffer's.
pub send_message : List ℕ → Message → List ℕ
send_message outbuf m = outbuf ++ (serialize m).0

-- What one round of the dispatch loop gives the peer, in order, and how it ends: it waits for more
-- bytes with those left, it closes the connection, it panics.
pub data Round : Type 0 where
  waiting : List Message → List ℕ → Round
  closed : List Message → Round
  panicked : List Message → Round
  out_of_fuel : Round

abbrev on_message : Message → Round → Round
on_message m (waiting ms inbuf) = waiting (m ∷ ms) inbuf
on_message m (closed ms) = closed (m ∷ ms)
on_message m (panicked ms) = panicked (m ∷ ms)
on_message m out_of_fuel = out_of_fuel

abbrev handle : Parsed → (ℕ → Round) → Round
handle incomplete next = closed []
handle crash next = panicked []
handle (parsed n m) next = on_message m (next n)

pub dispatch : ℕ → List ℕ → Round
dispatch zero inbuf = out_of_fuel
dispatch (suc fuel) inbuf =
    if ltb (length inbuf) header_size
    then waiting [] inbuf
    else handle (deserialize inbuf) (λ n. dispatch fuel (drop n inbuf))
