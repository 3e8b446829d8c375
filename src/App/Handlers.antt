-- ===== src/App/Handlers.antt =====
-- pkg/lobby/app.go: a message from a peer, its handler, and the answer.
pub mod Rooms
pub mod Lobbies
pub mod Battles
pub mod Serve
pub mod Kept
pub mod Answers
pub mod LobbyAnswers
pub mod RoomAnswers
pub mod Answering
mod Tests
use zdxsv.Prelude.{
  ℕ, ◌+◌, ◌==◌, String, Bool, true, false, List, [], ◌∷◌, ◌++◌, Option, none, some, if◌then◌else◌,
}
use zdxsv.Model.Rule.{Rule}
use zdxsv.Message.{Message, new_server_answer, status_error}
use zdxsv.Message.Body.{read8, read16, read_encrypted_string, sync, write_string}
use zdxsv.App.{Sent, reply, App, put_at}
use zdxsv.App.Start.{Outside}
use zdxsv.App.SignIn.{Accounts}

-- The coders: a string and its bytes, and Shift JIS.
pub record Coders : Type 0 where
  pub bytes : String → List ℕ
  pub text : List ℕ → String
  pub encode : List ℕ → List ℕ
  pub decode : List ℕ → List ℕ

-- What the handlers read beside the state and the message.
pub record Context : Type 0 where
  pub coders : Coders
  pub outside : Outside
  pub accounts : Accounts
  pub is_fingerprint : String → Bool
  pub lobby_rule : Option Rule

-- The function type `MessageHandler`, with the state.
abbrev pub Handler : Type 0
Handler = Context → App → ℕ → Message → App

-- `p.SendMessage` of an answer.
abbrev pub answer : App → ℕ → Message → App
answer a p m = record a { mail = put_at a.mail p (a.mail p ++ reply m ∷ []) }

-- `NewServerAnswer(m)` with what its writer has written.
abbrev pub answer_body : App → ℕ → Message → List ℕ → App
answer_body a p m body = answer a p (sync (new_server_answer m) body)

abbrev pub answer_empty : App → ℕ → Message → App
answer_empty a p m = answer a p (new_server_answer m)

abbrev pub answer_error : App → ℕ → Message → List ℕ → App
answer_error a p m body =
    answer a p (record (sync (new_server_answer m) body) { status = status_error })

abbrev pub first16 : Message → ℕ
first16 m = (read16 m.body).0

abbrev pub first8 : Message → ℕ
first8 m = (read8 m.body).0

-- The first two and the third field of a body that begins with a uint16 and two bytes.
abbrev pub second8 : Message → ℕ
second8 m = (read8 (read16 m.body).1).0

abbrev pub third8 : Message → ℕ
third8 m = (read8 (read8 (read16 m.body).1).1).0

-- `ReadEncryptedString` with the message's number, as a string, and the bytes behind it.
abbrev pub read_text : Context → Message → List ℕ → String × List ℕ
read_text c m bytes =
    let (s, rest) = read_encrypted_string c.coders.decode m.seq bytes in (c.coders.text s, rest)

abbrev pub write_text : Context → List ℕ → String → List ℕ
write_text c buf s = write_string c.coders.encode buf (c.coders.bytes s)
