-- ===== src/App/Handlers/Answers.antt =====
-- What it is to answer a message, and the handlers that answer in more than one way.
use zdxsv.Prelude.{
  ℕ, String, Bool, true, false, List, [], ◌∷◌, ◌++◌, Option, none, some, ◌≡◌, refl, ap, ◌∙◌,
  if◌then◌else◌, ltb,
}
use zdxsv.Model.User.{User}
use zdxsv.Model.Rule.{Rule}
use zdxsv.Message.{Message, new_server_answer, category_answer, server_to_client}
use zdxsv.Message.Body.{sync, read8, write8, write16}
use zdxsv.App.{Sent, notice, reply, App, put_at}
use zdxsv.App.SignIn.{on_decide_user_id}
use zdxsv.App.Rooms.{on_request_create_room, on_decide_rule}
use zdxsv.App.Members.{replies}
use zdxsv.App.Members.Frames.{put_at-map}
use zdxsv.App.Members.Enters.{view-on_decide_rule}
use zdxsv.App.Handlers.{
  Context, Handler, answer, answer_body, answer_empty, answer_error, first16, read_text,
}
use zdxsv.App.Handlers.Rooms.{request_create_room, decide_rule}
use zdxsv.App.Handlers.Lobbies.{decide_user_id}
use zdxsv.App.Handlers.Battles.{
  answer_number, opponent_user, opponent_status, rule_answer, code_answer,
}
use zdxsv.App.Handlers.Kept.{answers, answers-on_request_create_room, answers-on_decide_user_id}

-- An answer to the message, with its command and number.
abbrev pub Answers : Message → Message → Type 0
Answers m r =
    (r.category ≡ category_answer)
    × (r.direction ≡ server_to_client)
    × (r.command ≡ m.command)
    × (r.seq ≡ m.seq)

-- Between the two states the peer was sent one answer, to the message, and nobody else was sent any.
abbrev pub IsAnswered : App → App → ℕ → Message → Type 0
IsAnswered a b p m =
    (r : Message) × (answers b ≡ put_at (answers a) p (answers a p ++ r ∷ [])) × Answers m r

replies-reply : (s : List Sent) (r : Message) → replies (s ++ reply r ∷ []) ≡ replies s ++ r ∷ []
replies-reply [] r = refl
replies-reply (notice n ∷ s) r = replies-reply s r
replies-reply (reply m ∷ s) r = ap (◌∷◌ m) (replies-reply s r)

module _ (a b : App) (p : ℕ) (m : Message) (kept : answers b ≡ answers a) where
  answer-IsAnswered : (r : Message) → Answers m r → IsAnswered a (answer b p r) p m
  answer-IsAnswered r e = (
    r,
    put_at-map replies b.mail p (b.mail p ++ reply r ∷ [])
        ∙ ap (put_at (answers b) p) (replies-reply (b.mail p) r)
        ∙ ap (λ f. put_at f p (f p ++ r ∷ [])) kept,
    e,
  )

  pub body-IsAnswered : (bytes : List ℕ) → IsAnswered a (answer_body b p m bytes) p m
  unfolding sync new_server_answer
  body-IsAnswered bytes = answer-IsAnswered _ (refl, refl, refl, refl)

  pub empty-IsAnswered : IsAnswered a (answer_empty b p m) p m
  unfolding new_server_answer
  empty-IsAnswered = answer-IsAnswered _ (refl, refl, refl, refl)

  error-IsAnswered : (bytes : List ℕ) → IsAnswered a (answer_error b p m bytes) p m
  unfolding sync new_server_answer
  error-IsAnswered bytes = answer-IsAnswered _ (refl, refl, refl, refl)

if-IsAnswered :
    (t : Bool) (a b c : App) (p : ℕ) (m : Message)
    → IsAnswered a b p m
    → IsAnswered a c p m
    → IsAnswered a (if t then b else c) p m
if-IsAnswered true a b c p m e f = e
if-IsAnswered false a b c p m e f = f

-- The handler answers, whatever the state and the message.
abbrev pub IsAnswering : ℕ × Handler → Type 0
IsAnswering (id, f) = (c : Context) (a : App) (p : ℕ) (m : Message) → IsAnswered a (f c a p m) p m

pub asks :
    (a : App) (p : ℕ) (m : Message) (bytes : List ℕ) → IsAnswered a (answer_body a p m bytes) p m
asks a p m bytes = body-IsAnswered a a p m refl bytes

fails :
    (a : App) (p : ℕ) (m : Message) (bytes : List ℕ) → IsAnswered a (answer_error a p m bytes) p m
fails a p m bytes = error-IsAnswered a a p m refl bytes

pub request_create_room-IsAnswering :
    (c : Context) (a : App) (p : ℕ) (m : Message) → IsAnswered a (request_create_room c a p m) p m
request_create_room-IsAnswering c a p m =
    let (ok, b) = on_request_create_room a p (first16 m) in
    let kept : answers b ≡ answers a = answers-on_request_create_room a p (first16 m) in
    if-IsAnswered ok a _ _ p m (body-IsAnswered a b p m kept (write16 [] (first16 m)))
      (error-IsAnswered a b p m kept _)

pub decide_rule-IsAnswering :
    (c : Context) (a : App) (p : ℕ) (m : Message) → IsAnswered a (decide_rule c a p m) p m
decide_rule-IsAnswering c a p m =
    let (rule_id, rest) = read8 m.body in
    let (nazo, b) = on_decide_rule a p rule_id (read8 rest).0 in
    body-IsAnswered a b p m (ap (λ w. w.answers) (view-on_decide_rule a p rule_id (read8 rest).0))
      (write8 [] nazo)

pub decide_user_id-IsAnswering :
    (c : Context) (a : App) (p : ℕ) (m : Message) → IsAnswered a (decide_user_id c a p m) p m
decide_user_id-IsAnswering c a p m =
    let (user_id, rest) = read_text c m m.body in
    let name = (read_text c m rest).0 in
    body-IsAnswered a (on_decide_user_id c.accounts a p user_id name) p m
      (answers-on_decide_user_id c.accounts a p user_id name) _

pub number-IsAnswered :
    (a : App) (p : ℕ) (m : Message) (n : ℕ) → IsAnswered a (answer_number a p m n) p m
number-IsAnswered a p m n =
    if-IsAnswered (ltb 0 n) a _ _ p m (asks a p m (write8 [] n)) (fails a p m [])

pub opponent_user-IsAnswered :
    (c : Context) (a : App) (p : ℕ) (m : Message) (o : Option User)
    → IsAnswered a (opponent_user c a p m o) p m
opponent_user-IsAnswered c a p m none = fails a p m _
opponent_user-IsAnswered c a p m (some u) = asks a p m _

pub opponent_status-IsAnswered :
    (a : App) (p : ℕ) (m : Message) (o : Option User) → IsAnswered a (opponent_status a p m o) p m
opponent_status-IsAnswered a p m none = fails a p m _
opponent_status-IsAnswered a p m (some u) = asks a p m _

pub rule-IsAnswered :
    (a : App) (p : ℕ) (m : Message) (o : Option Rule) → IsAnswered a (rule_answer a p m o) p m
rule-IsAnswered a p m none = fails a p m []
rule-IsAnswered a p m (some rule) = asks a p m _

pub code-IsAnswered :
    (c : Context) (a : App) (p : ℕ) (m : Message) (o : Option String)
    → IsAnswered a (code_answer c a p m o) p m
code-IsAnswered c a p m none = fails a p m []
code-IsAnswered c a p m (some code) = asks a p m _
