-- ===== src/App/Handlers/Tests.antt =====
-- A peer outside of lobbies asks how many users a lobby has.
use zdxsv.Prelude.{ℕ, true, false, List, [], ◌∷◌, none, ◌≡◌, refl, arith}
use zdxsv.Model.Lobby.{new_lobby}
use zdxsv.Message.{Message, new_server_answer, category_question, client_to_server}
use zdxsv.Message.Body.{sync, read16, write16}
use zdxsv.App.{new_app}
use zdxsv.App.Lobbies.{on_get_lobby_user_count}
use zdxsv.App.Handlers.{Context, Handler}
use zdxsv.App.Handlers.Kept.{answers}
use zdxsv.App.Handlers.Serve.{serve_message, registered, commands, other_commands}
use zdxsv.App.Handlers.Answering.{IsServed, serve_message-IsServed}

abbrev context : Context
context = record {
  coders = record { bytes = λ s. []; text = λ b. ""; encode = λ b. b; decode = λ b. b };
  outside = record {
    now = 0;
    code = "";
    session = 0;
    answers = true;
    public_addr = none;
    saves = λ id. true;
  };
  accounts = record {
    register_user = none;
    get_user_list = none;
    last_user = none;
    get_user = λ id. none;
    login_user = λ u. true;
    update_user = λ u. true;
  };
  is_fingerprint = λ s. false;
  lobby_rule = none;
}

-- GetLobbyUserCount for lobby 5, the question number 9.
abbrev question : Message
question = record {
  direction = client_to_server;
  category = category_question;
  command = 0x6303;
  body_size = 2;
  seq = 9;
  status = 0;
  body = 0 ∷ 5 ∷ [];
}

first_body : List Message → List ℕ
first_body [] = []
first_body (m ∷ ms) = m.body

-- For the handlers that are not modelled, ones that do nothing.
idle : List ℕ → List (ℕ × Handler)
idle [] = []
idle (k ∷ ks) = (k, λ c a p m. a) ∷ idle ks

answer_bytes :
    first_body
      (answers (serve_message (registered (idle other_commands)) context new_app 3 question) 3)
    ≡ 0 ∷ 5 ∷ 0 ∷ 0 ∷ []
unfolding first_body idle on_get_lobby_user_count sync new_server_answer read16 write16 new_lobby
answer_bytes = refl

idle-commands : commands (idle other_commands) ≡ other_commands
unfolding idle
idle-commands = refl

abbrev silent_question : Message
silent_question = record question { command = 0x6141 }

not_answered :
    answers (serve_message (registered (idle other_commands)) context new_app 3 silent_question) 3
    ≡ []
unfolding idle
not_answered = refl

serve_message-IsServed_example :
    IsServed new_app
      (serve_message (registered (idle other_commands)) context new_app 3 question)
      3
      question
      none
serve_message-IsServed_example =
    serve_message-IsServed (idle other_commands) context new_app 3 question idle-commands refl (
      λ e. absurd (grind (arith, e)),
      (
        λ e. absurd (grind (arith, e)),
        (
          λ e. absurd (grind (arith, e)),
          (
            λ e. absurd (grind (arith, e)),
            (
              λ e. absurd (grind (arith, e)),
              (
                λ e. absurd (grind (arith, e)),
                (
                  λ e. absurd (grind (arith, e)),
                  (
                    λ e. absurd (grind (arith, e)),
                    (
                      λ e. absurd (grind (arith, e)),
                      (
                        λ e. absurd (grind (arith, e)),
                        (
                          λ e. absurd (grind (arith, e)),
                          (λ e. absurd (grind (arith, e)), (λ e. absurd (grind (arith, e)), tt)),
                        ),
                      ),
                    ),
                  ),
                ),
              ),
            ),
          ),
        ),
      ),
    )
