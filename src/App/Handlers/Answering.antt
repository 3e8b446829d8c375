-- ===== src/App/Handlers/Answering.antt =====
-- Every question of a peer is answered once: the handlers about battles, and all of them together.
use mathlib.Core.Path.{subst}
use native.Mathlib.Decide.{ℕ_discrete}
use zdxsv.Prelude.{Option, none, some}
use zdxsv.App.Handlers.Kept.{answers}
use zdxsv.Prelude.{==_ne, sym, ◌≢◌}
use zdxsv.App.Members.Queues.{view-on_notice_room_battle_start}
use zdxsv.Prelude.{ℕ, List, [], ◌∷◌, ◌++◌, ◌≡◌, refl, ap, inl, inr, ◌==◌, All, Bool-cases, ==_iff}
use zdxsv.Message.{Message, category_question}
use zdxsv.Message.Body.{write16}
use zdxsv.App.{App}
use zdxsv.App.Lobbies.{
  on_enter_battle_after_room, on_exit_battle_after_room, on_get_battle_after_room_user_count,
  on_get_battle_user_count, on_get_battle_user_position, on_get_battle_opponent_user,
  on_get_battle_rule, on_get_battle_code,
}
use zdxsv.App.Members.Leaves.{view-on_exit_battle_after_room}
use zdxsv.App.Members.Returns.{
  view-on_enter_battle_after_room, view-on_get_battle_after_room_user_count,
}
use zdxsv.App.Handlers.{Context, Handler, first8}
use zdxsv.App.Handlers.Rooms.{room_handlers}
use zdxsv.App.Handlers.Lobbies.{lobby_handlers, login_handlers}
use zdxsv.App.Handlers.Battles.{battle_handlers}
use zdxsv.App.Handlers.Serve.{
  run_handler, handler_of, serve_message, answering, silent, commands, other_commands, registered,
}
use zdxsv.App.Handlers.Answers.{
  IsAnswered, IsAnswering, body-IsAnswered, empty-IsAnswered, number-IsAnswered,
  opponent_user-IsAnswered, opponent_status-IsAnswered, rule-IsAnswered, code-IsAnswered,
}
use zdxsv.App.Handlers.LobbyAnswers.{lobby_handlers-IsAnswering, login_handlers-IsAnswering}
use zdxsv.App.Handlers.RoomAnswers.{room_handlers-IsAnswering}

battle_handlers-IsAnswering : All IsAnswering battle_handlers
battle_handlers-IsAnswering = (
  λ c a p m. number-IsAnswered a p m (on_get_battle_user_count a p),
  (
    λ c a p m. number-IsAnswered a p m (on_get_battle_user_position a p),
    (
      λ c a p m. opponent_user-IsAnswered c a p m (on_get_battle_opponent_user a p (first8 m)),
      (
        λ c a p m. opponent_status-IsAnswered a p m (on_get_battle_opponent_user a p (first8 m)),
        (
          λ c a p m. rule-IsAnswered a p m (on_get_battle_rule a p),
          (
            λ c a p m. code-IsAnswered c a p m (on_get_battle_code a p),
            (
              λ c a p m.
                  empty-IsAnswered a (on_enter_battle_after_room a p) p m
                    (ap (λ w. w.answers) (view-on_enter_battle_after_room a p)),
              (
                λ c a p m.
                    empty-IsAnswered a (on_exit_battle_after_room a p) p m
                      (ap (λ w. w.answers) (view-on_exit_battle_after_room a p)),
                (
                  λ c a p m.
                      body-IsAnswered a (on_get_battle_after_room_user_count a p).1 p m
                        (ap (λ w. w.answers) (view-on_get_battle_after_room_user_count a p))
                        (write16 [] (on_get_battle_after_room_user_count a p).0),
                  tt,
                ),
              ),
            ),
          ),
        ),
      ),
    ),
  ),
)

All-both :
    (hs ks : List (ℕ × Handler))
    → All IsAnswering hs
    → All IsAnswering ks
    → All IsAnswering (hs ++ ks)
All-both [] ks a b = b
All-both (h ∷ hs) ks (e, a) b = (e, All-both hs ks a b)

answering-IsAnswering : All IsAnswering answering
answering-IsAnswering =
    All-both room_handlers (lobby_handlers ++ login_handlers ++ battle_handlers)
      room_handlers-IsAnswering
      (All-both lobby_handlers (login_handlers ++ battle_handlers) lobby_handlers-IsAnswering (
        All-both login_handlers battle_handlers login_handlers-IsAnswering
          battle_handlers-IsAnswering))

module _ (c : Context) (a : App) (p : ℕ) (m : Message) where
  -- Handlers in front that answer.
  serve_all :
      (hs ks : List (ℕ × Handler))
      → All IsAnswering hs
      → IsAnswered a (serve_message ks c a p m) p m
      → IsAnswered a (serve_message (hs ++ ks) c a p m) p m
  serve_all [] ks all rest = rest
  serve_all ((id, f) ∷ hs) ks (e, all) rest = elim (Bool-cases (m.command == id)) [
    | inl h ↦ rw h (e c a p m)
    | inr h ↦ rw h (serve_all hs ks all rest)
  ]

  -- No handler at all.
  serve_none :
      (hs : List (ℕ × Handler))
      → m.category ≡ category_question
      → All (λ k. m.command ≢ k) (commands hs)
      → IsAnswered a (serve_message hs c a p m) p m
  serve_none [] q n = rw ((==_iff m.category category_question).1 q) (empty-IsAnswered a a p m refl)
  serve_none ((id, f) ∷ hs) q (d, n) = rw (==_ne m.command id d) (serve_none hs q n)

All-append :
    (P : ℕ → Type 0) (hs ks : List (ℕ × Handler))
    → All P (commands hs)
    → All P (commands ks)
    → All P (commands (hs ++ ks))
All-append P [] ks a b = b
All-append P ((id, f) ∷ hs) ks (e, a) b = (e, All-append P hs ks a b)

-- What a message with a handler of `silent`, or without one, leads to.
abbrev pub IsServed : App → App → ℕ → Message → Option Handler → Type 0
IsServed a b p m (some f) = answers b ≡ answers a
IsServed a b p m none = IsAnswered a b p m

module _ (others : List (ℕ × Handler)) (c : Context) (a : App) (p : ℕ) (m : Message) where
  -- What a command comes to.
  Outcome : ℕ → Type 0
  Outcome k =
      IsServed a (run_handler c a p m (handler_of (registered others) k)) p m (handler_of silent k)

  serve_loud :
      commands others ≡ other_commands
      → m.category ≡ category_question
      → All (λ k. m.command ≢ k) other_commands
      → All (λ k. m.command ≢ k) (commands silent)
      → Outcome m.command
  unfolding Outcome
  serve_loud all q other quiet =
      let (d, (f, (g, _))) = quiet in
      let unheard : handler_of silent m.command ≡ none =
        rw (==_ne m.command 0x6001 d, ==_ne m.command 0x6141 f, ==_ne m.command 0x6508 g) refl in
      subst (IsServed a (serve_message (registered others) c a p m) p m) (sym unheard) (
        serve_all c a p m answering (silent ++ others) answering-IsAnswering (
          serve_none c a p m (silent ++ others) q (
            All-append (λ k. m.command ≢ k) silent others quiet
              (subst (All (λ k. m.command ≢ k)) (sym all) other))))

-- The server with all its handlers, whatever those do that are not modelled. A question whose command has
-- none of the latter is answered, whether it has a handler or not: the peer that asked is sent one answer
-- with the command and the number of the question, and nobody else is sent an answer. Only for OnLineCheck,
-- NoticeNazo and NoticeRoomBattleStart nobody is sent an answer.
pub serve_message-IsServed :
    (others : List (ℕ × Handler)) (c : Context) (a : App) (p : ℕ) (m : Message)
    → commands others ≡ other_commands
    → m.category ≡ category_question
    → All (λ k. m.command ≢ k) other_commands
    → IsServed a (serve_message (registered others) c a p m) p m (handler_of silent m.command)
unfolding Outcome
serve_message-IsServed others c a p m all q other = elim (ℕ_discrete m.command 0x6001) [
  | yes e ↦ subst (Outcome others c a p m) (sym e) refl
  | no d ↦ elim (ℕ_discrete m.command 0x6141) [
    | yes e ↦ subst (Outcome others c a p m) (sym e) refl
    | no f ↦ elim (ℕ_discrete m.command 0x6508) [
      | yes e ↦
          subst (Outcome others c a p m) (sym e)
            (ap (λ w. w.answers) (view-on_notice_room_battle_start c.outside a p))
      | no g ↦ serve_loud others c a p m all q other (d, (f, (g, tt)))
    ]
  ]
]
