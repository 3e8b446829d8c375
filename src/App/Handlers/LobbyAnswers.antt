-- ===== src/App/Handlers/LobbyAnswers.antt =====
-- The handlers about lobbies and sign-in answer once.
use zdxsv.Prelude.{refl, ap, All}
use zdxsv.App.SignIn.{on_decide_team, on_set_user_binary}
use zdxsv.App.Start.{on_entry_lobby_battle}
use zdxsv.App.Lobbies.{on_enter_lobby, on_exit_lobby}
use zdxsv.App.Leaving.{on_user_top_page_jump, on_user_logout, on_user_goto_battle}
use zdxsv.App.Members.Leaves.{view-on_decide_team, view-on_set_user_binary}
use zdxsv.App.Members.Queues.{view-on_entry_lobby_battle}
use zdxsv.App.Handlers.{first16, first8, read_text}
use zdxsv.App.Handlers.Lobbies.{lobby_handlers, login_handlers}
use zdxsv.App.Handlers.Kept.{
  answers-on_enter_lobby, answers-on_exit_lobby, answers-on_user_logout,
  answers-on_user_goto_battle, answers-on_user_top_page_jump,
}
use zdxsv.App.Handlers.Answers.{IsAnswering, empty-IsAnswered, asks, decide_user_id-IsAnswering}

pub lobby_handlers-IsAnswering : All IsAnswering lobby_handlers
lobby_handlers-IsAnswering = (
  λ c a p m. asks a p m _,
  (
    λ c a p m. empty-IsAnswered a a p m refl,
    (
      λ c a p m. asks a p m _,
      (
        λ c a p m. asks a p m _,
        (
          λ c a p m. asks a p m _,
          (
            λ c a p m. asks a p m _,
            (
              λ c a p m. asks a p m _,
              (
                λ c a p m.
                    empty-IsAnswered a (on_enter_lobby a c.is_fingerprint p (first16 m)) p m
                      (answers-on_enter_lobby a p c.is_fingerprint (first16 m)),
                (
                  λ c a p m. empty-IsAnswered a (on_exit_lobby a p) p m (answers-on_exit_lobby a p),
                  (
                    λ c a p m.
                        empty-IsAnswered a (on_user_top_page_jump a p) p m
                          (answers-on_user_top_page_jump a p),
                    (
                      λ c a p m.
                          empty-IsAnswered a
                            (on_entry_lobby_battle c.outside a p (first8 m) c.lobby_rule) p m
                            (ap (λ w. w.answers)
                              (view-on_entry_lobby_battle c.outside a p (first8 m) c.lobby_rule)),
                      (
                        λ c a p m. asks a p m _,
                        (λ c a p m. empty-IsAnswered a a p m refl, (λ c a p m. asks a p m _, tt)),
                      ),
                    ),
                  ),
                ),
              ),
            ),
          ),
        ),
      ),
    ),
  ),
)

pub login_handlers-IsAnswering : All IsAnswering login_handlers
login_handlers-IsAnswering = (
  λ c a p m. empty-IsAnswered a (on_user_logout a p) p m (answers-on_user_logout a p),
  (
    λ c a p m. empty-IsAnswered a (on_user_goto_battle a p) p m (answers-on_user_goto_battle a p),
    (
      λ c a p m. asks a p m _,
      (
        λ c a p m. asks a p m _,
        (
          decide_user_id-IsAnswering,
          (
            λ c a p m.
                empty-IsAnswered a (on_decide_team a p (read_text c m m.body).0) p m
                  (ap (λ w. w.answers) (view-on_decide_team a p (read_text c m m.body).0)),
            (
              λ c a p m. asks a p m _,
              (
                λ c a p m. asks a p m _,
                (
                  λ c a p m.
                      empty-IsAnswered a (on_set_user_binary a p (read_text c m m.body).0) p m (
                        ap (λ w. w.answers) (view-on_set_user_binary a p (read_text c m m.body).0)),
                  tt,
                ),
              ),
            ),
          ),
        ),
      ),
    ),
  ),
)
