-- ===== src/App/Handlers/RoomAnswers.antt =====
-- The handlers about rooms answer once.
use zdxsv.Prelude.{[], ap, All}
use zdxsv.Message.Body.{write8}
use zdxsv.App.Rooms.{
  on_decide_room_name, on_decide_room_password, on_decide_rule_finish, on_entry_room_match,
  on_enter_room, on_exit_room,
}
use zdxsv.App.Members.Enters.{
  view-on_decide_room_name, view-on_decide_room_password, view-on_entry_room_match,
}
use zdxsv.App.Handlers.{first16, first8, read_text}
use zdxsv.App.Handlers.Rooms.{room_handlers}
use zdxsv.App.Handlers.Kept.{
  answers-on_decide_rule_finish, answers-on_enter_room, answers-on_exit_room,
}
use zdxsv.App.Handlers.Answers.{
  IsAnswering, body-IsAnswered, empty-IsAnswered, asks, request_create_room-IsAnswering,
  decide_rule-IsAnswering,
}

pub room_handlers-IsAnswering : All IsAnswering room_handlers
room_handlers-IsAnswering = (
  λ c a p m. asks a p m _,
  (
    λ c a p m. asks a p m _,
    (
      λ c a p m. asks a p m _,
      (
        λ c a p m. asks a p m _,
        (
          λ c a p m. asks a p m _,
          (
            λ c a p m. asks a p m _,
            (
              request_create_room-IsAnswering,
              (
                λ c a p m. asks a p m _,
                (
                  λ c a p m. asks a p m _,
                  (
                    λ c a p m. asks a p m _,
                    (
                      λ c a p m. asks a p m _,
                      (
                        λ c a p m. asks a p m _,
                        (
                          λ c a p m. asks a p m _,
                          (
                            λ c a p m. asks a p m _,
                            (
                              λ c a p m. asks a p m _,
                              (
                                λ c a p m. asks a p m _,
                                (
                                  λ c a p m.
                                      empty-IsAnswered a
                                        (on_decide_room_name a p (read_text c m m.body).0) p m
                                        (ap (λ w. w.answers)
                                          (view-on_decide_room_name a p (read_text c m m.body).0)),
                                  (
                                    λ c a p m.
                                        empty-IsAnswered a
                                          (on_decide_room_password a p (read_text c m m.body).0) p m
                                          (ap (λ w. w.answers)
                                            (view-on_decide_room_password a p
                                              (read_text c m m.body).0)),
                                    (
                                      decide_rule-IsAnswering,
                                      (
                                        λ c a p m.
                                            empty-IsAnswered a
                                              (on_decide_rule_finish a p c.outside.now) p m
                                              (answers-on_decide_rule_finish a p c.outside.now),
                                        (
                                          λ c a p m. asks a p m _,
                                          (
                                            λ c a p m. asks a p m _,
                                            (
                                              λ c a p m. asks a p m _,
                                              (
                                                λ c a p m.
                                                    body-IsAnswered a
                                                      (on_entry_room_match a p (first8 m)) p m
                                                      (ap (λ w. w.answers)
                                                        (view-on_entry_room_match a p (first8 m)))
                                                      (write8 [] (first8 m)),
                                                (
                                                  λ c a p m.
                                                      empty-IsAnswered a
                                                        ((on_enter_room a p (first16 m)
                                                          c.outside.now).1)
                                                        p m
                                                        (answers-on_enter_room a p (first16 m)
                                                          c.outside.now),
                                                  (
                                                    λ c a p m.
                                                        empty-IsAnswered a (on_exit_room a p) p m
                                                          (answers-on_exit_room a p),
                                                    (λ c a p m. asks a p m _, tt),
                                                  ),
                                                ),
                                              ),
                                            ),
                                          ),
                                        ),
                                      ),
                                    ),
                                  ),
                                ),
                              ),
                            ),
                          ),
                        ),
                      ),
                    ),
                  ),
                ),
              ),
            ),
          ),
        ),
      ),
    ),
  ),
)
