-- ===== src/SessionId/Tests.antt =====
-- Runs of the decoder.
use zdxsv.Prelude.{◌≡◌, refl, [], ◌∷◌, none, some, arith}
use zdxsv.SessionId.{decode, parse_session_id, parse_uint}
use zdxsv.SessionId.RoundTrip.{game_value, decode-game_value}

-- "0123505679" is the session "12345678".
decoded :
    decode (48 ∷ 49 ∷ 50 ∷ 51 ∷ 53 ∷ 48 ∷ 53 ∷ 54 ∷ 55 ∷ 57 ∷ [])
    ≡ some (49 ∷ 50 ∷ 51 ∷ 52 ∷ 53 ∷ 54 ∷ 55 ∷ 56 ∷ [])
unfolding decode parse_uint
decoded = refl

-- A short value is accepted by the lobby and not by the battle server.
unpadded : parse_session_id (49 ∷ 48 ∷ 48 ∷ 48 ∷ 48 ∷ 49 ∷ []) ≡ none
unfolding parse_session_id
unpadded = refl

decode-game_value_example :
    (decode (game_value 1 2 3 4 5 6 7 8) ≡ some (49 ∷ 50 ∷ 51 ∷ 52 ∷ 53 ∷ 54 ∷ 55 ∷ 56 ∷ []))
    × (parse_session_id (game_value 1 2 3 4 5 6 7 8)
        ≡ some (49 ∷ 50 ∷ 51 ∷ 52 ∷ 53 ∷ 54 ∷ 55 ∷ 56 ∷ []))
decode-game_value_example = decode-game_value 1 2 3 4 5 6 7 8 (
  omega arith,
  (
    omega arith,
    (omega arith, (omega arith, (omega arith, (omega arith, (omega arith, (omega arith, tt)))))),
  ),
)
