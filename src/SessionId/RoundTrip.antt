-- ===== src/SessionId/RoundTrip.antt =====
-- The game's way to send a session id, and that it is decoded.
use zdxsv.Prelude.{
  ℕ, ◌+◌, ◌-◌, ◌*◌, ◌/◌, ◌%◌, ◌<◌, ◌≡◌, refl, ap, ◌∙◌, List, [], ◌∷◌, some, true, false, leb, ltb,
  arith, map, All,
}
use zdxsv.SessionId.{parse_uint, padded, digits, decode, decode_number, parse_session_id}

-- The eight digits with a zero before the first and the fifth, as a number.
abbrev pub id_number : ℕ → ℕ → ℕ → ℕ → ℕ → ℕ → ℕ → ℕ → ℕ
id_number a b c d e f g h =
    a * 100000000 + b * 10000000 + c * 1000000 + d * 100000 + e * 1000 + f * 100 + g * 10 + h

-- What the game sends for them, in ten digits.
abbrev pub game_value : ℕ → ℕ → ℕ → ℕ → ℕ → ℕ → ℕ → ℕ → List ℕ
game_value a b c d e f g h = padded (id_number a b c d e f g h + 100001)

parse_digit :
    (d acc : ℕ) (bs : List ℕ)
    → d < 10
    → parse_uint ((48 + d) ∷ bs) acc ≡ parse_uint bs (acc * 10 + d)
unfolding parse_uint
parse_digit d acc bs h =
    let low : leb 48 (48 + d) ≡ true = ground arith in
    let high : leb (48 + d) 57 ≡ true = ground arith in
    let value : 48 + d - 48 ≡ d = omega arith in rw (low, high, value) refl

abbrev value_of : List ℕ → ℕ → ℕ
value_of [] acc = acc
value_of (d ∷ ds) acc = value_of ds (acc * 10 + d)

parse_digits :
    (ds : List ℕ) (acc : ℕ)
    → All (λ d. d < 10) ds
    → parse_uint (map (λ d. 48 + d) ds) acc ≡ some (value_of ds acc)
unfolding parse_uint
parse_digits [] acc a = refl
parse_digits (d ∷ ds) acc a =
    parse_digit d acc (map (λ d. 48 + d) ds) a.0 ∙ parse_digits ds (acc * 10 + d) a.1

digits_small : (v : ℕ) → All (λ d. d < 10) (digits v)
digits_small v = (
  omega arith,
  (
    omega arith,
    (
      omega arith,
      (
        omega arith,
        (
          omega arith,
          (omega arith, (omega arith, (omega arith, (omega arith, (omega arith, tt))))),
        ),
      ),
    ),
  ),
)

value_of-digits : (v : ℕ) → v < 10000000000 → value_of (digits v) 0 ≡ v
value_of-digits v h = omega arith

parse_padded : (v : ℕ) → v < 10000000000 → parse_uint (padded v) 0 ≡ some v
parse_padded v h = parse_digits (digits v) 0 (digits_small v) ∙ ap some (value_of-digits v h)

-- For every eight digits, the value that the game sends for them is decoded to them, by the lobby's
-- `Decode` and by the battle server's `ParseSessionID`.
pub decode-game_value :
    (a b c d e f g h : ℕ)
    → All (λ x. x < 10) (a ∷ b ∷ c ∷ d ∷ e ∷ f ∷ g ∷ h ∷ [])
    → (decode (game_value a b c d e f g h)
        ≡ some (map (λ x. 48 + x) (a ∷ b ∷ c ∷ d ∷ e ∷ f ∷ g ∷ h ∷ [])))
      × (parse_session_id (game_value a b c d e f g h)
          ≡ some (map (λ x. 48 + x) (a ∷ b ∷ c ∷ d ∷ e ∷ f ∷ g ∷ h ∷ [])))
unfolding decode parse_session_id
decode-game_value a b c d e f g h (ha, (hb, (hc, (hd, (he, (hf, (hg, (hh, _)))))))) =
    let n : ℕ = id_number a b c d e f g h in
    let enough : ltb (n + 100001) 100001 ≡ false = ground arith in
    let back : n + 100001 - 100001 ≡ n = omega arith in
    let parsed = parse_padded (n + 100001) (omega arith) in
    let ea : n / 100000000 % 10 ≡ a = omega arith in
    let eb : n / 10000000 % 10 ≡ b = omega arith in
    let ec : n / 1000000 % 10 ≡ c = omega arith in
    let ed : n / 100000 % 10 ≡ d = omega arith in
    let ee : n / 1000 % 10 ≡ e = omega arith in
    let ef : n / 100 % 10 ≡ f = omega arith in
    let eg : n / 10 % 10 ≡ g = omega arith in
    let eh : n / 1 % 10 ≡ h = omega arith in
    let all : decode_number (some (n + 100001))
        ≡ some (map (λ x. 48 + x) (a ∷ b ∷ c ∷ d ∷ e ∷ f ∷ g ∷ h ∷ [])) =
      rw (enough, back, ea, eb, ec, ed, ee, ef, eg, eh) refl in
    (ap decode_number parsed ∙ all, ap decode_number parsed ∙ all)
