-- ===== src/SessionId.antt =====
-- pkg/sessionid/sessionid.go: the session id that the game sends as a number. Strings are bytes.
pub mod RoundTrip
mod Tests
use zdxsv.Prelude.{
  ℕ, zero, suc, ◌+◌, ◌-◌, ◌*◌, ◌/◌, ◌%◌, List, [], ◌∷◌, ◌++◌, Option, none, some, Bool, true, false,
  ◌&&◌, ◌||◌, if◌then◌else◌, leb, ltb, ◌==◌, length, take, drop, map,
}

-- `strconv.ParseUint` in base 10, of at most ten bytes, which are below 2 ^ 64.
pub parse_uint : List ℕ → ℕ → Option ℕ
parse_uint [] acc = some acc
parse_uint (b ∷ bs) acc =
    let rest = parse_uint bs (acc * 10 + (b - 48)) in if leb 48 b && leb b 57 then rest else none

abbrev pub digits : ℕ → List ℕ
digits v =
    (v / 1000000000 % 10)
    ∷ (v / 100000000 % 10)
    ∷ (v / 10000000 % 10)
    ∷ (v / 1000000 % 10)
    ∷ (v / 100000 % 10)
    ∷ (v / 10000 % 10)
    ∷ (v / 1000 % 10)
    ∷ (v / 100 % 10)
    ∷ (v / 10 % 10)
    ∷ (v / 1 % 10)
    ∷ []

-- `%010d` of a number below 10 ^ 10.
abbrev pub padded : ℕ → List ℕ
padded v = map (λ d. 48 + d) (digits v)

abbrev pub without_two : List ℕ → List ℕ
without_two s = take 4 (drop 1 s) ++ drop 6 s

abbrev decode_number : Option ℕ → Option (List ℕ)
decode_number none = none
decode_number (some v) = if ltb v 100001 then none else some (without_two (padded (v - 100001)))

unfoldable pub decode : List ℕ → Option (List ℕ)
decode value =
    if length value == 0 || ltb 10 (length value) then none else decode_number (parse_uint value 0)

-- `ParseSessionID` of pkg/battle/logic.go.
pub parse_session_id : List ℕ → Option (List ℕ)
parse_session_id value = if length value == 10 then decode value else none
