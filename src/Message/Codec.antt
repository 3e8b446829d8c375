-- ===== src/Message/Codec.antt =====
-- Messages to bytes and back.
use mathlib.Core.Path.{ap₂}
use native.Mathlib.Decide.{dec_lt}
use zdxsv.Prelude.{
  ℕ, suc, ◌+◌, ◌-◌, ◌%◌, ◌≤◌, ◌<◌, ◌≡◌, refl, ap, ◌∙◌, List, [], ◌∷◌, ◌++◌, ltb, length, take,
  arith, length-append, length-take, true, false,
}
use zdxsv.Prelude.{take_left}
use zdxsv.Prelude.Bytes.{from16-be16, from32-be32}
use zdxsv.Message.{
  Message, header_size, sized, header, serialize, incomplete, parsed, crash, parse_body,
  deserialize,
}

-- The fields fit their places, and the body's end does not wrap.
abbrev pub IsEncodable : Message → Type 0
IsEncodable m =
    (m.direction < 256)
    × (m.category < 256)
    × (m.command < 65536)
    × (m.seq < 65536)
    × (m.status < 4294967296)
    × (length m.body < 65524)

parse_body-whole :
    (m : Message) (bytes body rest : List ℕ)
    → length bytes ≡ header_size + length (body ++ rest)
    → m.body_size ≡ length body
    → length body < 65524
    → parse_body m bytes (body ++ rest)
      ≡ parsed (header_size + length body) (record m { body = body })
unfolding parse_body
parse_body-whole m bytes body rest len size fits =
    let end : (header_size + m.body_size) % 65536 ≡ header_size + length body = omega arith in
    let enough : ltb (length bytes) (header_size + m.body_size) ≡ false =
      ground (arith, length-append body rest) in
    let forward : ltb (header_size + length body) header_size ≡ false = ground arith in
    let size' : header_size + length body - header_size ≡ length body = omega arith in
    rw (enough, end, forward, size')
      (ap (λ b. parsed (header_size + length body) (record m { body = b })) (take_left body rest))

module _ (m : Message) where
  -- The record that the header's bytes are read into.
  abbrev header_of : Message
  header_of = record m { body_size = length m.body; body = [] }

  deserialize-header :
      (m.command < 65536)
      → (m.seq < 65536)
      → (m.status < 4294967296)
      → length m.body < 65536
      → (tail : List ℕ)
      → deserialize (header (sized m) ++ tail)
        ≡ parse_body header_of (header (sized m) ++ tail) tail
  unfolding deserialize sized
  deserialize-header c q t b tail =
      let size : length m.body % 65536 ≡ length m.body = omega arith in
      rw
        (
          from16-be16 m.command c,
          from16-be16 m.seq q,
          from32-be32 m.status t,
          from16-be16 (length m.body % 65536) (omega arith),
        )
        (ap
          (λ n. parse_body (record m { body_size = n; body = [] }) (header (sized m) ++ tail) tail)
          size)

  length-whole : header_size + length m.body ≡ length (header (sized m) ++ m.body)
  unfolding sized
  length-whole = omega arith

  length-rest :
      (rest : List ℕ)
      → length (header (sized m) ++ m.body ++ rest) ≡ header_size + length (m.body ++ rest)
  unfolding sized
  length-rest rest = omega arith

  sized-small : length m.body < 65536 → (record m { body_size = length m.body }) ≡ sized m
  unfolding sized
  sized-small h =
      let size : length m.body ≡ length m.body % 65536 = omega arith in
      ap (λ n. record m { body_size = n }) size

-- For a message whose fields fit and whose body has fewer than 65524 bytes, `Deserialize` reads the
-- bytes of `Serialize`, whatever follows them, and returns their number and the message.
pub deserialize-serialize :
    (m : Message) (rest : List ℕ)
    → IsEncodable m
    → deserialize ((serialize m).0 ++ rest) ≡ parsed (length (serialize m).0) (serialize m).1
unfolding serialize sized
deserialize-serialize m rest (_, _, c, q, t, fits) =
    deserialize-header m c q t (omega arith) (m.body ++ rest)
    ∙ parse_body-whole (header_of m) _ m.body rest (length-rest m rest) refl fits
    ∙ ap₂ parsed (length-whole m) (sized-small m (omega arith))

parse_body_short :
    (m : Message) (bytes tail : List ℕ)
    → length bytes < header_size + m.body_size
    → parse_body m bytes tail ≡ incomplete
unfolding parse_body
parse_body_short m bytes tail h =
    let short : ltb (length bytes) (header_size + m.body_size) ≡ true = ground arith in
    rw short refl

length-take_lt : (xs : List ℕ) (j : ℕ) → j < length xs → length (take j xs) ≡ j
length-take_lt xs j h = omega (arith, length-take j xs)

deserialize-take_behind :
    (m : Message) (j : ℕ)
    → IsEncodable m
    → j < length m.body
    → deserialize (header (sized m) ++ take j m.body) ≡ incomplete
deserialize-take_behind m j (_, _, c, q, t, fits) h =
    deserialize-header m c q t (omega arith) (take j m.body)
    ∙ parse_body_short (header_of m) _ (take j m.body)
        (let len = length-take_lt m.body j h in omega arith)

pub deserialize_short :
    (bytes : List ℕ) → length bytes < header_size → deserialize bytes ≡ incomplete
unfolding deserialize
deserialize_short [] h = refl
deserialize_short (x0 ∷ []) h = refl
deserialize_short (x0 ∷ x1 ∷ []) h = refl
deserialize_short (x0 ∷ x1 ∷ x2 ∷ []) h = refl
deserialize_short (x0 ∷ x1 ∷ x2 ∷ x3 ∷ []) h = refl
deserialize_short (x0 ∷ x1 ∷ x2 ∷ x3 ∷ x4 ∷ []) h = refl
deserialize_short (x0 ∷ x1 ∷ x2 ∷ x3 ∷ x4 ∷ x5 ∷ []) h = refl
deserialize_short (x0 ∷ x1 ∷ x2 ∷ x3 ∷ x4 ∷ x5 ∷ x6 ∷ []) h = refl
deserialize_short (x0 ∷ x1 ∷ x2 ∷ x3 ∷ x4 ∷ x5 ∷ x6 ∷ x7 ∷ []) h = refl
deserialize_short (x0 ∷ x1 ∷ x2 ∷ x3 ∷ x4 ∷ x5 ∷ x6 ∷ x7 ∷ x8 ∷ []) h = refl
deserialize_short (x0 ∷ x1 ∷ x2 ∷ x3 ∷ x4 ∷ x5 ∷ x6 ∷ x7 ∷ x8 ∷ x9 ∷ []) h = refl
deserialize_short (x0 ∷ x1 ∷ x2 ∷ x3 ∷ x4 ∷ x5 ∷ x6 ∷ x7 ∷ x8 ∷ x9 ∷ x10 ∷ []) h = refl
deserialize_short (x0 ∷ x1 ∷ x2 ∷ x3 ∷ x4 ∷ x5 ∷ x6 ∷ x7 ∷ x8 ∷ x9 ∷ x10 ∷ x11 ∷ tail) h =
    absurd (omega arith)

suc12 :
    (k : ℕ)
    → header_size ≤ k
    → k ≡ (suc (suc (suc (suc (suc (suc (suc (suc (suc (suc (suc (suc (k - header_size)))))))))))))
suc12 k h = omega arith

-- Of a message whose fields fit and whose body has fewer than 65524 bytes, every proper beginning of
-- the bytes is too short for `Deserialize`.
pub deserialize-take :
    (m : Message) (k : ℕ)
    → IsEncodable m
    → k < length (serialize m).0
    → deserialize (take k (serialize m).0) ≡ incomplete
unfolding serialize sized
deserialize-take m k e h = elim (dec_lt k header_size) [
  | yes s ↦ deserialize_short _ (let len = length-take_lt (serialize m).0 k h in omega arith)
  | no n ↦ rw (suc12 k (omega arith)) (deserialize-take_behind m (k - header_size) e (omega arith))
]

parse_body_crash :
    (m : Message) (bytes tail : List ℕ)
    → header_size + m.body_size ≤ length bytes
    → 65524 ≤ m.body_size
    → m.body_size < 65536
    → parse_body m bytes tail ≡ crash
unfolding parse_body
parse_body_crash m bytes tail h large fits =
    let enough : ltb (length bytes) (header_size + m.body_size) ≡ false = ground arith in
    let back : ltb ((header_size + m.body_size) % 65536) header_size ≡ true = ground arith in
    rw (enough, back) refl

-- A body of 65524 to 65535 bytes, the other fields in their ranges, makes the sum of the sizes wrap:
-- `Deserialize` panics on the bytes that `Serialize` wrote.
pub deserialize_wraps :
    (m : Message) (rest : List ℕ)
    → m.command < 65536
    → m.seq < 65536
    → m.status < 4294967296
    → 65524 ≤ length m.body
    → length m.body < 65536
    → deserialize ((serialize m).0 ++ rest) ≡ crash
unfolding serialize sized
deserialize_wraps m rest c q t large fits =
    deserialize-header m c q t fits (m.body ++ rest)
    ∙ parse_body_crash (header_of m) _ (m.body ++ rest)
        (omega (arith, length-rest m rest, length-append m.body rest)) large fits
