-- ===== src/Message/Body/Fields.antt =====
-- The fields of a body, written one after the other and read back.
use zdxsv.Prelude.{
  ℕ, ◌-◌, ◌%◌, ◌<◌, ◌≡◌, refl, sym, ap, ◌∙◌, List, [], ◌∷◌, ◌++◌, length, All, arith, append_assoc,
  append-nil, length-append,
}
use zdxsv.Prelude.Bytes.{be16, from16-be16, from32-be32}
use zdxsv.Prelude.{take_left, drop_left}
use zdxsv.Message.Body.{
  read8, read16, read32, read_string, write8, write16, write32, write_string, trim, fill,
}

-- A field: a number of one, two or four bytes, or a string.
pub data Field : Type 0 where
  byte : ℕ → Field
  short : ℕ → Field
  word : ℕ → Field
  text : List ℕ → Field

abbrev pub write_field : (List ℕ → List ℕ) → List ℕ → Field → List ℕ
write_field encode buf (byte v) = write8 buf v
write_field encode buf (short v) = write16 buf v
write_field encode buf (word v) = write32 buf v
write_field encode buf (text v) = write_string encode buf v

abbrev pub write_fields : (List ℕ → List ℕ) → List ℕ → List Field → List ℕ
write_fields encode buf [] = buf
write_fields encode buf (f ∷ fs) = write_fields encode (write_field encode buf f) fs

-- A field is read by the kind of the one that was written.
abbrev pub read_field : Field → List ℕ → Field × List ℕ
read_field (byte _) r = let (v, r') = read8 r in (byte v, r')
read_field (short _) r = let (v, r') = read16 r in (short v, r')
read_field (word _) r = let (v, r') = read32 r in (word v, r')
read_field (text _) r = let (v, r') = read_string r in (text v, r')

abbrev pub read_fields : List Field → List ℕ → List Field × List ℕ
read_fields [] r = ([], r)
read_fields (f ∷ fs) r =
    let (v, r') = read_field f r in let (vs, r'') = read_fields fs r' in (v ∷ vs, r'')

abbrev pub Fits : (List ℕ → List ℕ) → Field → Type 0
Fits encode (byte v) = v < 256
Fits encode (short v) = v < 65536
Fits encode (word v) = v < 4294967296
Fits encode (text v) = length (encode v) < 65536

-- A string comes back encoded, with the zero bytes at its ends gone.
abbrev pub received : (List ℕ → List ℕ) → Field → Field
received encode (byte v) = byte v
received encode (short v) = short v
received encode (word v) = word v
received encode (text v) = text (trim (encode v))

abbrev received_all : (List ℕ → List ℕ) → List Field → List Field
received_all encode [] = []
received_all encode (f ∷ fs) = received encode f ∷ received_all encode fs

-- The field's own bytes.
abbrev field_bytes : (List ℕ → List ℕ) → Field → List ℕ
field_bytes encode f = write_field encode [] f

module _ (encode : List ℕ → List ℕ) where
  write_field-append :
      (buf : List ℕ) (f : Field) → write_field encode buf f ≡ buf ++ field_bytes encode f
  unfolding write8 write16 write32 write_string
  write_field-append buf (byte v) = refl
  write_field-append buf (short v) = refl
  write_field-append buf (word v) = refl
  write_field-append buf (text v) = append_assoc buf (be16 (length (encode v) % 65536)) (encode v)

  fill_left : (xs ys : List ℕ) → fill (length xs) (xs ++ ys) ≡ xs
  fill_left xs ys =
      let none_left : length xs - length (xs ++ ys) ≡ 0 = omega (arith, length-append xs ys) in
      rw (none_left, take_left xs ys) (append-nil xs)

  read_string-bytes :
      (v rest : List ℕ)
      → length v < 65536
      → read_string (be16 (length v % 65536) ++ v ++ rest) ≡ (trim v, rest)
  unfolding read_string read16
  read_string-bytes v rest h =
      let small : length v % 65536 ≡ length v = omega arith in
      rw (small, from16-be16 (length v) h, fill_left v rest, drop_left v rest) refl

  read_field-bytes :
      (f : Field) (rest : List ℕ)
      → Fits encode f
      → read_field f (field_bytes encode f ++ rest) ≡ (received encode f, rest)
  unfolding write8 write16 write32 write_string read8 read16 read32
  read_field-bytes (byte v) rest h = refl
  read_field-bytes (short v) rest h = rw (from16-be16 v h) refl
  read_field-bytes (word v) rest h = rw (from32-be32 v h) refl
  read_field-bytes (text v) rest h = ap (λ q. (text q.0, q.1)) (read_string-bytes (encode v) rest h)

  read_fields-write :
      (fs : List Field) (buf rest : List ℕ)
      → All (Fits encode) fs
      → (bytes : List ℕ) × (write_fields encode buf fs ≡ buf ++ bytes)
        × (read_fields fs (bytes ++ rest) ≡ (received_all encode fs, rest))
  read_fields-write [] buf rest a = ([], sym (append-nil buf), refl)
  read_fields-write (f ∷ fs) buf rest a =
      let (bytes, w, r) = read_fields-write fs (write_field encode buf f) rest a.1 in
      let own = field_bytes encode f in
      (
        own ++ bytes,
        w ∙ ap (λ b. b ++ bytes) (write_field-append buf f) ∙ append_assoc buf own bytes,
        rw (append_assoc own bytes rest, read_field-bytes f (bytes ++ rest) a.0, r) refl,
      )

-- For every encoder: fields that fit, written to an empty buffer, are read back in order, numbers as
-- they were and strings encoded and trimmed of zero bytes, and the bytes behind them are left.
pub read_fields-write_fields :
    (encode : List ℕ → List ℕ) (fs : List Field) (rest : List ℕ)
    → All (Fits encode) fs
    → read_fields fs (write_fields encode [] fs ++ rest) ≡ (received_all encode fs, rest)
read_fields-write_fields encode fs rest a =
    let (bytes, w, r) = read_fields-write encode fs [] rest a in
    ap (λ b. read_fields fs (b ++ rest)) w ∙ r
