-- ===== src/Message/Body.antt =====
-- pkg/lobby/message/message.go: reading and writing the fields of a message's body. The Shift JIS
-- encoder and decoder are parameters, as functions on bytes.
pub mod Fields
pub mod Cipher
mod Tests
use Prim.Native.Nat.{bit_and, bit_xor}
use zdxsv.Prelude.{
  ℕ, zero, suc, ◌+◌, ◌-◌, ◌*◌, ◌%◌, List, [], ◌∷◌, ◌++◌, Bool, true, false, if◌then◌else◌, leb, ltb,
  ◌==◌, length, get_or, set, take, drop, replicate,
}
use zdxsv.Prelude.Bytes.{be16, be32, le16, le32, from16, from32}
use zdxsv.Message.{Message}

-- `r` is what the reader has left.
pub record MessageBodyReader : Type 0 where
  pub seq : ℕ
  pub r : List ℕ

pub reader : Message → MessageBodyReader
reader msg = record { seq = msg.seq; r = msg.body }

pub remaining : MessageBodyReader → ℕ
remaining m = length m.r

-- Of too few bytes `binary.Read` takes all and leaves the result 0.
unfoldable pub read8 : List ℕ → ℕ × List ℕ
read8 [] = (0, [])
read8 (a ∷ r) = (a, r)

unfoldable pub read16 : List ℕ → ℕ × List ℕ
read16 (a ∷ b ∷ r) = (from16 a b, r)
read16 _ = (0, [])

unfoldable pub read32 : List ℕ → ℕ × List ℕ
read32 (a ∷ b ∷ c ∷ d ∷ r) = (from32 a b c d, r)
read32 _ = (0, [])

abbrev pub trim_left : List ℕ → List ℕ
trim_left [] = []
trim_left (b ∷ bs) = let rest = trim_left bs in if b == 0 then rest else b ∷ bs

abbrev trim_last : ℕ → List ℕ → List ℕ
trim_last b [] = if b == 0 then [] else b ∷ []
trim_last b (c ∷ cs) = b ∷ c ∷ cs

abbrev pub trim_right : List ℕ → List ℕ
trim_right [] = []
trim_right (b ∷ bs) = trim_last b (trim_right bs)

-- `bytes.Trim` of zero bytes.
abbrev pub trim : List ℕ → List ℕ
trim bs = trim_right (trim_left bs)

-- `r.Read` into a buffer of `size` zeros.
abbrev pub fill : ℕ → List ℕ → List ℕ
fill size r = take size r ++ replicate (size - length r) 0

unfoldable pub read_string : List ℕ → List ℕ × List ℕ
read_string [] = ([], [])
read_string (a ∷ bs) = let (size, r) = read16 (a ∷ bs) in (trim (fill size r), drop size r)

abbrev fixval : ℕ → ℕ
fixval i = get_or (21 ∷ 23 ∷ 10 ∷ 17 ∷ 23 ∷ 19 ∷ 6 ∷ 13 ∷ []) i 0

abbrev masks : ℕ → ℕ
masks i = get_or (0x33 ∷ 0x30 ∷ 0x3c ∷ 0x34 ∷ 0x2d ∷ 0x30 ∷ 0x3c ∷ 0x34 ∷ []) i 0

-- The byte that the byte at `i` is crossed with; `p` and `i` are bytes, and so is every step. Of a
-- byte, `& 7` is the remainder by 8 and `& 0xf8` what is left without it.
pub key : ℕ → ℕ → ℕ
key p i =
    (fixval (i % 8)
      + (256 - (i - i % 8))
      + (256 - p)
      + bit_and ((p + 247 + i) % 256) (masks (i % 8)) * 2)
    % 256

-- The loop over `buf`: the place written is a byte, the place read is not.
pub decrypt : ℕ → ℕ → ℕ → List ℕ → ℕ → List ℕ × ℕ
decrypt p zero j buf sum = (buf, sum)
decrypt p (suc n) j buf sum =
    let y = bit_xor (get_or buf j 0) (key p (j % 256)) in
    decrypt p n (suc j) (set buf (j % 256) y) ((sum + y) % 65536)

abbrev checked : (List ℕ → List ℕ) → ℕ → List ℕ × ℕ → List ℕ
checked decode chksum (buf, sum) = if sum == chksum then trim (decode buf) else []

-- `size` has been read and is more than 2; `r.Read` fails at the end of the bytes.
abbrev read_encrypted : (List ℕ → List ℕ) → ℕ → ℕ → List ℕ → List ℕ × List ℕ
read_encrypted decode seq size r =
    let (chksum, r') = read16 r in
    (
      if ltb (length r') (size - 2)
          then []
          else checked decode chksum (decrypt (seq % 256) (size - 2) 0 (take (size - 2) r') 0),
      drop (size - 2) r',
    )

unfoldable pub read_encrypted_string : (List ℕ → List ℕ) → ℕ → List ℕ → List ℕ × List ℕ
read_encrypted_string decode seq [] = ([], [])
read_encrypted_string decode seq (a ∷ bs) =
    let (size, r) = read16 (a ∷ bs) in
    if leb size 2 then ([], r) else read_encrypted decode seq size r

-- The writer's buffer; `sync` makes it the body of the message.
unfoldable pub sync : Message → List ℕ → Message
sync msg buf = record msg { body = buf; body_size = length buf % 65536 }

unfoldable pub write : List ℕ → List ℕ → List ℕ
write buf v = buf ++ v

unfoldable pub write8 : List ℕ → ℕ → List ℕ
write8 buf v = buf ++ v ∷ []

pub write8_le : List ℕ → ℕ → List ℕ
write8_le buf v = write8 buf v

unfoldable pub write16 : List ℕ → ℕ → List ℕ
write16 buf v = buf ++ be16 v

pub write16_le : List ℕ → ℕ → List ℕ
write16_le buf v = buf ++ le16 v

unfoldable pub write32 : List ℕ → ℕ → List ℕ
write32 buf v = buf ++ be32 v

pub write32_le : List ℕ → ℕ → List ℕ
write32_le buf v = buf ++ le32 v

unfoldable pub write_string : (List ℕ → List ℕ) → List ℕ → List ℕ → List ℕ
write_string encode buf v = let ret = encode v in buf ++ be16 (length ret % 65536) ++ ret
