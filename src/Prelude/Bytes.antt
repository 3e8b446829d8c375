-- ===== src/Prelude/Bytes.antt =====
-- Unsigned integers as bytes, in both byte orders, as `encoding/binary` writes them.
use Prim.Native.Nat.{ℕ, ◌+◌, ◌*◌, ◌/◌, ◌%◌, ◌<◌}
use mathlib.Core.Path.{◌≡◌}
use mathlib.Core.List.{List, [], ◌∷◌}
use native.Mathlib.Omega.{arith}

abbrev pub be16 : ℕ → List ℕ
be16 v = v / 256 % 256 ∷ v % 256 ∷ []

abbrev pub be32 : ℕ → List ℕ
be32 v = v / 16777216 % 256 ∷ v / 65536 % 256 ∷ v / 256 % 256 ∷ v % 256 ∷ []

abbrev pub le16 : ℕ → List ℕ
le16 v = v % 256 ∷ v / 256 % 256 ∷ []

abbrev pub le32 : ℕ → List ℕ
le32 v = v % 256 ∷ v / 256 % 256 ∷ v / 65536 % 256 ∷ v / 16777216 % 256 ∷ []

abbrev pub from16 : ℕ → ℕ → ℕ
from16 a b = a * 256 + b

abbrev pub from32 : ℕ → ℕ → ℕ → ℕ → ℕ
from32 a b c d = a * 16777216 + b * 65536 + c * 256 + d

pub from16-be16 : (v : ℕ) → v < 65536 → from16 (v / 256 % 256) (v % 256) ≡ v
from16-be16 v h = omega arith

pub from32-be32 :
    (v : ℕ)
    → v < 4294967296
    → from32 (v / 16777216 % 256) (v / 65536 % 256) (v / 256 % 256) (v % 256) ≡ v
from32-be32 v h = omega arith
