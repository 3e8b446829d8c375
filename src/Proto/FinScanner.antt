-- ===== src/Proto/FinScanner.antt =====
-- pkg/proto/fin.go: the scanner that finds the battle end frame in the console's TCP stream.
pub mod Bytes
pub mod Chunks
pub mod Stream
mod Tests
use zdxsv.Prelude.{
  ℕ, zero, suc, ◌+◌, ◌-◌, Bool, true, false, ◌&&◌, ◌||◌, List, [], ◌∷◌, ◌++◌, Option, none, some,
  ◌==◌, if◌then◌else◌, ltb, length, get_or, take, drop,
}

abbrev pub ps2_join_size : ℕ
ps2_join_size = 22

pub record FinScanner : Type 0 where
  pub joined : ℕ
  pub frame : List ℕ
  pub lost : Bool

abbrev pub new_fin_scanner : FinScanner
new_fin_scanner = record { joined = 0; frame = []; lost = false }

-- The size and the body of the battle end frame, 04 F0 00 00.
pub is_fin_frame : ℕ → List ℕ → Bool
is_fin_frame size frame =
    size == 4 && get_or frame 1 0 == 0xf0 && get_or frame 2 0 == 0 && get_or frame 3 0 == 0

pub frame_size : List ℕ → ℕ → ℕ
frame_size frame first = if ltb 0 (length frame) then get_or frame 0 0 else first

-- One round of the loop behind the test for a zero size: the frame and the data that are left,
-- and whether a fin frame completed. `none` is the panic of `data[:n]` at a negative `n`.
pub take_frame : List ℕ → List ℕ → ℕ → Option (List ℕ × List ℕ × Bool)
take_frame frame bytes size =
    let n = size - length frame in
    let whole = frame ++ take n bytes in
    if ltb size (length frame)
    then none
    else if length whole == size
    then some ([], drop n bytes, is_fin_frame size whole)
    else some (whole, drop n bytes, false)

-- `for 0 < len(data)`; the result is the frame, `lost` and `fin`. `none` is a panic, or that the
-- fuel ran out.
pub scan_loop : ℕ → List ℕ → Bool → List ℕ → Option (List ℕ × Bool × Bool)
scan_loop fuel frame fin [] = some (frame, false, fin)
scan_loop zero frame fin (b ∷ bytes) = none
scan_loop (suc fuel) frame fin (b ∷ bytes) =
    if length frame == 0 && b == 0
    then some (frame, true, fin)
    else elim (take_frame frame (b ∷ bytes) (frame_size frame b)) [
      | none ↦ none
      | some (rest_frame, rest, done) ↦ scan_loop fuel rest_frame (fin || done) rest
    ]

-- A read that is exactly the fin frame.
pub is_fin_read : List ℕ → Bool
unfolding is_fin_frame
is_fin_read bytes = length bytes == 4 && get_or bytes 0 0 == 4 && is_fin_frame 4 bytes

-- One read: whether a fin frame completed in it, and the scanner. Every round takes a byte at
-- least, so as many rounds as there are bytes are enough.
pub scan : FinScanner → List ℕ → Option (Bool × FinScanner)
unfolding is_fin_read
scan s bytes =
    if ltb s.joined ps2_join_size
    then some (false, record s { joined = s.joined + length bytes })
    else if s.lost
    then some (is_fin_read bytes, s)
    else elim (scan_loop (length bytes) s.frame false bytes) [
      | none ↦ none
      | some (frame, lost, fin) ↦ some (fin, record s { frame = frame; lost = lost })
    ]
