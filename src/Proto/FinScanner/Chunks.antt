-- ===== src/Proto/FinScanner/Chunks.antt =====
-- The loop over one read does what the automaton does byte by byte, so it does not matter how the
-- stream was cut into reads.
use native.Mathlib.Decide.{ℕ_discrete}
use zdxsv.Prelude.{
  ℕ, zero, suc, ◌-◌, ◌≤◌, ◌<◌, ◌≡◌, ◌≢◌, refl, sym, ap, ◌∙◌, inl, inr, Bool, true, false, ◌&&◌,
  ◌||◌, List, [], ◌∷◌, ◌++◌, none, some, ◌==◌, ==_iff, if◌then◌else◌, ltb, length, get_or, take,
  drop, arith, length-append, Bool-cases, length-take, length-drop, take-append-drop,
}
use zdxsv.Proto.FinScanner.{
  is_fin_frame, frame_size, take_frame, scan_loop, FinScanner, scan, ps2_join_size,
}
use zdxsv.Proto.FinScanner.Bytes.{
  Framing, IsPartial, read_bytes, read_bytes-append, read_frame, or-false, read_bytes-zero,
  read_bytes-nil, get_or_pos,
}

abbrev pub framing : List ℕ → Bool → Framing
framing frame lost = if lost then none else some frame

-- What the loop returns, and what the automaton makes of the same bytes.
pub record Agrees (fuel : ℕ) (frame : List ℕ) (fin : Bool) (bytes : List ℕ) : Type 0 where
  pub left : List ℕ
  pub lost : Bool
  pub found : Bool
  pub looped : scan_loop fuel frame fin bytes ≡ some (left, lost, found)
  pub read : read_bytes (some frame) fin bytes ≡ (framing left lost, found)
  pub partial : IsPartial left

size_pos :
    (frame : List ℕ) (b : ℕ)
    → IsPartial frame
    → (length frame == 0 && b == 0) ≡ false
    → length frame < frame_size frame b
unfolding frame_size
size_pos [] b p nonzero = ground arith
size_pos (x ∷ xs) b p nonzero = ground arith

size_first :
    (frame bytes : List ℕ) (b n : ℕ)
    → 0 < n
    → frame_size frame b ≡ get_or (frame ++ take n (b ∷ bytes)) 0 0
unfolding frame_size
size_first [] bytes b zero pos = absurd (omega arith)
size_first [] bytes b (suc n) pos = refl
size_first (x ∷ xs) bytes b n pos = ground arith

module _ (frame bytes : List ℕ) (size : ℕ) (short : length frame < size) where
  take_frame_done :
      length (frame ++ take (size - length frame) bytes) ≡ size
      → take_frame frame bytes size
        ≡ some (
          [],
          drop (size - length frame) bytes,
          is_fin_frame size (frame ++ take (size - length frame) bytes),
        )
  unfolding take_frame
  take_frame_done full =
      let fits : ltb size (length frame) ≡ false = ground arith in rw (fits, (==_iff _ size).1 full)

  take_frame_more :
      length (frame ++ take (size - length frame) bytes) ≢ size
      → take_frame frame bytes size
        ≡ some (frame ++ take (size - length frame) bytes, drop (size - length frame) bytes, false)
  unfolding take_frame
  take_frame_more more =
      let fits : ltb size (length frame) ≡ false = ground arith in
      let open_end : (length (frame ++ take (size - length frame) bytes) == size) ≡ false =
        ground arith in
      rw (fits, open_end)

-- One round behind the test for a zero size, with the loop on the rest.
module _ (frame bytes : List ℕ) (b fuel size : ℕ) (fin : Bool) (sized : size ≡ frame_size frame b)
    (nonzero : (length frame == 0 && b == 0) ≡ false) (short : length frame < size)
    (first : size ≡ get_or (frame ++ take (size - length frame) (b ∷ bytes)) 0 0) where
  abbrev part : List ℕ
  part = frame ++ take (size - length frame) (b ∷ bytes)

  abbrev rest : List ℕ
  rest = drop (size - length frame) (b ∷ bytes)

  read_prefix :
      (s : Framing × Bool)
      → (if length part == size then (some [], fin || is_fin_frame size part) else (some part, fin))
        ≡ s
      → read_bytes (some frame) fin (b ∷ bytes) ≡ read_bytes s.0 s.1 rest
  read_prefix s e =
      let n = size - length frame in
      let whole = b ∷ bytes in
      ap (read_bytes (some frame) fin) (sym (take-append-drop n whole))
      ∙ read_bytes-append (take n whole) rest (some frame) fin
      ∙ ap (λ q. read_bytes q.0 q.1 rest)
          (read_frame size (take n whole) frame fin first (omega arith) short
              (omega (arith, length-take n whole))
            ∙ e)

  round_done :
      length part ≡ size
      → Agrees fuel [] (fin || is_fin_frame size part) rest
      → Agrees (suc fuel) frame fin (b ∷ bytes)
  unfolding scan_loop
  round_done full a = record {
    left = a.left;
    lost = a.lost;
    found = a.found;
    looped = rw (nonzero, ← sized, take_frame_done frame (b ∷ bytes) size short full) a.looped;
    read =
        read_prefix (some [], fin || is_fin_frame size part) (rw ((==_iff _ size).1 full)) ∙ a.read;
    partial = a.partial;
  }

  round_more :
      length part ≢ size → Agrees fuel part fin rest → Agrees (suc fuel) frame fin (b ∷ bytes)
  unfolding scan_loop
  round_more more a = record {
    left = a.left;
    lost = a.lost;
    found = a.found;
    looped =
        rw (nonzero, ← sized, take_frame_more frame (b ∷ bytes) size short more, or-false fin)
          a.looped;
    read = read_prefix (some part, fin) (ground arith) ∙ a.read;
    partial = a.partial;
  }

grows :
    (frame : List ℕ) (b : ℕ) (bytes : List ℕ)
    → length frame < frame_size frame b
    → frame_size frame b ≡ get_or (frame ++ take (frame_size frame b - length frame) bytes) 0 0
    → length (frame ++ take (frame_size frame b - length frame) bytes) ≢ frame_size frame b
    → IsPartial (frame ++ take (frame_size frame b - length frame) bytes)
grows frame b bytes short first more =
    let n = frame_size frame b - length frame in
    omega (
      arith,
      get_or_pos (frame ++ take n bytes) (omega arith),
      length-append frame (take n bytes),
      length-take n bytes,
    )

-- On every read the loop ends, within as many rounds as there are bytes.
scan_loop-Agrees :
    (fuel : ℕ) (bytes frame : List ℕ) (fin : Bool)
    → IsPartial frame
    → length bytes ≤ fuel
    → Agrees fuel frame fin bytes
scan_loop-Agrees fuel [] frame fin p enough = record {
  left = frame;
  lost = false;
  found = fin;
  looped = unfold scan_loop in refl;
  read = read_bytes-nil (some frame) fin;
  partial = p;
}
scan_loop-Agrees zero (b ∷ bytes) frame fin p enough = absurd (omega arith)
scan_loop-Agrees (suc fuel) (b ∷ bytes) frame fin p enough =
    elim (Bool-cases (length frame == 0 && b == 0)) [
      | inl zero_size ↦ record {
        left = frame;
        lost = true;
        found = fin;
        looped = unfold scan_loop in rw zero_size;
        read = read_bytes-zero frame bytes b fin zero_size;
        partial = p;
      }
      | inr nonzero ↦
          let size = frame_size frame b in
          let short = size_pos frame b p nonzero in
          let n = size - length frame in
          let first = size_first frame bytes b n (omega arith) in
          let whole = frame ++ take n (b ∷ bytes) in
          let rest = drop n (b ∷ bytes) in
          let smaller : length rest ≤ fuel = omega (arith, length-drop n (b ∷ bytes)) in
          elim (ℕ_discrete (length whole) size) [
            | yes full ↦ round_done frame bytes b fuel size fin refl nonzero short first full (
                scan_loop-Agrees fuel rest [] (fin || is_fin_frame size whole) (omega arith)
                  smaller)
            | no more ↦ round_more frame bytes b fuel size fin refl nonzero short first more (
                scan_loop-Agrees fuel rest whole fin (grows frame b (b ∷ bytes) short first more)
                  smaller)
          ]
    ]

-- One read after the join, with the framing intact.
pub scan_lem :
    (s : FinScanner) (bytes : List ℕ)
    → ps2_join_size ≤ s.joined
    → s.lost ≡ false
    → IsPartial s.frame
    → (frame : List ℕ) × (lost found : Bool) × (scan s bytes
        ≡ some (found, record s { frame = frame; lost = lost }))
      × (read_bytes (some s.frame) false bytes ≡ (framing frame lost, found))
      × IsPartial frame
unfolding scan
scan_lem s bytes joined kept p =
    let a = scan_loop-Agrees (length bytes) bytes s.frame false p (omega arith) in
    let past : ltb s.joined ps2_join_size ≡ false = ground arith in
    (a.left, a.lost, a.found, rw (past, kept, a.looped), a.read, a.partial)
