-- ===== src/Proto/FinScanner/Bytes.antt =====
-- The framing as an automaton that reads one byte at a time, and the loop against it.
use native.Mathlib.Decide.{ℕ_discrete}
use zdxsv.Prelude.{
  ℕ, ◌+◌, ◌≤◌, ◌<◌, ◌≡◌, refl, sym, ap, ◌∙◌, Bool, true, false, ◌&&◌, ◌||◌, List, [], ◌∷◌, ◌++◌,
  Option, none, some, ◌==◌, ==_iff, if◌then◌else◌, length, get_or, arith, append_assoc, append-nil,
  length-append,
}
use zdxsv.Proto.FinScanner.{is_fin_frame}

-- `none` when the framing is lost, else the bytes of the frame that has begun.
abbrev pub Framing : Type 0
Framing = Option (List ℕ)

unfoldable pub end_byte : List ℕ → Framing × Bool
end_byte frame =
    if length frame == get_or frame 0 0
    then (some [], is_fin_frame (length frame) frame)
    else (some frame, false)

unfoldable pub next_byte : Framing → ℕ → Framing × Bool
unfolding end_byte
next_byte none b = (none, false)
next_byte (some frame) b =
    if length frame == 0 && b == 0 then (none, false) else end_byte (frame ++ b ∷ [])

-- The framing behind the bytes, and whether a fin frame has completed in them or before.
unfoldable pub read_bytes : Framing → Bool → List ℕ → Framing × Bool
read_bytes s fin [] = (s, fin)
read_bytes s fin (b ∷ bytes) = let (t, done) = next_byte s b in read_bytes t (fin || done) bytes

pub read_bytes-append :
    (xs ys : List ℕ) (s : Framing) (fin : Bool)
    → read_bytes s fin (xs ++ ys) ≡ read_bytes (read_bytes s fin xs).0 (read_bytes s fin xs).1 ys
unfolding read_bytes
read_bytes-append [] ys s fin = refl
read_bytes-append (x ∷ xs) ys s fin =
    read_bytes-append xs ys (next_byte s x).0 (fin || (next_byte s x).1)

-- A frame that has begun is shorter than its size.
abbrev pub IsPartial : List ℕ → Type 0
IsPartial frame = length frame < get_or frame 0 1

next_byte_inner :
    (frame bytes : List ℕ) (b : ℕ)
    → 0 < get_or (frame ++ b ∷ bytes) 0 0
    → next_byte (some frame) b ≡ end_byte (frame ++ b ∷ [])
unfolding next_byte
next_byte_inner [] bytes b h = ground arith
next_byte_inner (x ∷ xs) bytes b h = ground arith

same_size :
    (frame bytes : List ℕ) (b : ℕ) → get_or (frame ++ b ∷ bytes) 0 0 ≡ get_or (frame ++ b ∷ []) 0 0
same_size [] bytes b = refl
same_size (x ∷ xs) bytes b = refl

pub or-false : (b : Bool) → (b || false) ≡ b
or-false true = refl
or-false false = refl

end_byte_done :
    (size : ℕ) (frame : List ℕ)
    → size ≡ get_or frame 0 0
    → length frame ≡ size
    → end_byte frame ≡ (some [], is_fin_frame size frame)
unfolding end_byte
end_byte_done size frame first full = rw (← first, full) (rw ((==_iff size size).1 refl))

end_byte_more :
    (size : ℕ) (frame : List ℕ)
    → size ≡ get_or frame 0 0
    → length frame < size
    → end_byte frame ≡ (some frame, false)
unfolding end_byte
end_byte_more size frame first short = rw (← first) (ground arith)

-- The bytes up to the end of a frame complete it, or extend it.
pub read_frame :
    (size : ℕ) (bytes frame : List ℕ) (fin : Bool)
    → size ≡ get_or (frame ++ bytes) 0 0
    → 0 < size
    → length frame < size
    → length frame + length bytes ≤ size
    → read_bytes (some frame) fin bytes ≡ (
        if length (frame ++ bytes) == size
        then (some [], fin || is_fin_frame size (frame ++ bytes))
        else (some (frame ++ bytes), fin))
unfolding read_bytes
read_frame size [] frame fin first pos short fits = rw append-nil (ground arith)
read_frame size (b ∷ []) frame fin first pos short fits =
    elim (ℕ_discrete (length (frame ++ b ∷ [])) size) [
      | yes full ↦
          rw
            (
              next_byte_inner frame [] b (omega arith),
              end_byte_done size (frame ++ b ∷ []) first full,
              full,
            )
            (rw ((==_iff size size).1 refl))
      | no more ↦
          rw
            (
              next_byte_inner frame [] b (omega arith),
              end_byte_more size (frame ++ b ∷ []) first
                  (omega (arith, length-append frame (b ∷ []))),
              or-false fin,
            )
            (ground arith)
    ]
read_frame size (b ∷ c ∷ bytes) frame fin first pos short fits =
    let whole = frame ++ b ∷ [] in
    let len = length-append frame (b ∷ []) in
    let assoc : whole ++ c ∷ bytes ≡ frame ++ b ∷ c ∷ bytes =
      append_assoc frame (b ∷ []) (c ∷ bytes) in
    rw
      (
        next_byte_inner frame (c ∷ bytes) b (omega arith),
        end_byte_more size whole (first ∙ same_size frame (c ∷ bytes) b) (omega (arith, len)),
        or-false fin,
      )
      (rw assoc at (
        read_frame size (c ∷ bytes) whole fin (first ∙ ap (λ l. get_or l 0 0) (sym assoc)) pos
          (omega (arith, len)) (omega (arith, len))))

pub read_bytes-lost : (bytes : List ℕ) (fin : Bool) → read_bytes none fin bytes ≡ (none, fin)
unfolding read_bytes next_byte
read_bytes-lost [] fin = refl
read_bytes-lost (b ∷ bytes) fin = rw (or-false fin) (read_bytes-lost bytes fin)

-- A frame of size 0 cannot be stepped over.
pub read_bytes-zero :
    (frame bytes : List ℕ) (b : ℕ) (fin : Bool)
    → ((length frame == 0 && b == 0) ≡ true)
    → read_bytes (some frame) fin (b ∷ bytes) ≡ (none, fin)
unfolding read_bytes next_byte
read_bytes-zero frame bytes b fin zero_size =
    rw (zero_size, or-false fin) (read_bytes-lost bytes fin)

pub read_bytes-nil : (s : Framing) (fin : Bool) → read_bytes s fin [] ≡ (s, fin)
unfolding read_bytes
read_bytes-nil s fin = refl

or_assoc : (a b c : Bool) → ((a || b) || c) ≡ (a || (b || c))
or_assoc true b c = refl
or_assoc false b c = refl

-- The framing does not depend on what was found before.
pub read_bytes-found :
    (bytes : List ℕ) (s : Framing) (fin : Bool)
    → read_bytes s fin bytes ≡ ((read_bytes s false bytes).0, fin || (read_bytes s false bytes).1)
unfolding read_bytes
read_bytes-found [] s fin = rw (or-false fin)
read_bytes-found (b ∷ bytes) s fin =
    let (t, done) = next_byte s b in
    let ih = read_bytes-found bytes t in
    rw (ih (fin || done), ih done, or_assoc fin done (read_bytes t false bytes).1)

pub get_or_pos : (xs : List ℕ) → 0 < get_or xs 0 0 → get_or xs 0 1 ≡ get_or xs 0 0
get_or_pos [] h = absurd (omega arith)
get_or_pos (x ∷ xs) h = refl
