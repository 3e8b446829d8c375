-- ===== src/Proto/BattleBuffer/Window.antt =====
-- What the two slices of the ring hold, read index by index.
use zdxsv.Prelude.{
  ℕ, ◌+◌, ◌-◌, ◌%◌, ◌≤◌, ◌<◌, ◌≡◌, sym, ap, ◌∙◌, List, ◌++◌, Option, none, leb, arith, take, drop,
  length, get_or, Bool-cases, leb→le, length-drop, inl, inr,
}
use mathlib.Core.Path.{ap₂}
use zdxsv.Prelude.Reading.{take_all, read_at, read_at-split, read_at_congr, take-read_at}
use zdxsv.Proto.BattleBuffer.{BattleMessage, ring_size, ring_slice}

-- The read position of the message number `i`.
abbrev pub slot : List (Option BattleMessage) → ℕ → Option BattleMessage
slot rbuf i = get_or rbuf (i % ring_size) none

-- Up to the end of the slice the index of the number `s + i` is `s % 4096 + i`.
linear_part :
    (rbuf : List (Option BattleMessage)) (s n : ℕ)
    → length rbuf ≡ ring_size
    → s % ring_size + n ≤ ring_size
    → take n (drop (s % ring_size) rbuf) ≡ read_at (slot rbuf) s n
linear_part rbuf s n len fits =
    take-read_at rbuf none (s % ring_size) n (omega arith)
    ∙ read_at_congr _ _ (s % ring_size) s n (λ i hi. ap (λ k. get_or rbuf k none) (omega arith))

-- A window shorter than the ring is read in order, over the end of the slice too.
pub ring_slice-read_at :
    (rbuf : List (Option BattleMessage)) (s n : ℕ)
    → length rbuf ≡ ring_size
    → n < ring_size
    → ring_slice rbuf (s % ring_size) ((s + n) % ring_size) ≡ read_at (slot rbuf) s n
unfolding ring_slice
ring_slice-read_at rbuf s n len short =
    elim (Bool-cases (leb (s % ring_size) ((s + n) % ring_size))) [
      | inl e ↦
          let width : (s + n) % ring_size - s % ring_size ≡ n = omega (arith, leb→le _ _ e) in
          rw (e, width) (linear_part rbuf s n len (omega (arith, leb→le _ _ e)))
      | inr e ↦
          let first = ring_size - s % ring_size in
          let r = (s + n) % ring_size in
          let wraps : r < s % ring_size = ground arith in
          let total : n ≡ first + r = omega arith in
          let start : (s + first) % ring_size ≡ 0 = omega arith in
          rw e (
            ap₂ ◌++◌
              (sym (
                  take_all first (drop (s % ring_size) rbuf)
                    (omega (arith, length-drop (s % ring_size) rbuf)))
                ∙ linear_part rbuf s first len (omega arith))
              (rw start at (linear_part rbuf (s + first) r len (omega arith)))
            ∙ sym (read_at-split (slot rbuf) s first r)
            ∙ ap (read_at (slot rbuf) s) (sym total))
    ]
