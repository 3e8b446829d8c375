-- ===== src/Message/Dispatch/Ending.antt =====
-- The dispatch loop ends: each message takes bytes off the buffer.
use zdxsv.Prelude.{
  ℕ, zero, suc, ◌+◌, ◌%◌, ◌≤◌, ◌<◌, List, [], ◌∷◌, ltb, length, drop, arith, length-drop,
  Bool-cases, inl, inr,
}
use zdxsv.Message.{Message, header_size, Parsed, incomplete, parsed, crash, deserialize, parse_body}
use zdxsv.Message.Dispatch.{
  dispatch, handle, on_message, Round, waiting, closed, panicked, out_of_fuel,
}

abbrev Advances : Parsed → Type 0
Advances incomplete = Unit
Advances crash = Unit
Advances (parsed n m) = header_size ≤ n

parse_body-Advances : (m : Message) (bytes tail : List ℕ) → Advances (parse_body m bytes tail)
unfolding parse_body
parse_body-Advances m bytes tail =
    elim (Bool-cases (ltb (length bytes) (header_size + m.body_size))) [
      | inl e ↦ rw e tt
      | inr e ↦ elim (Bool-cases (ltb ((header_size + m.body_size) % 65536) header_size)) [
        | inl f ↦ rw (e, f) tt
        | inr f ↦ rw (e, f) (ground arith)
      ]
    ]

deserialize-Advances : (bytes : List ℕ) → Advances (deserialize bytes)
unfolding deserialize
deserialize-Advances [] = tt
deserialize-Advances (x0 ∷ []) = tt
deserialize-Advances (x0 ∷ x1 ∷ []) = tt
deserialize-Advances (x0 ∷ x1 ∷ x2 ∷ []) = tt
deserialize-Advances (x0 ∷ x1 ∷ x2 ∷ x3 ∷ []) = tt
deserialize-Advances (x0 ∷ x1 ∷ x2 ∷ x3 ∷ x4 ∷ []) = tt
deserialize-Advances (x0 ∷ x1 ∷ x2 ∷ x3 ∷ x4 ∷ x5 ∷ []) = tt
deserialize-Advances (x0 ∷ x1 ∷ x2 ∷ x3 ∷ x4 ∷ x5 ∷ x6 ∷ []) = tt
deserialize-Advances (x0 ∷ x1 ∷ x2 ∷ x3 ∷ x4 ∷ x5 ∷ x6 ∷ x7 ∷ []) = tt
deserialize-Advances (x0 ∷ x1 ∷ x2 ∷ x3 ∷ x4 ∷ x5 ∷ x6 ∷ x7 ∷ x8 ∷ []) = tt
deserialize-Advances (x0 ∷ x1 ∷ x2 ∷ x3 ∷ x4 ∷ x5 ∷ x6 ∷ x7 ∷ x8 ∷ x9 ∷ []) = tt
deserialize-Advances (x0 ∷ x1 ∷ x2 ∷ x3 ∷ x4 ∷ x5 ∷ x6 ∷ x7 ∷ x8 ∷ x9 ∷ x10 ∷ []) = tt
deserialize-Advances (x0 ∷ x1 ∷ x2 ∷ x3 ∷ x4 ∷ x5 ∷ x6 ∷ x7 ∷ x8 ∷ x9 ∷ x10 ∷ x11 ∷ tail) =
    parse_body-Advances _ _ tail

abbrev pub IsEnded : Round → Type 0
IsEnded out_of_fuel = ⊥
IsEnded _ = Unit

on_message-IsEnded : (m : Message) (r : Round) → IsEnded r → IsEnded (on_message m r)
on_message-IsEnded m (waiting ms b) e = tt
on_message-IsEnded m (closed ms) e = tt
on_message-IsEnded m (panicked ms) e = tt
on_message-IsEnded m out_of_fuel e = e

handle-IsEnded :
    (p : Parsed) (next : ℕ → Round)
    → Advances p
    → ((n : ℕ) → header_size ≤ n → IsEnded (next n))
    → IsEnded (handle p next)
handle-IsEnded incomplete next a h = tt
handle-IsEnded crash next a h = tt
handle-IsEnded (parsed n m) next a h = on_message-IsEnded m (next n) (h n a)

-- A round of fuel for each byte, and one more, is enough for any buffer.
pub dispatch-IsEnded :
    (fuel : ℕ) (inbuf : List ℕ) → length inbuf < fuel → IsEnded (dispatch fuel inbuf)
unfolding dispatch
dispatch-IsEnded zero inbuf h = absurd (omega arith)
dispatch-IsEnded (suc fuel) inbuf h = elim (Bool-cases (ltb (length inbuf) header_size)) [
  | inl e ↦ rw e tt
  | inr e ↦
      let long : header_size ≤ length inbuf = ground arith in
      rw e (
        handle-IsEnded (deserialize inbuf) _ (deserialize-Advances inbuf)
          (λ n low. dispatch-IsEnded fuel (drop n inbuf) (omega (arith, length-drop n inbuf))))
]
