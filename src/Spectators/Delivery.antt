-- ===== src/Spectators/Delivery.antt =====
-- What a spectator of pkg/lobby/spectator.go gets: the response header and then the upload from its
-- first byte, in order, however the connection takes it.
use zdxsv.Prelude.{
  ℕ, zero, suc, ◌+◌, ◌≤◌, min, List, [], ◌∷◌, ◌++◌, ◌≡◌, refl, sym, ap, ◌∙◌, ◌⊎◌, inl, inr, ◌==◌,
  length, take, drop, append-nil, append_assoc, take-append-drop, length-append, length-drop,
  Bool-cases, arith,
}
use zdxsv.Spectators.{LiveWatcher}
use zdxsv.Spectators.Writes.{Outcome, to_send, advance, advanced, write}

-- Written so far and still to be written of the header `h`, and the place in the upload.
abbrev pub Fed : List ℕ → List ℕ → LiveWatcher → Type 0
Fed h buf w =
    (w.got ++ w.pre ≡ h ++ take w.pos buf) × ((w.pre ≡ []) ⊎ (w.pos ≡ 0)) × (w.pos ≤ length buf)

take_none : (m : ℕ) → take {A = ℕ} m [] ≡ []
take_none zero = refl
take_none (suc m) = refl

take_add : (n m : ℕ) (xs : List ℕ) → take (n + m) xs ≡ take n xs ++ take m (drop n xs)
take_add zero m xs = let e : 0 + m ≡ m = omega arith in ap (λ k. take k xs) e
take_add (suc n) m [] =
    let e : suc n + m ≡ suc (n + m) = omega arith in ap (λ k. take k []) e ∙ sym (take_none m)
take_add (suc n) m (x ∷ xs) =
    let e : suc n + m ≡ suc (n + m) = omega arith in
    ap (λ k. take k (x ∷ xs)) e ∙ ap (◌∷◌ x) (take_add n m xs)

take_more : (n : ℕ) (xs ys : List ℕ) → n ≤ length xs → take n (xs ++ ys) ≡ take n xs
take_more zero xs ys h = refl
take_more (suc n) [] ys h = absurd (omega arith)
take_more (suc n) (x ∷ xs) ys h = ap (◌∷◌ x) (take_more n xs ys (omega arith))

module _ (h buf : List ℕ) (now : ℕ) where
  advance-Fed :
      (n : ℕ) (w : LiveWatcher) (pre : List ℕ)
      → w.pre ≡ pre
      → n ≤ length (to_send w buf)
      → Fed h buf w
      → Fed h buf (advance now buf n w pre)
  advance-Fed n w [] e small (eq, place, low) =
      let none_left : w.got ≡ h ++ take w.pos buf =
        sym (append-nil w.got) ∙ ap (λ l. w.got ++ l) (sym e) ∙ eq in
      let small' : n ≤ length (drop w.pos buf) = rw e at small in
      (
        ap (λ l. w.got ++ take n (drop w.pos buf) ++ l) e
            ∙ append-nil (w.got ++ take n (drop w.pos buf))
            ∙ ap (λ l. l ++ take n (drop w.pos buf)) none_left
            ∙ append_assoc h (take w.pos buf) (take n (drop w.pos buf))
            ∙ ap (λ l. h ++ l) (sym (take_add w.pos n buf)),
        inl e,
        omega (arith, length-drop w.pos buf),
      )
  advance-Fed n w (x ∷ xs) e small (eq, inl none_left, low) = absurd (cc (e, none_left))
  advance-Fed n w (x ∷ xs) e small (eq, inr zero_pos, low) = (
    append_assoc w.got (take n w.pre) (drop n w.pre)
        ∙ ap (λ l. w.got ++ l) (take-append-drop n w.pre)
        ∙ eq,
    inr zero_pos,
    low,
  )

  advanced-Fed :
      (n : ℕ) (w : LiveWatcher)
      → n ≤ length (to_send w buf)
      → Fed h buf w
      → Fed h buf (advanced now buf n w)
  advanced-Fed n w small fed = elim (Bool-cases (n == 0)) [
    | inl e ↦ rw e fed
    | inr e ↦ rw e (advance-Fed n w w.pre refl small fed)
  ]

  write-Fed : (os : List Outcome) (w : LiveWatcher) → Fed h buf w → Fed h buf (write now buf os w).1
  unfolding write
  write-Fed [] w fed = fed
  write-Fed (o ∷ os) w fed =
      let n = min o.taken (length (to_send w buf)) in
      let fed' = advanced-Fed n w (omega arith) fed in
      elim (Bool-cases (length (to_send w buf) == 0)) [
        | inl e ↦ rw e fed
        | inr e ↦ elim (Bool-cases o.failed) [
          | inl f ↦ rw (e, f) fed'
          | inr f ↦ elim (Bool-cases (n == length (to_send w buf))) [
            | inl g ↦ rw (e, f, g) (write-Fed os (advanced now buf n w) fed')
            | inr g ↦ rw (e, f, g) fed'
          ]
        ]
      ]

-- The life of a spectator with the header `h`: it joins, the upload grows, and it has its turns.
pub data Watching (h : List ℕ) : List ℕ → LiveWatcher → Type 0 where
  joined :
      (buf : List ℕ) (b conn now : ℕ)
      → Watching h buf (record { b = b; conn = conn; got = []; pre = h; pos = 0; progress = now })
  grown :
      {buf : List ℕ} {w : LiveWatcher} (more : List ℕ)
      → Watching h buf w
      → Watching h (buf ++ more) w
  served :
      {buf : List ℕ} {w : LiveWatcher} (now : ℕ) (os : List Outcome)
      → Watching h buf w
      → Watching h buf (write now buf os w).1

watching-Fed : (h buf : List ℕ) (w : LiveWatcher) → Watching h buf w → Fed h buf w
watching-Fed h _ _ (joined buf b conn now) = (sym (append-nil h), inr refl, omega arith)
watching-Fed h _ w (grown {buf = buf} more t) =
    let (eq, place, low) = watching-Fed h buf w t in
    (
      eq ∙ ap (λ l. h ++ l) (sym (take_more w.pos buf more low)),
      place,
      omega (arith, length-append buf more),
    )
watching-Fed h _ _ (served {buf = buf} {w = w} now os t) =
    write-Fed h buf now os w (watching-Fed h buf w t)

take_all : (xs : List ℕ) → take (length xs) xs ≡ xs
take_all [] = refl
take_all (x ∷ xs) = ap (◌∷◌ x) (take_all xs)

-- At any time, what a spectator was sent and what is still to be sent are the header and the upload so
-- far; one that has all of both was sent exactly these.
pub watching_lem :
    (h buf : List ℕ) (w : LiveWatcher)
    → Watching h buf w
    → (w.got ++ (w.pre ++ drop w.pos buf) ≡ h ++ buf)
      × (w.pre ≡ [] → w.pos ≡ length buf → w.got ≡ h ++ buf)
watching_lem h buf w t =
    let (eq, place, low) = watching-Fed h buf w t in
    (
      sym (append_assoc w.got w.pre (drop w.pos buf))
          ∙ ap (λ l. l ++ drop w.pos buf) eq
          ∙ append_assoc h (take w.pos buf) (drop w.pos buf)
          ∙ ap (λ l. h ++ l) (take-append-drop w.pos buf),
      λ e f.
          sym (append-nil w.got)
          ∙ ap (λ l. w.got ++ l) (sym e)
          ∙ eq
          ∙ ap (λ n. h ++ take n buf) f
          ∙ ap (λ l. h ++ l) (take_all buf),
    )
