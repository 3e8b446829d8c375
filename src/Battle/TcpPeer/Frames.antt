-- ===== src/Battle/TcpPeer/Frames.antt =====
-- Frames cut into reads at any place are put together again.
use mathlib.Core.List.{head-eq_of_cons-eq, tail-eq_of_cons-eq}
use mathlib.Core.Path.{ap₂}
use zdxsv.Prelude.{
  ℕ, zero, suc, ◌≤◌, ◌<◌, ◌≡◌, refl, sym, ap, ◌∙◌, List, [], ◌∷◌, ◌++◌, false, leb, ◌==◌, length,
  take, drop, append-nil, append_assoc, length-drop, arith, Bool-cases, inl, inr, All, ==_ne,
}
use zdxsv.Battle.TcpPeer.{Framed, framed, take_frames}

-- A frame begins with its length.
abbrev pub IsFrame : List ℕ → Type 0
IsFrame [] = ⊥
IsFrame (b ∷ bs) = b ≡ suc (length bs)

abbrev pub flatten {ℓ} : {A : Type ℓ} → List (List A) → List A
flatten [] = []
flatten (xs ∷ xss) = xs ++ flatten xss

-- Less than a frame.
abbrev pub IsPart : List ℕ → Type 0
IsPart [] = Unit
IsPart (b ∷ bs) = suc (length bs) < b

-- The frames `fs` of a stream at the end of the loop: those taken, those to come, the first of which
-- begins in the bytes left.
abbrev pub Taken : List (List ℕ) → List ℕ → List ℕ → List ℕ → Framed → Type 0
Taken fs tmp bytes future r =
    (taken : List (List ℕ)) × (to_come : List (List ℕ)) × (rest : List ℕ) × (r
      ≡ framed (tmp ++ flatten taken) rest)
    × (fs ≡ taken ++ to_come)
    × (rest ++ future ≡ flatten to_come)
    × IsPart rest

-- A list at the front of both sides: the shorter one is a part of the longer.
take_front :
    (xs ys zs ws : List ℕ)
    → xs ++ ys ≡ zs ++ ws
    → length zs ≤ length xs
    → (take (length zs) xs ≡ zs) × (drop (length zs) xs ++ ys ≡ ws)
take_front xs ys [] ws e h = (refl, e)
take_front [] ys (z ∷ zs) ws e h = absurd (omega arith)
take_front (x ∷ xs) ys (z ∷ zs) ws e h =
    let (t, d) = take_front xs ys zs ws (tail-eq_of_cons-eq e) (omega arith) in
    (ap₂ ◌∷◌ (head-eq_of_cons-eq e) t, d)

pub take_frames_lem :
    (fs : List (List ℕ)) (fuel : ℕ) (tmp bytes future : List ℕ)
    → All IsFrame fs
    → length bytes ≤ fuel
    → bytes ++ future ≡ flatten fs
    → Taken fs tmp bytes future (take_frames fuel tmp bytes)
unfolding take_frames
take_frames_lem fs fuel tmp [] future a h e =
    ([], fs, [], ap (λ t. framed t []) (sym (append-nil tmp)), refl, e, tt)
take_frames_lem [] fuel tmp (b ∷ bytes) future a h e = absurd (grind (arith, e))
take_frames_lem ([] ∷ fs) fuel tmp (b ∷ bytes) future a h e = absurd a.0
take_frames_lem (f ∷ fs) zero tmp (b ∷ bytes) future a h e = absurd (omega arith)
take_frames_lem ((c ∷ cs) ∷ fs) (suc fuel) tmp (b ∷ bytes) future a h e =
    let size : b ≡ length (c ∷ cs) = head-eq_of_cons-eq e ∙ a.0 in
    let some_size : (b == 0) ≡ false = ==_ne b 0 (λ z. let one = size in omega arith) in
    elim (Bool-cases (leb b (length (b ∷ bytes)))) [
      | inl enough ↦
          let fits : length (c ∷ cs) ≤ length (b ∷ bytes) = ground arith in
          let (t, d) = take_front (b ∷ bytes) future (c ∷ cs) (flatten fs) e fits in
          let front : take b (b ∷ bytes) ≡ c ∷ cs = ap (λ n. take n (b ∷ bytes)) size ∙ t in
          let behind : drop b (b ∷ bytes) ++ future ≡ flatten fs =
            ap (λ n. drop n (b ∷ bytes) ++ future) size ∙ d in
          let (taken, to_come, rest, r, s, u, w) =
            take_frames_lem fs fuel (tmp ++ take b (b ∷ bytes)) (drop b (b ∷ bytes)) future a.1
              (omega (arith, length-drop b (b ∷ bytes))) behind in
          (
            (c ∷ cs) ∷ taken,
            to_come,
            rest,
            rw (some_size, enough)
                (r
                  ∙ ap (λ z. framed ((tmp ++ z) ++ flatten taken) rest) front
                  ∙ ap (λ z. framed z rest) (append_assoc tmp (c ∷ cs) (flatten taken))),
            ap (◌∷◌ (c ∷ cs)) s,
            u,
            w,
          )
      | inr short ↦ (
        [],
        (c ∷ cs) ∷ fs,
        b ∷ bytes,
        rw (some_size, short) (ap (λ t. framed t (b ∷ bytes)) (sym (append-nil tmp))),
        refl,
        e,
        ground arith,
      )
    ]
