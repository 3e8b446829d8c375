-- ===== src/Prelude/Reading.antt =====
-- The values of a function at consecutive numbers, and slices of a list read so.
use Prim.Native.Nat.add
use Prim.Native.Nat.{ℕ, zero, suc, ◌+◌, ◌-◌, ◌≤◌, ◌<◌, max}
use mathlib.Core.Path.{◌≡◌, refl, ap, ap₂, ◌∙◌}
use mathlib.Core.List.{List, [], ◌∷◌, ◌++◌, map, append-nil}
use mathlib.Core.Option.{some}
use mathlib.Core.Logic.{◌≢◌}
use native.Mathlib.Nat.{add-zero}
use native.Mathlib.Omega.{arith}
use zdxsv.Prelude.Lists.{take, drop, length, get_or, get_elem?, set}

suc_shift : (s i : ℕ) → suc s + i ≡ s + suc i
suc_shift s i = omega arith

one_add : (i : ℕ) → 1 + i ≡ suc i
one_add i = omega arith

module _ {ℓ} {A : Type ℓ} where
  abbrev pub read_at : (ℕ → A) → ℕ → ℕ → List A
  read_at f s zero = []
  read_at f s (suc n) = f s ∷ read_at f (suc s) n

  pub read_at-split :
      (f : ℕ → A) (s a b : ℕ) → read_at f s (a + b) ≡ read_at f s a ++ read_at f (s + a) b
  read_at-split f s zero b = rw (add.zero b, add-zero s)
  read_at-split f s (suc a) b =
      let shift : s + suc a ≡ suc s + a = omega arith in
      rw (add.suc a b, shift) (ap (◌∷◌ (f s)) (read_at-split f (suc s) a b))

  pub read_at_congr :
      (f g : ℕ → A) (s t n : ℕ)
      → ((i : ℕ) → i < n → f (s + i) ≡ g (t + i))
      → read_at f s n ≡ read_at g t n
  read_at_congr f g s t zero h = refl
  read_at_congr f g s t (suc n) h = ap₂ ◌∷◌ (rw (add-zero s, add-zero t) at (h 0 (omega arith))) (
      read_at_congr f g (suc s) (suc t) n
        (λ i hi. rw (← suc_shift s i, ← suc_shift t i) at (h (suc i) (omega arith))))

  pub take-read_at :
      (xs : List A) (d : A) (l n : ℕ)
      → l + n ≤ length xs
      → take n (drop l xs) ≡ read_at (λ i. get_or xs i d) l n
  take-read_at xs d zero zero h = refl
  take-read_at [] d zero (suc n) h = absurd (omega arith)
  take-read_at (x ∷ xs) d zero (suc n) h = ap (◌∷◌ x) (
      take-read_at xs d zero n (omega arith)
      ∙ read_at_congr _ _ 0 1 n (λ i hi. rw (add.zero i, one_add i)))
  take-read_at [] d (suc l) zero h = refl
  take-read_at [] d (suc l) (suc n) h = absurd (omega arith)
  take-read_at (x ∷ xs) d (suc l) n h =
      take-read_at xs d l n (omega arith) ∙ read_at_congr _ _ l (suc l) n (λ i hi. rw (add.suc l i))

  pub take_all : (n : ℕ) (xs : List A) → length xs ≤ n → take n xs ≡ xs
  take_all zero [] h = refl
  take_all zero (x ∷ xs) h = absurd (omega arith)
  take_all (suc n) [] h = refl
  take_all (suc n) (x ∷ xs) h = ap (◌∷◌ x) (take_all n xs (omega arith))

module _ {ℓ} {A : Type ℓ} where
  pub get_elem?-read_at :
      (xs : List A) (l n : ℕ)
      → l + n ≤ length xs
      → read_at (get_elem? xs) l n ≡ map some (take n (drop l xs))
  get_elem?-read_at xs zero zero h = refl
  get_elem?-read_at [] zero (suc n) h = absurd (omega arith)
  get_elem?-read_at (x ∷ xs) zero (suc n) h = ap (◌∷◌ (some x)) (
      read_at_congr _ _ 1 0 n (λ i hi. rw (add.zero i, one_add i))
      ∙ get_elem?-read_at xs zero n (omega arith))
  get_elem?-read_at [] (suc l) zero h = refl
  get_elem?-read_at [] (suc l) (suc n) h = absurd (omega arith)
  get_elem?-read_at (x ∷ xs) (suc l) n h =
      read_at_congr _ _ (suc l) l n (λ i hi. rw (add.suc l i))
      ∙ get_elem?-read_at xs l n (omega arith)

  pub get_or-set_self :
      (xs : List A) (i : ℕ) (v d : A) → i < length xs → get_or (set xs i v) i d ≡ v
  get_or-set_self [] i v d h = absurd (omega arith)
  get_or-set_self (x ∷ xs) zero v d h = refl
  get_or-set_self (x ∷ xs) (suc i) v d h = get_or-set_self xs i v d (omega arith)

  pub get_or-set_ne :
      (xs : List A) (i j : ℕ) (v d : A) → i ≢ j → get_or (set xs i v) j d ≡ get_or xs j d
  get_or-set_ne [] i j v d h = refl
  get_or-set_ne (x ∷ xs) zero zero v d h = absurd (h refl)
  get_or-set_ne (x ∷ xs) zero (suc j) v d h = refl
  get_or-set_ne (x ∷ xs) (suc i) zero v d h = refl
  get_or-set_ne (x ∷ xs) (suc i) (suc j) v d h = get_or-set_ne xs i j v d (λ e. h (ap suc e))

  pub get_elem?-append_left :
      (xs ys : List A) (i : ℕ) → i < length xs → get_elem? (xs ++ ys) i ≡ get_elem? xs i
  get_elem?-append_left [] ys i h = absurd (omega arith)
  get_elem?-append_left (x ∷ xs) ys zero h = refl
  get_elem?-append_left (x ∷ xs) ys (suc i) h = get_elem?-append_left xs ys i (omega arith)

  pub get_elem?-append_self :
      (xs : List A) (y : A) (ys : List A) → get_elem? (xs ++ y ∷ ys) (length xs) ≡ some y
  get_elem?-append_self [] y ys = refl
  get_elem?-append_self (x ∷ xs) y ys = get_elem?-append_self xs y ys

module _ {ℓ} {A : Type ℓ} where
  pub take-nil : (n : ℕ) → take {A = A} n [] ≡ []
  take-nil zero = refl
  take-nil (suc n) = refl

  pub drop-nil : (n : ℕ) → drop {A = A} n [] ≡ []
  drop-nil zero = refl
  drop-nil (suc n) = refl

  pub take-append_left : (n : ℕ) (xs ys : List A) → n ≤ length xs → take n (xs ++ ys) ≡ take n xs
  take-append_left zero xs ys h = refl
  take-append_left (suc n) [] ys h = absurd (omega arith)
  take-append_left (suc n) (x ∷ xs) ys h = ap (◌∷◌ x) (take-append_left n xs ys (omega arith))

  -- A window that lies in `xs` is the same in a longer list.
  pub take-drop-append_left :
      (n l : ℕ) (xs ys : List A)
      → l + n ≤ length xs
      → take n (drop l (xs ++ ys)) ≡ take n (drop l xs)
  take-drop-append_left n zero xs ys h = take-append_left n xs ys (omega arith)
  take-drop-append_left n (suc l) (x ∷ xs) ys h = take-drop-append_left n l xs ys (omega arith)
  take-drop-append_left zero (suc l) [] ys h = refl
  take-drop-append_left (suc n) (suc l) [] ys h = absurd (omega arith)

  overlap :
      (n count : ℕ) (xs : List A) → take n xs ++ drop n (take count xs) ≡ take (max n count) xs
  overlap zero count xs = let e : max 0 count ≡ count = omega arith in rw e
  overlap (suc n) count [] = rw (take-nil count, take-nil (max (suc n) count))
  overlap (suc n) zero (x ∷ xs) = let e : max (suc n) 0 ≡ suc n = omega arith in rw (append-nil, e)
  overlap (suc n) (suc count) (x ∷ xs) =
      let e : max (suc n) (suc count) ≡ suc (max n count) = omega arith in
      rw e (ap (◌∷◌ x) (overlap n count xs))

  -- A prefix of length `n`, continued by what a window from before its end adds.
  pub take-splice :
      (from n count : ℕ) (xs : List A)
      → from ≤ n
      → n ≤ length xs
      → take n xs ++ drop (n - from) (take count (drop from xs)) ≡ take (max n (from + count)) xs
  take-splice zero n count xs h k =
      let e : n - 0 ≡ n = omega arith in rw (e, add.zero count) (overlap n count xs)
  take-splice (suc from) zero count xs h k = absurd (omega arith)
  take-splice (suc from) (suc n) count [] h k = absurd (omega arith)
  take-splice (suc from) (suc n) count (x ∷ xs) h k =
      let e : suc n - suc from ≡ n - from = omega arith in
      let m : max (suc n) (suc from + count) ≡ suc (max n (from + count)) = omega arith in
      rw (e, m) (ap (◌∷◌ x) (take-splice from n count xs (omega arith) (omega arith)))
