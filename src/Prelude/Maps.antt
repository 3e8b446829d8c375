-- ===== src/Prelude/Maps.antt =====
-- A Go map with string keys: as a function, where `none` is a missing key, and as a list of its entries
-- where the code counts or ranges over them.
use Prim.Native.String.{String}
use mathlib.Core.Path.{◌≡◌, refl, sym, ap, ◌∙◌}
use mathlib.Core.List.{List, [], ◌∷◌}
use mathlib.Core.Logic.{◌≢◌, inl, inr}
use mathlib.Core.Bool.{true, false}
use mathlib.Core.Option.{Option, none, some}
use text.Mathlib.Text.{◌==◌ as str_eq}
use text.Mathlib.TextEquality.{eq_iff}
use zdxsv.Prelude.Tests.{if◌then◌else◌, Bool-cases}

pub str_eq_self : (k : String) → str_eq k k ≡ true
str_eq_self k = (eq_iff k k).1 refl

pub str_eq_ne : (j k : String) → j ≢ k → str_eq j k ≡ false
str_eq_ne j k h = elim (Bool-cases (str_eq j k)) [
  | inl e ↦ absurd (h ((eq_iff j k).0 e))
  | inr e ↦ e
]

pub ne_of_str_eq : (j k : String) → str_eq j k ≡ false → j ≢ k
ne_of_str_eq j k h e = cc ((eq_iff j k).1 e, h)

module _ {ℓ} {V : Type ℓ} where
  -- `m[k] = v`
  abbrev pub insert : String → V → (String → Option V) → String → Option V
  insert k v m j = if str_eq j k then some v else m j

  -- `delete(m, k)`
  abbrev pub remove : String → (String → Option V) → String → Option V
  remove k m j = if str_eq j k then none else m j

module _ {ℓ} {V : Type ℓ} where
  abbrev pub find : List (String × V) → String → Option V
  find [] k = none
  find ((j, v) ∷ es) k = if str_eq j k then some v else find es k

  -- `m[k] = v`: the entry stays where it is, and a new one goes to the end.
  abbrev pub store : String → V → List (String × V) → List (String × V)
  store k v [] = (k, v) ∷ []
  store k v ((j, w) ∷ es) =
      let rest = store k v es in if str_eq j k then (j, v) ∷ es else (j, w) ∷ rest

  -- `delete(m, k)`
  abbrev pub erase : String → List (String × V) → List (String × V)
  erase k [] = []
  erase k ((j, w) ∷ es) = let rest = erase k es in if str_eq j k then rest else (j, w) ∷ rest

  pub find-store_self :
      (k : String) (v : V) (es : List (String × V)) → find (store k v es) k ≡ some v
  find-store_self k v [] = rw (str_eq_self k) refl
  find-store_self k v ((j, w) ∷ es) = elim (Bool-cases (str_eq j k)) [
    | inl e ↦ rw (e, e) refl
    | inr e ↦ rw (e, e) (find-store_self k v es)
  ]

  pub find-store_ne :
      (k : String) (v : V) (l : String) (es : List (String × V))
      → k ≢ l
      → find (store k v es) l ≡ find es l
  find-store_ne k v l [] n = rw (str_eq_ne k l n) refl
  find-store_ne k v l ((j, w) ∷ es) n = elim (Bool-cases (str_eq j k)) [
    | inl e ↦
        let other : str_eq j l ≡ false = str_eq_ne j l (λ i. n (sym ((eq_iff j k).0 e) ∙ i)) in
        rw (e, other) refl
    | inr e ↦ rw e (ap (λ o. if str_eq j l then some w else o) (find-store_ne k v l es n))
  ]

  pub find-erase_self : (k : String) (es : List (String × V)) → find (erase k es) k ≡ none
  find-erase_self k [] = refl
  find-erase_self k ((j, w) ∷ es) = elim (Bool-cases (str_eq j k)) [
    | inl e ↦ rw e (find-erase_self k es)
    | inr e ↦ rw (e, e) (find-erase_self k es)
  ]

  pub find-erase_ne :
      (k l : String) (es : List (String × V)) → k ≢ l → find (erase k es) l ≡ find es l
  find-erase_ne k l [] n = refl
  find-erase_ne k l ((j, w) ∷ es) n = elim (Bool-cases (str_eq j k)) [
    | inl e ↦
        let other : str_eq j l ≡ false = str_eq_ne j l (λ i. n (sym ((eq_iff j k).0 e) ∙ i)) in
        rw (e, other) (find-erase_ne k l es n)
    | inr e ↦ rw e (ap (λ o. if str_eq j l then some w else o) (find-erase_ne k l es n))
  ]
