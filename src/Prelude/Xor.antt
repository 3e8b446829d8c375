-- ===== src/Prelude/Xor.antt =====
-- The exclusive or of the native numbers.
use Prim.Native.Nat.{
  ℕ, zero, suc, ◌+◌, ◌*◌, ◌/◌, ◌%◌, ◌≤◌, ◌<◌, bit_xor, digits, differ, bit_xor-bitwise,
}
use mathlib.Core.Path.{◌≡◌, refl, ap, ap₂, ◌∙◌}
use native.Mathlib.Omega.{arith}

abbrev xor_digits : ℕ → ℕ → ℕ → ℕ
xor_digits n a b = digits (λ b. b) differ n a b

xor_digits_fuel : (n m a b : ℕ) → a ≤ n → a ≤ m → xor_digits n a b ≡ xor_digits m a b
xor_digits_fuel zero zero a b p q = refl
xor_digits_fuel zero (suc m) zero b p q = refl
xor_digits_fuel zero (suc m) (suc a) b p q = absurd (omega arith)
xor_digits_fuel (suc n) zero zero b p q = refl
xor_digits_fuel (suc n) zero (suc a) b p q = absurd (omega arith)
xor_digits_fuel (suc n) (suc m) zero b p q = refl
xor_digits_fuel (suc n) (suc m) (suc a) b p q =
    omega (arith, xor_digits_fuel n m (suc a / 2) (b / 2) (omega arith) (omega arith))

zero-bit_xor : (b : ℕ) → bit_xor 0 b ≡ b
zero-bit_xor b = bit_xor-bitwise 0 b

bit_xor_step : (a b : ℕ) → bit_xor a b ≡ bit_xor (a / 2) (b / 2) * 2 + differ (a % 2) (b % 2)
bit_xor_step zero b = omega (arith, zero-bit_xor b, zero-bit_xor (b / 2))
bit_xor_step (suc a) b = omega (
  arith,
  bit_xor-bitwise (suc a) b,
  bit_xor-bitwise (suc a / 2) (b / 2),
  xor_digits_fuel a (suc a / 2) (suc a / 2) (b / 2) (omega arith) (omega arith),
)

differ_digit : (x y : ℕ) → x < 2 → y < 2 → differ x y < 2
differ_digit zero y p q = q
differ_digit (suc zero) zero p q = omega arith
differ_digit (suc zero) (suc y) p q = omega arith
differ_digit (suc (suc x)) y p q = absurd (omega arith)

differ_twice : (x y : ℕ) → x < 2 → y < 2 → differ (differ x y) y ≡ x
differ_twice zero zero p q = refl
differ_twice zero (suc zero) p q = refl
differ_twice zero (suc (suc y)) p q = absurd (omega arith)
differ_twice (suc zero) zero p q = refl
differ_twice (suc zero) (suc zero) p q = refl
differ_twice (suc zero) (suc (suc y)) p q = absurd (omega arith)
differ_twice (suc (suc x)) y p q = absurd (omega arith)

differ_self : (x : ℕ) → differ x x ≡ 0
differ_self zero = refl
differ_self (suc x) = differ_self x

bit_xor-self_fuel : (n b : ℕ) → b ≤ n → bit_xor b b ≡ 0
bit_xor-self_fuel zero zero h = zero-bit_xor 0
bit_xor-self_fuel zero (suc b) h = absurd (omega arith)
bit_xor-self_fuel (suc n) b h =
    let low : differ (b % 2) (b % 2) ≡ 0 = differ_self (b % 2) in
    omega (arith, bit_xor_step b b, bit_xor-self_fuel n (b / 2) (omega arith))

bit_xor_twice_fuel : (n a b : ℕ) → a ≤ n → bit_xor (bit_xor a b) b ≡ a
bit_xor_twice_fuel zero zero b h =
    ap (λ x. bit_xor x b) (zero-bit_xor b) ∙ bit_xor-self_fuel b b (omega arith)
bit_xor_twice_fuel zero (suc a) b h = absurd (omega arith)
bit_xor_twice_fuel (suc n) a b h =
    let digit : differ (a % 2) (b % 2) < 2 =
      differ_digit (a % 2) (b % 2) (omega arith) (omega arith) in
    let step = bit_xor_step a b in
    let high : bit_xor a b / 2 ≡ bit_xor (a / 2) (b / 2) = omega arith in
    let low : bit_xor a b % 2 ≡ differ (a % 2) (b % 2) = omega arith in
    let back : differ (differ (a % 2) (b % 2)) (b % 2) ≡ a % 2 =
      differ_twice (a % 2) (b % 2) (omega arith) (omega arith) in
    bit_xor_step (bit_xor a b) b
    ∙ ap₂ (λ x y. bit_xor x (b / 2) * 2 + differ y (b % 2)) high low
    ∙ ap₂ (λ x y. x * 2 + y) (bit_xor_twice_fuel n (a / 2) (b / 2) (omega arith)) back
    ∙ omega arith

pub bit_xor_twice : (a b : ℕ) → bit_xor (bit_xor a b) b ≡ a
bit_xor_twice a b = bit_xor_twice_fuel a a b (omega arith)
