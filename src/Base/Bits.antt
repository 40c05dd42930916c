-- ===== src/Base/Bits.antt =====
-- The operators `&` and `|`, from the digit recursions that the native operations stand for.
use Prim.Native.Nat.{
  ℕ, zero, suc, ◌+◌, ◌*◌, ◌/◌, ◌%◌, ◌≤◌, min, max, bit_and, bit_or, digits, bit_and-bitwise,
  bit_or-bitwise, ◌<◌, ◌^◌,
}
use mathlib.Core.Path.{◌≡◌, refl, ◌∙◌, ap, sym}
use native.Mathlib.Omega.{arith}
use native.Mathlib.Nat.{pow-suc, mul_assoc}

abbrev and_digits : ℕ → ℕ → ℕ → ℕ
and_digits n a b = digits (λ b. zero) min n a b

abbrev or_digits : ℕ → ℕ → ℕ → ℕ
or_digits n a b = digits (λ b. b) max n a b

and_digits-zero : (n a : ℕ) → and_digits n a 0 ≡ 0
and_digits-zero zero zero = refl
and_digits-zero zero (suc a) = refl
and_digits-zero (suc n) zero = refl
and_digits-zero (suc n) (suc a) = omega (arith, and_digits-zero n (suc a / 2))

or_digits-zero : (n a : ℕ) → a ≤ n → or_digits n a 0 ≡ a
or_digits-zero zero zero h = refl
or_digits-zero zero (suc a) h = absurd (omega arith)
or_digits-zero (suc n) zero h = refl
or_digits-zero (suc n) (suc a) h = omega (arith, or_digits-zero n (suc a / 2) (omega arith))

pub bit_and-one : (a : ℕ) → bit_and a 1 ≡ a % 2
bit_and-one zero = bit_and-bitwise 0 1
bit_and-one (suc a) = omega (arith, bit_and-bitwise (suc a) 1, and_digits-zero a (suc a / 2))

-- Setting the lowest bit of an even number adds one.
pub bit_or-one : (a : ℕ) → bit_or a 1 ≡ a / 2 * 2 + 1
bit_or-one zero = bit_or-bitwise 0 1
bit_or-one (suc a) =
    omega (arith, bit_or-bitwise (suc a) 1, or_digits-zero a (suc a / 2) (omega arith))

-- Fuel above the first number changes nothing.
digits_fuel :
    (z : ℕ → ℕ) (f : ℕ → ℕ → ℕ) (n m a b : ℕ) → a ≤ n → a ≤ m → digits z f n a b ≡ digits z f m a b
digits_fuel z f zero zero zero b p q = refl
digits_fuel z f zero (suc m) zero b p q = refl
digits_fuel z f (suc n) zero zero b p q = refl
digits_fuel z f (suc n) (suc m) zero b p q = refl
digits_fuel z f zero m (suc a) b p q = absurd (omega arith)
digits_fuel z f (suc n) zero (suc a) b p q = absurd (omega arith)
digits_fuel z f (suc n) (suc m) (suc a) b p q =
    ap (λ d. d * 2 + f (suc a % 2) (b % 2))
      (digits_fuel z f n m (suc a / 2) (b / 2) (omega arith) (omega arith))

-- The digits recursion takes one bit off both numbers.
bit_and_step : (a b : ℕ) → bit_and a b ≡ bit_and (a / 2) (b / 2) * 2 + min (a % 2) (b % 2)
bit_and_step zero b = omega (arith, bit_and-bitwise 0 b, bit_and-bitwise 0 (b / 2))
bit_and_step (suc a) b =
    let h = suc a / 2 in
    let e = digits_fuel (λ b. zero) min a h h (b / 2) (omega arith) (omega arith) in
    omega (arith, bit_and-bitwise (suc a) b, bit_and-bitwise h (b / 2), e)

bit_or_step : (a b : ℕ) → bit_or a b ≡ bit_or (a / 2) (b / 2) * 2 + max (a % 2) (b % 2)
bit_or_step zero b = omega (arith, bit_or-bitwise 0 b, bit_or-bitwise 0 (b / 2))
bit_or_step (suc a) b =
    let h = suc a / 2 in
    let e = digits_fuel (λ b. b) max a h h (b / 2) (omega arith) (omega arith) in
    omega (arith, bit_or-bitwise (suc a) b, bit_or-bitwise h (b / 2), e)

bit_or-zero : (a : ℕ) → bit_or a 0 ≡ a
bit_or-zero zero = bit_or-bitwise 0 0
bit_or-zero (suc a) = bit_or-bitwise (suc a) 0 ∙ or_digits-zero (suc a) (suc a) (omega arith)

-- Bits above `y` only: `|` adds.
pub bit_or-shifted : (k x y : ℕ) → y < 2 ^ k → bit_or (x * 2 ^ k) y ≡ x * 2 ^ k + y
bit_or-shifted zero x zero h = omega (arith, bit_or-zero (x * 1))
bit_or-shifted zero x (suc y) h = absurd (omega arith)
bit_or-shifted (suc k) x y h =
    let e : x * 2 ^ suc k ≡ x * 2 ^ k * 2 = rw (pow-suc 2 k) (sym (mul_assoc x (2 ^ k) 2)) in
    let half : x * 2 ^ suc k / 2 ≡ x * 2 ^ k = omega (arith, e) in
    let step = rw half at (bit_or_step (x * 2 ^ suc k) y) in
    omega (arith, e, step, bit_or-shifted k x (y / 2) (omega (arith, pow-suc 2 k)))

pub bit_and_three : (a : ℕ) → bit_and a 3 ≡ a % 4
bit_and_three a = omega (arith, bit_and_step a 3, bit_and-one (a / 2))

pub bit_and_fifteen : (a : ℕ) → bit_and a 15 ≡ a % 16
bit_and_fifteen a =
    omega (arith, bit_and_step a 15, bit_and_step (a / 2) 7, bit_and_three (a / 2 / 2))

pub bit_and_sixty_three : (a : ℕ) → bit_and a 63 ≡ a % 64
bit_and_sixty_three a =
    omega (arith, bit_and_step a 63, bit_and_step (a / 2) 31, bit_and_fifteen (a / 2 / 2))
