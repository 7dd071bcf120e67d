-- ===== src/Base/Bits.antt =====
-- `&` with a mask of low bits, and `|` of a shifted number with one that fits below it.
use Prim.Native.Nat.{
  ℕ, zero, suc, ◌+◌, ◌*◌, ◌/◌, ◌%◌, ◌^◌, ◌≤◌, ◌<◌, min, max, bit_and, bit_or, digits,
  bit_and-bitwise, bit_or-bitwise,
}
use mathlib.Core.Path.{◌≡◌, refl, ap, ◌∙◌}
use native.Mathlib.Omega.{arith}

-- The count of digits to go does not matter, as long as it reaches.
digits_count :
    (z : ℕ → ℕ) (f : ℕ → ℕ → ℕ) (n m a b : ℕ) → a ≤ n → a ≤ m → digits z f n a b ≡ digits z f m a b
digits_count z f zero zero a b p q = refl
digits_count z f zero (suc m) zero b p q = refl
digits_count z f (suc n) zero zero b p q = refl
digits_count z f (suc n) (suc m) zero b p q = refl
digits_count z f zero m (suc a) b p q = absurd (omega arith)
digits_count z f (suc n) zero (suc a) b p q = absurd (omega arith)
digits_count z f (suc n) (suc m) (suc a) b p q =
    omega (arith, digits_count z f n m (suc a / 2) (b / 2) (omega arith) (omega arith))

zero_bit_and : (b : ℕ) → bit_and 0 b ≡ 0
zero_bit_and b = bit_and-bitwise 0 b

zero_bit_or : (b : ℕ) → bit_or 0 b ≡ b
zero_bit_or b = bit_or-bitwise 0 b

low_bit_and : (a b : ℕ) → bit_and a b ≡ bit_and (a / 2) (b / 2) * 2 + min (a % 2) (b % 2)
low_bit_and zero b = omega (arith, zero_bit_and b, zero_bit_and (b / 2))
low_bit_and (suc a) b = omega (
  arith,
  bit_and-bitwise (suc a) b,
  bit_and-bitwise (suc a / 2) (b / 2),
  digits_count (λ b. zero) min a (suc a / 2) (suc a / 2) (b / 2) (omega arith) (omega arith),
)

low_bit_or : (a b : ℕ) → bit_or a b ≡ bit_or (a / 2) (b / 2) * 2 + max (a % 2) (b % 2)
low_bit_or zero b = omega (arith, zero_bit_or b, zero_bit_or (b / 2))
low_bit_or (suc a) b = omega (
  arith,
  bit_or-bitwise (suc a) b,
  bit_or-bitwise (suc a / 2) (b / 2),
  digits_count (λ b. b) max a (suc a / 2) (suc a / 2) (b / 2) (omega arith) (omega arith),
)

bit_or-zero_below : (n a : ℕ) → a ≤ n → bit_or a 0 ≡ a
bit_or-zero_below n zero h = zero_bit_or 0
bit_or-zero_below zero (suc a) h = absurd (omega arith)
bit_or-zero_below (suc n) (suc a) h =
    omega (arith, low_bit_or (suc a) 0, bit_or-zero_below n (suc a / 2) (omega arith))

bit_and-zero_below : (n a : ℕ) → a ≤ n → bit_and a 0 ≡ 0
bit_and-zero_below n zero h = zero_bit_and 0
bit_and-zero_below zero (suc a) h = absurd (omega arith)
bit_and-zero_below (suc n) (suc a) h =
    omega (arith, low_bit_and (suc a) 0, bit_and-zero_below n (suc a / 2) (omega arith))

mask_zero : (a : ℕ) → bit_and a 0 ≡ 0
mask_zero a = bit_and-zero_below a a (omega arith)

-- The lowest bit of a mask of ones.
mask_step : (a b c : ℕ) → b ≡ 2 * c + 1 → bit_and a b ≡ bit_and (a / 2) c * 2 + a % 2
mask_step a b c h =
    let half : b / 2 ≡ c = omega arith in
    let one : b % 2 ≡ 1 = omega arith in low_bit_and a b ∙ rw (half, one) (omega arith)

pub bit_and-0xff : (a : ℕ) → bit_and a 0xff ≡ a % 2 ^ 8
bit_and-0xff a = omega (
  arith,
  mask_step a 0xff 0x7f refl,
  mask_step (a / 2) 0x7f 0x3f refl,
  mask_step (a / 2 / 2) 0x3f 0x1f refl,
  mask_step (a / 2 / 2 / 2) 0x1f 0xf refl,
  mask_step (a / 2 / 2 / 2 / 2) 0xf 7 refl,
  mask_step (a / 2 / 2 / 2 / 2 / 2) 7 3 refl,
  mask_step (a / 2 / 2 / 2 / 2 / 2 / 2) 3 1 refl,
  mask_step (a / 2 / 2 / 2 / 2 / 2 / 2 / 2) 1 0 refl,
  mask_zero (a / 2 / 2 / 2 / 2 / 2 / 2 / 2 / 2),
)

pub bit_and-0xffff : (a : ℕ) → bit_and a 0xffff ≡ a % 2 ^ 16
bit_and-0xffff a = omega (
  arith,
  mask_step a 0xffff 0x7fff refl,
  mask_step (a / 2) 0x7fff 0x3fff refl,
  mask_step (a / 2 / 2) 0x3fff 0x1fff refl,
  mask_step (a / 2 / 2 / 2) 0x1fff 0xfff refl,
  mask_step (a / 2 / 2 / 2 / 2) 0xfff 0x7ff refl,
  mask_step (a / 2 / 2 / 2 / 2 / 2) 0x7ff 0x3ff refl,
  mask_step (a / 2 / 2 / 2 / 2 / 2 / 2) 0x3ff 0x1ff refl,
  mask_step (a / 2 / 2 / 2 / 2 / 2 / 2 / 2) 0x1ff 0xff refl,
  bit_and-0xff (a / 2 / 2 / 2 / 2 / 2 / 2 / 2 / 2),
)

or_step : (a b : ℕ) → bit_or (2 * a) b ≡ bit_or a (b / 2) * 2 + b % 2
or_step a b =
    let half : 2 * a / 2 ≡ a = omega arith in
    let even : 2 * a % 2 ≡ 0 = omega arith in low_bit_or (2 * a) b ∙ rw (half, even) (omega arith)

times_double : (a x : ℕ) → a * (2 * x) ≡ 2 * (a * x)
times_double a x = grind arith

-- `a << k | b` with `b` below the bit `k`.
pub bit_or-shifted : (k a b : ℕ) → b < 2 ^ k → bit_or (a * 2 ^ k) b ≡ a * 2 ^ k + b
bit_or-shifted zero a b h =
    let none_below : b ≡ 0 = omega arith in
    let whole : a * 2 ^ 0 ≡ a = omega arith in
    rw (whole, none_below) (bit_or-zero_below a a (omega arith) ∙ omega arith)
bit_or-shifted (suc k) a b h =
    let power : 2 ^ suc k ≡ 2 * 2 ^ k = omega arith in
    let double : a * 2 ^ suc k ≡ 2 * (a * 2 ^ k) = ap (λ t. a * t) power ∙ times_double a (2 ^ k) in
    let half : b / 2 < 2 ^ k = omega arith in
    rw double (or_step (a * 2 ^ k) b ∙ omega (arith, bit_or-shifted k a (b / 2) half))
