-- ===== src/Common/Digits.antt =====
-- The binary digits of a number, and what `&`, `|` and `~` do to each of them.
use Prim.Native.Nat.{
  ℕ, zero, suc, ◌+◌, ◌-◌, ◌*◌, ◌/◌, ◌%◌, ◌^◌, ◌<◌, min, max, bit_and, bit_or, bit_xor,
  bit_or-bitwise,
}
use mathlib.Core.Path.{◌≡◌, refl, sym, ap, ◌∙◌}
use native.Mathlib.Nat.{pow-suc, div-add-mod', mod-lt}
use mathlib.Core.Bool.{true, false}
use praid.Common.Tests.{ltb, if◌then◌else◌}
use native.Mathlib.Omega.{arith}
use praid.Common.Bits.{
  digits_enough, bit_and_step, bit_and-zero, mod-pow-suc, pos_pow, bit_xor_step, mul-pow-suc,
}

-- Digit `k` of a number, 0 or 1.
unfoldable pub bit : ℕ → ℕ → ℕ
bit a zero = a % 2
bit a (suc k) = bit (a / 2) k

pub bit-lt : (a k : ℕ) → bit a k < 2
unfolding bit
bit-lt a zero = omega arith
bit-lt a (suc k) = bit-lt (a / 2) k

max_digits : (x y : ℕ) → x < 2 → y < 2 → max x y < 2
max_digits x y p q = omega arith

bit_or_step : (a b : ℕ) → bit_or a b ≡ bit_or (a / 2) (b / 2) * 2 + max (a % 2) (b % 2)
bit_or_step zero b = omega (arith, bit_or-bitwise 0 b, bit_or-bitwise 0 (b / 2))
bit_or_step (suc a) b = omega (
  arith,
  bit_or-bitwise (suc a) b,
  bit_or-bitwise (suc a / 2) (b / 2),
  digits_enough (λ y. y) max (suc a / 2) (b / 2) a (suc a / 2) (omega arith) (omega arith),
)

pub bit-bit_and : (k a b : ℕ) → bit (bit_and a b) k ≡ min (bit a k) (bit b k)
unfolding bit
bit-bit_and zero a b = omega (arith, bit_and_step a b)
bit-bit_and (suc k) a b =
    let half : bit_and a b / 2 ≡ bit_and (a / 2) (b / 2) = omega (arith, bit_and_step a b) in
    rw half (bit-bit_and k (a / 2) (b / 2))

pub bit-bit_or : (k a b : ℕ) → bit (bit_or a b) k ≡ max (bit a k) (bit b k)
unfolding bit
bit-bit_or zero a b = omega (arith, bit_or_step a b)
bit-bit_or (suc k) a b =
    let half : bit_or a b / 2 ≡ bit_or (a / 2) (b / 2) = omega (arith, bit_or_step a b) in
    rw half (bit-bit_or k (a / 2) (b / 2))

-- `~a` in `w` digits.
abbrev pub complement : ℕ → ℕ → ℕ
complement w a = 2 ^ w - 1 - a

pub bit-complement : (w k a : ℕ) → k < w → a < 2 ^ w → bit (complement w a) k ≡ 1 - bit a k
unfolding bit
bit-complement zero k a h lt = absurd (omega arith)
bit-complement (suc w) zero a h lt = omega (arith, pow-suc 2 w)
bit-complement (suc w) (suc k) a h lt =
    let half : complement (suc w) a / 2 ≡ complement w (a / 2) = omega (arith, pow-suc 2 w) in
    rw half (bit-complement w k (a / 2) (omega arith) (omega (arith, pow-suc 2 w)))

-- Numbers below 2 ^ w with the same digits are equal.
pub eq_of_bits : (w a b : ℕ) → a < 2 ^ w → b < 2 ^ w → ((k : ℕ) → k < w → bit a k ≡ bit b k) → a ≡ b
unfolding bit
eq_of_bits zero a b p q h = omega arith
eq_of_bits (suc w) a b p q h = omega (
  arith,
  h 0 (omega arith),
  eq_of_bits w (a / 2) (b / 2) (omega (arith, pow-suc 2 w)) (omega (arith, pow-suc 2 w))
      (λ k lt. h (suc k) (omega arith)),
)

pub bit-add_eight : (a k : ℕ) → bit a (8 + k) ≡ bit (a / 256) k
unfolding bit
bit-add_eight a k =
    let eight : 8 + k ≡ suc (suc (suc (suc (suc (suc (suc (suc k))))))) = omega arith in
    let halved : a / 2 / 2 / 2 / 2 / 2 / 2 / 2 / 2 ≡ a / 256 = omega arith in
    rw (eight, halved) refl

pub bit-mod_byte : (a k : ℕ) → k < 8 → bit (a % 256) k ≡ bit a k
unfolding bit
bit-mod_byte a zero h = omega arith
bit-mod_byte a (suc zero) h = omega arith
bit-mod_byte a (suc (suc zero)) h = omega arith
bit-mod_byte a (suc (suc (suc zero))) h = omega arith
bit-mod_byte a (suc (suc (suc (suc zero)))) h = omega arith
bit-mod_byte a (suc (suc (suc (suc (suc zero))))) h = omega arith
bit-mod_byte a (suc (suc (suc (suc (suc (suc zero)))))) h = omega arith
bit-mod_byte a (suc (suc (suc (suc (suc (suc (suc zero))))))) h = omega arith
bit-mod_byte a (suc (suc (suc (suc (suc (suc (suc (suc k)))))))) h = absurd (omega arith)

-- A mask of `w` low digits keeps the remainder.
pub bit_and-low_mask : (w a : ℕ) → bit_and a (2 ^ w - 1) ≡ a % 2 ^ w
bit_and-low_mask zero a = ground (arith, bit_and-zero a a)
bit_and-low_mask (suc w) a =
    let half : (2 ^ suc w - 1) / 2 ≡ 2 ^ w - 1 = omega (arith, pow-suc 2 w, pos_pow w) in
    let odd : (2 ^ suc w - 1) % 2 ≡ 1 = omega (arith, pow-suc 2 w, pos_pow w) in
    rw (bit_and_step a (2 ^ suc w - 1), half, odd, bit_and-low_mask w (a / 2), mod-pow-suc w a)
      (omega arith)

pub bit-zero : (k : ℕ) → bit 0 k ≡ 0
unfolding bit
bit-zero zero = refl
bit-zero (suc k) = bit-zero k

pub bit-bit_xor : (k a b : ℕ) → bit (bit_xor a b) k ≡ (bit a k + bit b k) % 2
unfolding bit
bit-bit_xor zero a b = omega (arith, bit_xor_step a b)
bit-bit_xor (suc k) a b =
    let half : bit_xor a b / 2 ≡ bit_xor (a / 2) (b / 2) = omega (arith, bit_xor_step a b) in
    rw half (bit-bit_xor k (a / 2) (b / 2))

-- A mask of one digit.
pub bit_and-pow : (k a : ℕ) → bit_and a (2 ^ k) ≡ bit a k * 2 ^ k
unfolding bit
bit_and-pow zero a = omega (arith, bit_and_step a 1, bit_and-zero (a / 2) (a / 2))
bit_and-pow (suc k) a =
    let half : 2 ^ suc k / 2 ≡ 2 ^ k = omega (arith, pow-suc 2 k) in
    let even : 2 ^ suc k % 2 ≡ 0 = omega (arith, pow-suc 2 k) in
    rw (bit_and_step a (2 ^ suc k), half, even, bit_and-pow k (a / 2))
      (omega (arith, mul-pow-suc (bit (a / 2) k) k))

-- The digits of a number whose low `w` digits are those of `r`.
pub bit-join :
    (w q r k : ℕ) → r < 2 ^ w → bit (q * 2 ^ w + r) k ≡ (if ltb k w then bit r k else bit q (k - w))
unfolding bit
bit-join zero q r k h =
    let whole : q * 2 ^ 0 + r ≡ q = omega (arith, h) in
    let place : k - 0 ≡ k = omega arith in
    let never : ltb k 0 ≡ false = ground arith in rw (whole, place, never) refl
bit-join (suc w) q r zero h =
    let below : ltb 0 (suc w) ≡ true = ground arith in rw below (omega (arith, mul-pow-suc q w))
bit-join (suc w) q r (suc k) h =
    let half : (q * 2 ^ suc w + r) / 2 ≡ q * 2 ^ w + r / 2 = omega (arith, mul-pow-suc q w) in
    let place : suc k - suc w ≡ k - w = omega arith in
    let same : ltb (suc k) (suc w) ≡ ltb k w = ground arith in
    rw (half, place, same) (bit-join w q (r / 2) k (omega (arith, pow-suc 2 w)))

pub bit-split :
    (w a k : ℕ) → bit a k ≡ (if ltb k w then bit (a % 2 ^ w) k else bit (a / 2 ^ w) (k - w))
bit-split w a k =
    ap (λ (b : ℕ). bit b k) (sym (div-add-mod' a (2 ^ w)))
    ∙ bit-join w (a / 2 ^ w) (a % 2 ^ w) k (mod-lt a (pos_pow w))
