-- ===== src/Common/Bits.antt =====
-- Laws of `&` with a low mask and of `^` at every width, from the binary digits that they stand for.
use Prim.Native.Nat.{ℕ, zero, suc, ◌+◌, ◌*◌, ◌/◌, ◌%◌, ◌^◌, ◌≤◌, ◌<◌, min}
use Prim.Native.Nat.{bit_and, bit_xor, digits, differ, bit_and-bitwise, bit_xor-bitwise}
use mathlib.Core.Path.{◌≡◌, refl, sym, ap, ◌∙◌}
use native.Mathlib.Nat.{pow-suc, div-add-mod', mod-lt, mul-add-mod_self_right, mod-eq_of_lt}
use native.Mathlib.Omega.{arith}

-- With fuel for all digits of the first number, the amount of fuel does not matter.
module _ (z : ℕ → ℕ) (f : ℕ → ℕ → ℕ) where
  pub digits_enough : (a b m n : ℕ) → a ≤ m → a ≤ n → digits z f m a b ≡ digits z f n a b
  digits_enough zero b zero zero p q = refl
  digits_enough zero b zero (suc n) p q = refl
  digits_enough zero b (suc m) zero p q = refl
  digits_enough zero b (suc m) (suc n) p q = refl
  digits_enough (suc a) b zero n p q = absurd (omega arith)
  digits_enough (suc a) b (suc m) zero p q = absurd (omega arith)
  digits_enough (suc a) b (suc m) (suc n) p q =
      ap (λ (t : ℕ). t * 2 + f (suc a % 2) (b % 2))
        (digits_enough (suc a / 2) (b / 2) m n (omega arith) (omega arith))

differ_digits : (x y : ℕ) → x < 2 → y < 2 → differ x y ≡ (x + y) % 2
differ_digits zero y p q = omega arith
differ_digits (suc zero) zero p q = refl
differ_digits (suc zero) (suc zero) p q = refl
differ_digits (suc zero) (suc (suc y)) p q = absurd (omega arith)
differ_digits (suc (suc x)) y p q = absurd (omega arith)

pub bit_and_step : (a b : ℕ) → bit_and a b ≡ bit_and (a / 2) (b / 2) * 2 + min (a % 2) (b % 2)
bit_and_step zero b = omega (arith, bit_and-bitwise 0 b, bit_and-bitwise 0 (b / 2))
bit_and_step (suc a) b = omega (
  arith,
  bit_and-bitwise (suc a) b,
  bit_and-bitwise (suc a / 2) (b / 2),
  digits_enough (λ _. 0) min (suc a / 2) (b / 2) a (suc a / 2) (omega arith) (omega arith),
)

zero-bit_xor : (b : ℕ) → bit_xor 0 b ≡ b
zero-bit_xor b = bit_xor-bitwise 0 b

-- The lowest digit of an exclusive or, and the rest of it.
pub bit_xor_step : (a b : ℕ) → bit_xor a b ≡ bit_xor (a / 2) (b / 2) * 2 + (a + b) % 2
bit_xor_step zero b = omega (arith, zero-bit_xor b, zero-bit_xor (b / 2))
bit_xor_step (suc a) b = omega (
  arith,
  bit_xor-bitwise (suc a) b,
  bit_xor-bitwise (suc a / 2) (b / 2),
  differ_digits (suc a % 2) (b % 2) (omega arith) (omega arith),
  digits_enough (λ y. y) differ (suc a / 2) (b / 2) a (suc a / 2) (omega arith) (omega arith),
)

pub bit_and-zero : (n a : ℕ) → a ≤ n → bit_and a 0 ≡ 0
bit_and-zero n zero h = bit_and-bitwise 0 0
bit_and-zero zero (suc a) h = absurd (omega arith)
bit_and-zero (suc n) (suc a) h =
    omega (arith, bit_and_step (suc a) 0, bit_and-zero n (suc a / 2) (omega arith))

-- A mask of three ones keeps the remainder by eight.
pub bit_and_seven : (a : ℕ) → bit_and a 7 ≡ a % 8
bit_and_seven a = omega (
  arith,
  bit_and_step a 7,
  bit_and_step (a / 2) 3,
  bit_and_step (a / 2 / 2) 1,
  bit_and-zero (a / 2 / 2 / 2) (a / 2 / 2 / 2) (omega arith),
)

-- Proofs about `^` go from `a / 2` to `a`; `n` bounds the numbers.
bit_xor-comm_below : (n a b : ℕ) → a + b ≤ n → bit_xor a b ≡ bit_xor b a
bit_xor-comm_below n zero zero h = refl
bit_xor-comm_below zero a b h = absurd (omega arith)
bit_xor-comm_below (suc n) a b h =
    omega (
      arith,
      bit_xor_step a b,
      bit_xor_step b a,
      bit_xor-comm_below n (a / 2) (b / 2) (omega arith),
    )

pub bit_xor_comm : (a b : ℕ) → bit_xor a b ≡ bit_xor b a
bit_xor_comm a b = bit_xor-comm_below (a + b) a b (omega arith)

bit_xor_parts :
    (a b : ℕ) → (bit_xor a b / 2 ≡ bit_xor (a / 2) (b / 2)) × (bit_xor a b % 2 ≡ (a + b) % 2)
bit_xor_parts a b = omega (arith, bit_xor_step a b)

bit_xor-assoc_below :
    (n a b c : ℕ) → a + b + c ≤ n → bit_xor (bit_xor a b) c ≡ bit_xor a (bit_xor b c)
bit_xor-assoc_below zero zero zero zero h = refl
bit_xor-assoc_below zero a b c h = absurd (omega arith)
bit_xor-assoc_below (suc n) zero zero zero h = refl
bit_xor-assoc_below (suc n) a b c h = ground (
  arith,
  bit_xor_parts a b,
  bit_xor_parts b c,
  bit_xor_step (bit_xor a b) c,
  bit_xor_step a (bit_xor b c),
  bit_xor-assoc_below n (a / 2) (b / 2) (c / 2) (omega arith),
)

pub bit_xor_assoc : (a b c : ℕ) → bit_xor (bit_xor a b) c ≡ bit_xor a (bit_xor b c)
bit_xor_assoc a b c = bit_xor-assoc_below (a + b + c) a b c (omega arith)

bit_xor-self_below : (n a : ℕ) → a ≤ n → bit_xor a a ≡ 0
bit_xor-self_below n zero h = refl
bit_xor-self_below zero (suc a) h = absurd (omega arith)
bit_xor-self_below (suc n) (suc a) h =
    omega (arith, bit_xor_step (suc a) (suc a), bit_xor-self_below n (suc a / 2) (omega arith))

pub bit_xor_self : (a : ℕ) → bit_xor a a ≡ 0
bit_xor_self a = bit_xor-self_below a a (omega arith)

pub bit_xor-zero : (a : ℕ) → bit_xor a 0 ≡ a
bit_xor-zero a = omega (arith, bit_xor_comm a 0, zero-bit_xor a)

pub mul-pow-suc : (q k : ℕ) → q * 2 ^ suc k ≡ 2 * (q * 2 ^ k)
mul-pow-suc q k = omega (arith, ap (λ (t : ℕ). q * t) (pow-suc 2 k))

pub pos_pow : (w : ℕ) → 0 < 2 ^ w
pos_pow zero = omega arith
pos_pow (suc w) = omega (arith, pow-suc 2 w, pos_pow w)

-- The remainder by a power of two, from its lowest digit and the rest of it.
pub mod-pow-suc : (w v : ℕ) → v % 2 ^ suc w ≡ v / 2 % 2 ^ w * 2 + v % 2
mod-pow-suc w v =
    let r : ℕ = v / 2 % 2 ^ w in
    let q : ℕ = v / 2 / 2 ^ w in
    let half : v / 2 ≡ q * 2 ^ w + r = sym (div-add-mod' (v / 2) (2 ^ w)) in
    let whole : v ≡ q * 2 ^ suc w + (r * 2 + v % 2) = omega (arith, half, mul-pow-suc q w) in
    let small : r * 2 + v % 2 < 2 ^ suc w =
      omega (arith, pow-suc 2 w, mod-lt (v / 2) (pos_pow w)) in
    ap (λ (t : ℕ). t % 2 ^ suc w) whole
    ∙ mul-add-mod_self_right q (2 ^ suc w) (r * 2 + v % 2)
    ∙ mod-eq_of_lt small

-- Exclusive or acts on the low `k` digits and on those above them apart.
pub bit_xor_split :
    (k q r q' r' : ℕ)
    → r < 2 ^ k
    → r' < 2 ^ k
    → bit_xor (q * 2 ^ k + r) (q' * 2 ^ k + r') ≡ bit_xor q q' * 2 ^ k + bit_xor r r'
bit_xor_split zero q r q' r' h h' = ground (arith, bit_xor-zero (bit_xor q q'))
bit_xor_split (suc k) q r q' r' h h' = ground (
  arith,
  mul-pow-suc q k,
  mul-pow-suc q' k,
  mul-pow-suc (bit_xor q q') k,
  pow-suc 2 k,
  bit_xor_step (q * 2 ^ suc k + r) (q' * 2 ^ suc k + r'),
  bit_xor_step r r',
  bit_xor_split k q (r / 2) q' (r' / 2),
)

pub bit_xor-lt : (k a b : ℕ) → a < 2 ^ k → b < 2 ^ k → bit_xor a b < 2 ^ k
bit_xor-lt zero a b h h' = ground (arith, bit_xor-zero 0)
bit_xor-lt (suc k) a b h h' = omega (
  arith,
  pow-suc 2 k,
  bit_xor_step a b,
  bit_xor-lt k (a / 2) (b / 2) (omega (arith, pow-suc 2 k)) (omega (arith, pow-suc 2 k)),
)
