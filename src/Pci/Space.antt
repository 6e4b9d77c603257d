-- ===== src/Pci/Space.antt =====
-- The page behind `virtDev`, as bytes, and the copies of `memcpy` between it and a number of the
-- processor, whose first byte is the lowest.
use praid.Common.{
  ℕ, zero, suc, ◌+◌, ◌-◌, ◌*◌, ◌/◌, ◌%◌, ◌^◌, ◌<◌, ◌≡◌, refl, arith, ltb, leb, ◌&&◌, if◌then◌else◌,
  true, false,
}
use praid.Common.Digits.{bit, bit-add_eight, bit-mod_byte}
use praid.Device.Word.{Memory, IsBytes, word}
use native.Mathlib.Nat.{pow-suc, div-div-eq-div-mul, mul_comm}

-- `memcpy(&val, m + p, n)` into a number that was 0, and `memcpy(m + p, &val, n)`.
unfoldable pub load_bytes : ℕ → Memory → ℕ → ℕ
unfolding word
load_bytes n m p = word n (λ i. m (p + i))

unfoldable pub store_bytes : ℕ → Memory → ℕ → ℕ → Memory
store_bytes n m p v a = if leb p a && ltb a (p + n) then v / 256 ^ (a - p) % 256 else m a

bit-word :
    (n i j : ℕ) (g : Memory) → IsBytes g → i < n → j < 8 → bit (word n g) (8 * i + j) ≡ bit (g i) j
unfolding word
bit-word zero i j g h lt s = absurd (omega arith)
bit-word (suc n) zero j g h lt s =
    let low : (word n (λ i. g (suc i)) * 256 + g 0) % 256 ≡ g 0 = omega (arith, h 0) in
    let start : 8 * 0 + j ≡ j = omega arith in
    rw (start, ← bit-mod_byte (word n (λ i. g (suc i)) * 256 + g 0) j s, low) refl
bit-word (suc n) (suc i) j g h lt s =
    let high : (word n (λ i. g (suc i)) * 256 + g 0) / 256 ≡ word n (λ i. g (suc i)) =
      omega (arith, h 0) in
    let start : 8 * suc i + j ≡ 8 + (8 * i + j) = omega arith in
    rw (start, bit-add_eight (word n (λ i. g (suc i)) * 256 + g 0) (8 * i + j), high)
      (bit-word n i j (λ i. g (suc i)) (λ i. h (suc i)) (omega arith) s)

pub bit-byte : (i v j : ℕ) → j < 8 → bit (v / 256 ^ i % 256) j ≡ bit v (8 * i + j)
bit-byte zero v j s =
    let start : 8 * 0 + j ≡ j = omega arith in
    let whole : v / 256 ^ 0 ≡ v = omega arith in rw (start, whole) (bit-mod_byte v j s)
bit-byte (suc i) v j s =
    let start : 8 * suc i + j ≡ 8 + (8 * i + j) = omega arith in
    rw
      (
        start,
        bit-add_eight v (8 * i + j),
        pow-suc 256 i,
        mul_comm (256 ^ i) 256,
        ← div-div-eq-div-mul v 256 (256 ^ i),
      )
      (bit-byte i (v / 256) j s)

pub bit-load_bytes :
    (n p i j : ℕ) (m : Memory)
    → IsBytes m
    → i < n
    → j < 8
    → bit (load_bytes n m p) (8 * i + j) ≡ bit (m (p + i)) j
unfolding load_bytes
bit-load_bytes n p i j m h lt s = bit-word n i j (λ i. m (p + i)) (λ i. h (p + i)) lt s

-- A byte inside the stretch takes the digits of the number.
pub bit-store_bytes_inside :
    (n p i j v : ℕ) (m : Memory)
    → i < n
    → j < 8
    → bit (store_bytes n m p v (p + i)) j ≡ bit v (8 * i + j)
unfolding store_bytes
bit-store_bytes_inside n p i j v m lt s =
    let inside : (leb p (p + i) && ltb (p + i) (p + n)) ≡ true = ground arith in
    let place : p + i - p ≡ i = omega arith in rw (inside, place) (bit-byte i v j s)

pub store_bytes-outside :
    (n p v a : ℕ) (m : Memory) → (leb p a && ltb a (p + n)) ≡ false → store_bytes n m p v a ≡ m a
unfolding store_bytes
store_bytes-outside n p v a m h = rw h refl

pub store_bytes-IsBytes : (n p v : ℕ) (m : Memory) → IsBytes m → IsBytes (store_bytes n m p v)
unfolding store_bytes
store_bytes-IsBytes n p v m h a = ground (arith, h a)

word-lt : (n : ℕ) (g : Memory) → IsBytes g → word n g < 256 ^ n
unfolding word
word-lt zero g h = omega arith
word-lt (suc n) g h = omega (arith, h 0, word-lt n (λ i. g (suc i)) (λ i. h (suc i)), pow-suc 256 n)

pub load_bytes-lt : (n p : ℕ) (m : Memory) → IsBytes m → load_bytes n m p < 256 ^ n
unfolding load_bytes
load_bytes-lt n p m h = word-lt n (λ i. m (p + i)) (λ i. h (p + i))
