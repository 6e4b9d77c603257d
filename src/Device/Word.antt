-- ===== src/Device/Word.antt =====
-- U64_DATA of pciev.h: the little-endian words that the XOR loop loads from bytes and stores.
use praid.Common.{ℕ, zero, suc, ◌+◌, ◌-◌, ◌*◌, ◌/◌, ◌%◌, ◌^◌, ◌<◌, ◌≡◌, refl, arith, ltb, leb, ap}
use praid.Common.{◌&&◌, if◌then◌else◌, ◌∙◌}
use praid.Common.Bits.{bit_xor_split, bit_xor-lt}
use Prim.Native.Nat.{bit_xor}
use native.Mathlib.Nat.{pow-suc, div-div-eq-div-mul, mul_comm}

-- Bytes by address.
abbrev pub Memory : Type 0
Memory = ℕ → ℕ

abbrev pub IsBytes : Memory → Type 0
IsBytes m = (a : ℕ) → m a < 256

-- The word of `w` bytes, the first of them the lowest.
unfoldable pub word : ℕ → Memory → ℕ
word zero g = 0
word (suc w) g = word w (λ i. g (suc i)) * 256 + g 0

-- `U64_DATA(ptr, offset)` read, and written.
unfoldable pub load_u64 : Memory → ℕ → ℕ
unfolding word
load_u64 m p = word 8 (λ i. m (p + i))

unfoldable pub store_u64 : Memory → ℕ → ℕ → Memory
store_u64 m p v a = if leb p a && ltb a (p + 8) then v / 256 ^ (a - p) % 256 else m a

pub word-xor :
    (w : ℕ) (f g : Memory)
    → IsBytes f
    → IsBytes g
    → bit_xor (word w f) (word w g) ≡ word w (λ i. bit_xor (f i) (g i))
unfolding word
word-xor zero f g hf hg = refl
word-xor (suc w) f g hf hg =
    bit_xor_split 8 (word w (λ i. f (suc i))) (f 0) (word w (λ i. g (suc i))) (g 0) (hf 0) (hg 0)
    ∙ ap (λ (t : ℕ). t * 256 + bit_xor (f 0) (g 0))
        (word-xor w (λ i. f (suc i)) (λ i. g (suc i)) (λ i. hf (suc i)) (λ i. hg (suc i)))

-- The bytes of a word are those that it was made of.
pub word-byte : (w i : ℕ) (g : Memory) → IsBytes g → i < w → word w g / 256 ^ i % 256 ≡ g i
unfolding word
word-byte zero i g h lt = absurd (omega arith)
word-byte (suc w) zero g h lt = omega (arith, h 0)
word-byte (suc w) (suc i) g h lt =
    let top : (word w (λ i. g (suc i)) * 256 + g 0) / 256 ≡ word w (λ i. g (suc i)) =
      omega (arith, h 0) in
    rw
      (
        pow-suc 256 i,
        mul_comm (256 ^ i) 256,
        ← div-div-eq-div-mul (word w (λ i. g (suc i)) * 256 + g 0) 256 (256 ^ i),
        top,
      )
      (word-byte w i (λ i. g (suc i)) (λ i. h (suc i)) (omega arith))

-- Storing a word of bytes replaces eight bytes.
pub store_u64-word :
    (m g : Memory) (p a : ℕ)
    → IsBytes g
    → store_u64 m p (word 8 g) a ≡ (if leb p a && ltb a (p + 8) then g (a - p) else m a)
unfolding store_u64
store_u64-word m g p a h = ground (arith, word-byte 8 (a - p) g h)

pub xor-IsBytes : (f g : Memory) → IsBytes f → IsBytes g → IsBytes (λ i. bit_xor (f i) (g i))
xor-IsBytes f g hf hg i = bit_xor-lt 8 (f i) (g i) (hf i) (hg i)
