-- ===== src/Pci/Field.antt =====
-- How C lays out the members of a struct, bit-fields included, and reads and writes one: the
-- members come in order, the first at the lowest digits, and none crosses a unit of its type.
use praid.Common.{
  ℕ, zero, suc, ◌+◌, ◌-◌, ◌*◌, ◌/◌, ◌%◌, ◌<◌, ◌≡◌, refl, sym, ap, ◌∙◌, ◌^◌, arith, ltb, leb, ◌&&◌,
  if◌then◌else◌, true, ◌||◌, false, List, [], ◌∷◌,
}
use praid.Common.Digits.{bit, bit-lt}
use praid.Common.Bits.{mod-pow-suc}
use praid.Device.Word.{Memory, IsBytes}

-- A member: the bytes of its type and its own digits. `u16 x : 5` is `record { unit = 2; width = 5 }`.
pub record Member : Type 0 where
  pub unit : ℕ
  pub width : ℕ

abbrev pub u8 : ℕ → Member
u8 w = record { unit = 1; width = w }

abbrev pub u16 : ℕ → Member
u16 w = record { unit = 2; width = w }

abbrev pub u32 : ℕ → Member
u32 w = record { unit = 4; width = w }

abbrev pub round_up : ℕ → ℕ → ℕ
round_up p a = (p + a - 1) / a * a

-- Where a member starts, with the digits up to `p` taken.
abbrev pub start_of : ℕ → Member → ℕ
start_of p m = if leb (p % (8 * m.unit) + m.width) (8 * m.unit) then p else round_up p (8 * m.unit)

abbrev pub align_of : List Member → ℕ
align_of [] = 1
align_of (m ∷ ms) = let rest = align_of ms in if ltb rest m.unit then m.unit else rest

-- The end of the members behind `p`, and the start of member `k`.
abbrev pub end_of : ℕ → List Member → ℕ
end_of p [] = p
end_of p (m ∷ ms) = end_of (start_of p m + m.width) ms

abbrev pub member_at : ℕ → List Member → ℕ → ℕ
member_at p [] k = p
member_at p (m ∷ ms) zero = start_of p m
member_at p (m ∷ ms) (suc k) = member_at (start_of p m + m.width) ms k

abbrev pub width_at : List Member → ℕ → ℕ
width_at [] k = 0
width_at (m ∷ ms) zero = m.width
width_at (m ∷ ms) (suc k) = width_at ms k

-- The digits of an inner struct, with its padding at the end.
abbrev pub size_of : List Member → ℕ
size_of ms = round_up (end_of 0 ms) (8 * align_of ms)

-- A struct of inner structs: the start of the k-th, and the end of all.
abbrev pub part_at : ℕ → List (List Member) → ℕ → ℕ
part_at p [] k = p
part_at p (g ∷ gs) zero = round_up p (8 * align_of g)
part_at p (g ∷ gs) (suc k) = part_at (round_up p (8 * align_of g) + size_of g) gs k

abbrev pub parts_end : ℕ → List (List Member) → ℕ
parts_end p [] = p
parts_end p (g ∷ gs) = parts_end (round_up p (8 * align_of g) + size_of g) gs

abbrev pub part : List (List Member) → ℕ → List Member
part [] k = []
part (g ∷ gs) zero = g
part (g ∷ gs) (suc k) = part gs k

-- The digits `start` to `start + width` of the page, which has eight for each byte.
pub record Field : Type 0 where
  pub start : ℕ
  pub width : ℕ

-- Member `k` of part `g` of a struct that stands at byte `base`.
abbrev pub field : List (List Member) → ℕ → ℕ → ℕ → Field
field struct base g k = record {
  start = base * 8 + part_at 0 struct g + member_at 0 (part struct g) k;
  width = width_at (part struct g) k;
}

abbrev pub byte_of : (ℕ → ℕ) → ℕ
byte_of b = b 0 + 2 * b 1 + 4 * b 2 + 8 * b 3 + 16 * b 4 + 32 * b 5 + 64 * b 6 + 128 * b 7

-- The number with `w` given digits.
unfoldable pub number : ℕ → (ℕ → ℕ) → ℕ
number zero b = 0
number (suc w) b = number w (λ k. b (suc k)) * 2 + b 0

abbrev pub bit_of : Memory → ℕ → ℕ
bit_of m k = bit (m (k / 8)) (k % 8)

unfoldable pub get_field : Field → Memory → ℕ
unfolding number bit
get_field f m = number f.width (λ k. bit_of m (f.start + k))

-- The digit that a write of `v` leaves at `k`.
abbrev pub written : Field → ℕ → Memory → ℕ → ℕ
written f v m k =
    if leb f.start k && ltb k (f.start + f.width) then bit v (k - f.start) else bit_of m k

unfoldable pub set_field : Field → ℕ → Memory → Memory
unfolding bit
set_field f v m a = byte_of (λ j. written f v m (8 * a + j))

written-lt : (f : Field) (v : ℕ) (m : Memory) (k : ℕ) → written f v m k < 2
written-lt f v m k = ground (arith, bit-lt v (k - f.start), bit-lt (m (k / 8)) (k % 8))

bit-byte_of : (b : ℕ → ℕ) (j : ℕ) → ((i : ℕ) → b i < 2) → j < 8 → bit (byte_of b) j ≡ b j
unfolding bit
bit-byte_of b zero h s = omega (arith, h 0, h 1, h 2, h 3, h 4, h 5, h 6, h 7)
bit-byte_of b (suc zero) h s = omega (arith, h 0, h 1, h 2, h 3, h 4, h 5, h 6, h 7)
bit-byte_of b (suc (suc zero)) h s = omega (arith, h 0, h 1, h 2, h 3, h 4, h 5, h 6, h 7)
bit-byte_of b (suc (suc (suc zero))) h s = omega (arith, h 0, h 1, h 2, h 3, h 4, h 5, h 6, h 7)
bit-byte_of b (suc (suc (suc (suc zero)))) h s =
    omega (arith, h 0, h 1, h 2, h 3, h 4, h 5, h 6, h 7)
bit-byte_of b (suc (suc (suc (suc (suc zero))))) h s =
    omega (arith, h 0, h 1, h 2, h 3, h 4, h 5, h 6, h 7)
bit-byte_of b (suc (suc (suc (suc (suc (suc zero)))))) h s =
    omega (arith, h 0, h 1, h 2, h 3, h 4, h 5, h 6, h 7)
bit-byte_of b (suc (suc (suc (suc (suc (suc (suc zero))))))) h s =
    omega (arith, h 0, h 1, h 2, h 3, h 4, h 5, h 6, h 7)
bit-byte_of b (suc (suc (suc (suc (suc (suc (suc (suc j)))))))) h s = absurd (omega arith)

byte_of-lt : (b : ℕ → ℕ) → ((i : ℕ) → b i < 2) → byte_of b < 256
byte_of-lt b h = omega (arith, h 0, h 1, h 2, h 3, h 4, h 5, h 6, h 7)

pub set_field-IsBytes : (f : Field) (v : ℕ) (m : Memory) → IsBytes (set_field f v m)
unfolding set_field
set_field-IsBytes f v m a =
    byte_of-lt (λ j. written f v m (8 * a + j)) (λ j. written-lt f v m (8 * a + j))

-- The digits of a byte behind a write.
pub bit-set_field :
    (f : Field) (v : ℕ) (m : Memory) (a j : ℕ)
    → j < 8
    → bit (set_field f v m a) j ≡ (
        if leb f.start (8 * a + j) && ltb (8 * a + j) (f.start + f.width)
        then bit v (8 * a + j - f.start)
        else bit (m a) j)
unfolding set_field
bit-set_field f v m a j h =
    let byte : (8 * a + j) / 8 ≡ a = omega arith in
    let digit : (8 * a + j) % 8 ≡ j = omega arith in
    bit-byte_of (λ j. written f v m (8 * a + j)) j (λ j. written-lt f v m (8 * a + j)) h
    ∙ rw (byte, digit) refl

-- A write changes the digits of its field and no others.
pub bit_of-set_field :
    (f : Field) (v : ℕ) (m : Memory) (k : ℕ) → bit_of (set_field f v m) k ≡ written f v m k
unfolding set_field
bit_of-set_field f v m k =
    let place : 8 * (k / 8) + k % 8 ≡ k = omega arith in
    bit-byte_of (λ j. written f v m (8 * (k / 8) + j)) (k % 8) (λ j. written-lt f v m _)
      (omega arith)
    ∙ ap (written f v m) place

pub number-eq : (w : ℕ) (b c : ℕ → ℕ) → ((k : ℕ) → k < w → b k ≡ c k) → number w b ≡ number w c
unfolding number
number-eq zero b c h = refl
number-eq (suc w) b c h = omega (
  arith,
  h 0 (omega arith),
  number-eq w (λ k. b (suc k)) (λ k. c (suc k)) (λ k lt. h (suc k) (omega arith)),
)

pub number-bit : (w v : ℕ) → number w (bit v) ≡ v % 2 ^ w
unfolding number bit
number-bit zero v = omega arith
number-bit (suc w) v = ap (λ (t : ℕ). t * 2 + v % 2) (number-bit w (v / 2)) ∙ sym (mod-pow-suc w v)

-- A field that was written holds what fits of the value; the others hold what they did.
pub get_field-set_field_self :
    (f : Field) (v : ℕ) (m : Memory) → get_field f (set_field f v m) ≡ v % 2 ^ f.width
unfolding get_field
get_field-set_field_self f v m =
    number-eq f.width (λ k. bit_of (set_field f v m) (f.start + k)) (bit v)
      (λ k lt.
        let place : f.start + k - f.start ≡ k = omega arith in
        let here : (leb f.start (f.start + k) && ltb (f.start + k) (f.start + f.width)) ≡ true =
          ground arith in
        bit_of-set_field f v m (f.start + k) ∙ rw (here, place) refl)
    ∙ number-bit f.width v

pub get_field-set_field_other :
    (f g : Field) (v : ℕ) (m : Memory)
    → (leb (g.start + g.width) f.start || leb (f.start + f.width) g.start) ≡ true
    → get_field f (set_field g v m) ≡ get_field f m
unfolding get_field
get_field-set_field_other f g v m apart =
    number-eq f.width (λ k. bit_of (set_field g v m) (f.start + k)) (λ k. bit_of m (f.start + k))
      (λ k lt.
        let outside : (leb g.start (f.start + k) && ltb (f.start + k) (g.start + g.width)) ≡ false =
          ground (arith, apart) in
        bit_of-set_field g v m (f.start + k) ∙ rw outside refl)
