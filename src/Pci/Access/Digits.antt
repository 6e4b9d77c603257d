-- ===== src/Pci/Access/Digits.antt =====
-- What a write does to each digit of the configuration space.
use praid.Common.{
  ℕ, ◌+◌, ◌*◌, ◌^◌, ◌<◌, ◌≤◌, ◌≡◌, refl, ap, ◌∙◌, ◌≢◌, ◌⊎◌, arith, Bool-cases, inl, inr, false,
  ◌&&◌, leb, ltb, ◌==◌, if◌then◌else◌,
}
use praid.Common.Digits.{bit, bit-lt, bit-bit_and, bit-bit_or, bit-complement, complement}
use praid.Device.Word.{IsBytes}
use praid.Pci.Space.{load_bytes, bit-load_bytes, bit-store_bytes_inside, store_bytes-outside}
use praid.Pci.Field.{set_field, bit-set_field}
use praid.Pci.Layout.{pcihdr}
use Prim.Native.Nat.{bit_and}
use praid.Pci.Access.{PciSpace, mask_of, merge, write_flags, pciev_pci_write}

-- A digit of the merged value comes from the host where the mask has a one.
pub bit-merge :
    (mask val new k : ℕ)
    → k < 32
    → mask < 2 ^ 32
    → bit (merge mask val new) k ≡ (if bit mask k == 1 then bit new k else bit val k)
bit-merge mask val new k h lt =
    let or = bit-bit_or k (bit_and val (complement 32 mask)) (bit_and new mask) in
    let old = bit-bit_and k val (complement 32 mask) in
    let host = bit-bit_and k new mask in
    let other = bit-complement 32 k mask h lt in
    let m = bit-lt mask k in
    let v = bit-lt val k in
    let n = bit-lt new k in
    elim (Bool-cases (bit mask k == 1)) [
      | inl one ↦
          let one' : bit mask k ≡ 1 = ground (arith, one) in
          rw one (omega (arith, or, old, host, other, one', v, n))
      | inr zero ↦
          let zero' : bit mask k ≡ 0 = ground (arith, zero, m) in
          rw zero (omega (arith, or, old, host, other, zero', v, n))
    ]

mask_of-lt : (offs : ℕ) → mask_of offs < 2 ^ 32
unfolding mask_of
mask_of-lt offs = ground arith

-- Beside the page, a write clears at most the flag `sts.is`, which is digit 3 of byte 6.
write_flags-virt_dev :
    (s : PciSpace) (offs val new a j : ℕ)
    → (a ≢ 6) ⊎ (j ≢ 3)
    → j < 8
    → bit ((write_flags s offs val new).virt_dev a) j ≡ bit (s.virt_dev a) j
unfolding write_flags
write_flags-virt_dev s offs val new a j h lt =
    let cleared : bit (set_field (pcihdr 2 1) 0 s.virt_dev a) j ≡ bit (s.virt_dev a) j =
      ground (arith, bit-set_field (pcihdr 2 1) 0 s.virt_dev a j) in
    ground (arith, cleared)

-- A digit of a byte that is written: that of the number written, where the mask of the place has a
-- one, and the old one elsewhere.
pub pciev_pci_write-digit :
    (s : PciSpace) (devfn offs size new i j : ℕ)
    → IsBytes s.virt_dev
    → size ≤ 4
    → i < size
    → j < 8
    → bit ((pciev_pci_write s devfn offs size new).virt_dev (offs + i)) j ≡ (
        if bit (mask_of offs) (8 * i + j) == 1
        then bit new (8 * i + j)
        else bit (s.virt_dev (offs + i)) j)
unfolding pciev_pci_write
pciev_pci_write-digit s devfn offs size new i j bytes few lt s8 =
    bit-store_bytes_inside size offs i j _ _ lt s8
    ∙ bit-merge (mask_of offs) (load_bytes size s.virt_dev offs) new (8 * i + j) (omega arith)
        (mask_of-lt offs)
    ∙ rw (bit-load_bytes size offs i j s.virt_dev bytes lt s8) refl

pub pciev_pci_write-outside :
    (s : PciSpace) (devfn offs size new a j : ℕ)
    → (leb offs a && ltb a (offs + size)) ≡ false
    → (a ≢ 6) ⊎ (j ≢ 3)
    → j < 8
    → bit ((pciev_pci_write s devfn offs size new).virt_dev a) j ≡ bit (s.virt_dev a) j
unfolding pciev_pci_write
pciev_pci_write-outside s devfn offs size new a j out kept lt =
    ap (λ (b : ℕ). bit b j) (store_bytes-outside size offs _ a _ out)
    ∙ write_flags-virt_dev s offs (load_bytes size s.virt_dev offs) new a j kept lt
