-- ===== src/Pci/Access/Registers.antt =====
-- What a host reads back from a register that it has written.
use praid.Common.{
  ℕ, ◌+◌, ◌-◌, ◌*◌, ◌/◌, ◌%◌, ◌^◌, ◌<◌, ◌≡◌, refl, ap, ◌∙◌, arith, ltb, if◌then◌else◌, some,
}
use praid.Common.Digits.{
  bit, bit-bit_xor, bit-complement, bit-zero, bit-join, bit-split, complement, eq_of_bits,
}
use praid.Device.Word.{IsBytes}
use praid.Pci.Space.{load_bytes, bit-load_bytes, store_bytes-outside, load_bytes-lt}
use Prim.Native.Nat.{bit_xor}
use praid.Pci.Field.{bit-set_field}
use praid.Pci.Layout.{pcihdr}
use praid.Pci.Access.Flags.{test_intx}
use praid.Pci.Access.{PciSpace, mask_of, write_flags, pciev_pci_read, pciev_pci_write}
use praid.Pci.Access.Digits.{pciev_pci_write-digit}
use praid.Pci.Access.Kept.{write-IsBytes}

bit-base_mask : (k : ℕ) → k < 32 → bit 0xFFFFC000 k ≡ (if ltb k 14 then 0 else 1)
bit-base_mask k h =
    bit-join 14 (complement 18 0) 0 k (omega arith)
    ∙ ground (arith, bit-zero k, bit-zero (k - 14), bit-complement 18 (k - 14) 0)

base_value-lt : (v old : ℕ) → v < 2 ^ 32 → v / 2 ^ 14 * 2 ^ 14 + old % 2 ^ 14 < 2 ^ 32
base_value-lt v old h = omega arith

base_value-digit :
    (v old k : ℕ)
    → bit (v / 2 ^ 14 * 2 ^ 14 + old % 2 ^ 14) k ≡ (if ltb k 14 then bit old k else bit v k)
base_value-digit v old k =
    bit-join 14 (v / 2 ^ 14) (old % 2 ^ 14) k (omega arith)
    ∙ ground (arith, bit-split 14 v k, bit-split 14 old k)

mask_base : mask_of 0x10 ≡ 0xFFFFC000
unfolding mask_of
mask_base = refl

base_digit :
    (s : PciSpace) (v : ℕ)
    → IsBytes s.virt_dev
    → (k : ℕ) → k < 32
    → bit (load_bytes 4 (pciev_pci_write s 0 0x10 4 v).virt_dev 0x10) k
      ≡ bit (v / 2 ^ 14 * 2 ^ 14 + load_bytes 4 s.virt_dev 0x10 % 2 ^ 14) k
base_digit s v bytes k lt =
    let i : ℕ = k / 8 in
    let j : ℕ = k % 8 in
    let s' = pciev_pci_write s 0 0x10 4 v in
    let place : 8 * i + j ≡ k = omega arith in
    let new =
      bit-load_bytes 4 0x10 i j s'.virt_dev (write-IsBytes s 0 0x10 4 v bytes) (omega arith)
        (omega arith) in
    let old = bit-load_bytes 4 0x10 i j s.virt_dev bytes (omega arith) (omega arith) in
    let step =
      pciev_pci_write-digit s 0 0x10 4 v i j bytes (omega arith) (omega arith) (omega arith) in
    let new' = rw place at new in
    let old' = rw place at old in
    let step' = rw (place, mask_base) at step in
    ground (
      arith,
      new',
      old',
      step',
      bit-base_mask k,
      base_value-digit v (load_bytes 4 s.virt_dev 0x10) k,
    )

-- The base address register is that of a region of 16 KiB: reading it back after a write gives the
-- number written with its low 14 digits as they were before.
pub pciev_pci_read-base_address :
    (s : PciSpace) (v : ℕ)
    → IsBytes s.virt_dev
    → v < 2 ^ 32
    → pciev_pci_read (pciev_pci_write s 0 0x10 4 v) 0 0x10 4
      ≡ some (v / 2 ^ 14 * 2 ^ 14 + load_bytes 4 s.virt_dev 0x10 % 2 ^ 14)
unfolding pciev_pci_read
pciev_pci_read-base_address s v bytes h =
    let s' = pciev_pci_write s 0 0x10 4 v in
    let bytes' = write-IsBytes s 0 0x10 4 v bytes in
    ap some (
      eq_of_bits 32 (load_bytes 4 s'.virt_dev 0x10) _ (load_bytes-lt 4 0x10 s'.virt_dev bytes')
        (base_value-lt v (load_bytes 4 s.virt_dev 0x10) h) (λ k lt. base_digit s v bytes k lt))

cleared :
    (s : PciSpace) (val new : ℕ)
    → bit val 10 ≡ 1
    → bit new 10 ≡ 0
    → bit ((write_flags s 4 val new).virt_dev 6) 3 ≡ 0
unfolding write_flags
cleared s val new was is = ground (
  arith,
  test_intx (bit_xor val new),
  test_intx new,
  bit-bit_xor 10 val new,
  bit-set_field (pcihdr 2 1) 0 s.virt_dev 6 3,
  bit-zero 0,
)

status_byte :
    (s : PciSpace) (v : ℕ)
    → (pciev_pci_write s 0 4 2 v).virt_dev 6
      ≡ (write_flags s 4 (load_bytes 2 s.virt_dev 4) v).virt_dev 6
unfolding pciev_pci_write
status_byte s v = store_bytes-outside 2 4 _ 6 _ refl

status_kept : bit (mask_of 4) (8 * 2 + 3) ≡ 0
unfolding mask_of bit
status_kept = refl

-- Where the interrupt line was disabled, a write of two bytes to the command register that enables
-- it again clears the interrupt status, but a write of four bytes writes the old status back.
pub pciev_pci_write-intx :
    (s : PciSpace) (v : ℕ)
    → IsBytes s.virt_dev
    → bit (s.virt_dev 5) 2 ≡ 1
    → bit v 10 ≡ 0
    → (bit ((pciev_pci_write s 0 4 2 v).virt_dev 6) 3 ≡ 0)
      × (bit ((pciev_pci_write s 0 4 4 v).virt_dev 6) 3 ≡ bit (s.virt_dev 6) 3)
pciev_pci_write-intx s v bytes disabled enable = (
  ap (λ (b : ℕ). bit b 3) (status_byte s v)
      ∙ cleared s (load_bytes 2 s.virt_dev 4) v
          (bit-load_bytes 2 4 1 2 s.virt_dev bytes (omega arith) (omega arith) ∙ disabled) enable,
  pciev_pci_write-digit s 0 4 4 v 2 3 bytes (omega arith) (omega arith) (omega arith)
      ∙ rw status_kept refl,
)
