-- ===== src/Pci/Access/Flags.antt =====
-- The flags that the device keeps beside its command and MSI-X registers.
use praid.Common.{
  ℕ, zero, suc, ◌+◌, ◌*◌, ◌/◌, ◌%◌, ◌^◌, ◌<◌, ◌≤◌, ◌≡◌, ◌≢◌, refl, sym, ap, ◌∙◌, arith, Bool-cases,
  inl, inr, true, ◌&&◌, not, ltb, ◌==◌, if◌then◌else◌, List, [], ◌∷◌,
}
use praid.Common.Digits.{bit, bit-lt, bit-zero, bit-add_eight, bit-bit_xor, bit_and-pow}
use praid.Device.Word.{IsBytes}
use praid.Pci.Space.{load_bytes, bit-load_bytes, load_bytes-lt, bit-byte}
use praid.Pci.Access.{PciSpace, mask_of, test, write_flags, pciev_pci_write}
use praid.Pci.Access.Digits.{pciev_pci_write-digit}
use praid.Pci.Access.Kept.{HostWrite, IsFit, AllFit, host_writes, kept_digit, write-IsBytes}
use Prim.Native.Nat.{bit_xor}

-- `intx_disabled` is digit 10 of the command register, and `msix_enabled` digit 15 of the MSI-X
-- one, once the device is there.
pub record IsSynced (s : PciSpace) : Type 0 where
  pub intx : s.intx_disabled ≡ (bit (s.virt_dev 5) 2 == 1)
  pub msix : s.pdev ≡ true → s.msix_enabled ≡ (bit (s.virt_dev 0x53) 7 == 1)

pub test_intx : (a : ℕ) → test a 0x400 ≡ (bit a 10 == 1)
test_intx a = ground (arith, bit_and-pow 10 a, bit-lt a 10)

test_msix : (a : ℕ) → test a 0x8000 ≡ (bit a 15 == 1)
test_msix a = ground (arith, bit_and-pow 15 a, bit-lt a 15)

-- The flags behind a write.
module _ (s : PciSpace) (offs val new : ℕ) where
  intx_after :
      (write_flags s offs val new).intx_disabled
      ≡ (if offs == 4 && not (bit val 10 == bit new 10) then bit new 10 == 1 else s.intx_disabled)
  unfolding write_flags
  intx_after = ground (
    arith,
    test_intx (bit_xor val new),
    test_intx new,
    bit-bit_xor 10 val new,
    bit-lt val 10,
    bit-lt new 10,
  )

  msix_after :
      s.pdev ≡ true
      → (write_flags s offs val new).msix_enabled ≡ (
          if offs == 0x52 && not (bit val 15 == bit new 15)
          then bit new 15 == 1
          else s.msix_enabled)
  unfolding write_flags
  msix_after there = ground (
    arith,
    there,
    test_msix (bit_xor val new),
    test_msix new,
    bit-bit_xor 15 val new,
    bit-lt val 15,
    bit-lt new 15,
  )

  pdev_after : (write_flags s offs val new).pdev ≡ s.pdev
  unfolding write_flags
  pdev_after = ground arith

mask_command : (offs i : ℕ) → i < 4 → offs + i ≡ 5 → offs ≢ 4 → mask_of offs / 256 ^ i % 256 ≡ 0
unfolding mask_of
mask_command offs zero h e n = ground arith
mask_command offs (suc zero) h e n = ground arith
mask_command offs (suc (suc zero)) h e n = ground arith
mask_command offs (suc (suc (suc zero))) h e n = ground arith
mask_command offs (suc (suc (suc (suc i)))) h e n = absurd (omega arith)

mask_msix : (offs i : ℕ) → i < 4 → offs + i ≡ 0x53 → offs ≢ 0x52 → mask_of offs / 256 ^ i % 256 ≡ 0
unfolding mask_of
mask_msix offs zero h e n = ground arith
mask_msix offs (suc zero) h e n = ground arith
mask_msix offs (suc (suc zero)) h e n = ground arith
mask_msix offs (suc (suc (suc zero))) h e n = ground arith
mask_msix offs (suc (suc (suc (suc i)))) h e n = absurd (omega arith)

masked :
    (offs i j : ℕ) → j < 8 → mask_of offs / 256 ^ i % 256 ≡ 0 → bit (mask_of offs) (8 * i + j) ≡ 0
masked offs i j lt e = sym (bit-byte i (mask_of offs) j lt) ∙ ap (λ (b : ℕ). bit b j) e ∙ bit-zero j

short_pow : (n : ℕ) → n ≤ 1 → 256 ^ n ≤ 256
short_pow zero h = omega arith
short_pow (suc zero) h = omega arith
short_pow (suc (suc n)) h = absurd (omega arith)

above_byte : (a j : ℕ) {n : ℕ} → a < n → n ≤ 256 → bit a (8 + j) ≡ 0
above_byte a j h lt =
    let none' : a / 256 ≡ 0 = omega (arith, h, lt) in
    bit-add_eight a j ∙ ap (λ (b : ℕ). bit b j) none' ∙ bit-zero j

command_mask : bit (mask_of 4) 10 ≡ 1
unfolding mask_of bit
command_mask = refl

msix_flags_mask : bit (mask_of 0x52) 15 ≡ 1
unfolding mask_of bit
msix_flags_mask = refl

module _ (s : PciSpace) (w : HostWrite) (bytes : IsBytes s.virt_dev) (fit : IsFit w) where
  abbrev after : PciSpace
  after = pciev_pci_write s w.devfn w.offs w.size w.value

  abbrev val : ℕ
  val = load_bytes w.size s.virt_dev w.offs

  -- A digit of the second byte of a register that only a write at the register may change.
  register_digit :
      (at j : ℕ)
      → j < 8
      → at ≢ 5
      → bit (mask_of at) (8 * 1 + j) ≡ 1
      → ((offs i : ℕ) → i < 4 → offs + i ≡ at + 1 → offs ≢ at → mask_of offs / 256 ^ i % 256 ≡ 0)
      → bit (after.virt_dev (at + 1)) j ≡ (
          if w.offs == at && ltb 1 w.size
          then bit w.value (8 * 1 + j)
          else bit (s.virt_dev (at + 1)) j)
  register_digit at j lt n one others = elim (Bool-cases (w.offs == at && ltb 1 w.size)) [
    | inl hit ↦
        let place : w.offs ≡ at = ground (arith, hit) in
        let long : 1 < w.size = ground (arith, hit) in
        let mask_one : bit (mask_of w.offs) (8 * 1 + j) ≡ 1 = rw place one in
        let digit = pciev_pci_write-digit s w.devfn w.offs w.size w.value 1 j bytes fit.0 long lt in
        rw (hit, ← place) (rw mask_one at digit)
    | inr miss ↦ rw miss (
        kept_digit s w (at + 1) j bytes fit.0 lt (inl (λ six. n (omega (arith, six))))
          (λ i short place. masked w.offs i j lt (
            others w.offs i (omega (arith, short, fit.0)) place
              (λ same. absurd (ground (arith, same, place, short, miss))))))
  ]

  -- The second byte of the old value, and of the new one where only one byte is written.
  val_digit :
      (at j : ℕ)
      → j < 8
      → w.offs ≡ at
      → 1 < w.size
      → bit val (8 * 1 + j) ≡ bit (s.virt_dev (at + 1)) j
  val_digit at j lt place long =
      rw (← place) (bit-load_bytes w.size w.offs 1 j s.virt_dev bytes long lt)

  short_value : (j : ℕ) → w.size ≤ 1 → (bit val (8 + j) ≡ 0) × (bit w.value (8 + j) ≡ 0)
  short_value j h = (
    above_byte val j (load_bytes-lt w.size w.offs s.virt_dev bytes) (short_pow w.size h),
    above_byte w.value j fit.1 (short_pow w.size h),
  )

  intx-after :
      s.intx_disabled ≡ (bit (s.virt_dev 5) 2 == 1)
      → after.intx_disabled ≡ (bit (after.virt_dev 5) 2 == 1)
  intx-after h =
      let digit =
        register_digit 4 2 (omega arith) (λ e. absurd (omega (arith, e))) command_mask
          mask_command in
      let flag : after.intx_disabled ≡ (
          if w.offs == 4 && not (bit val 10 == bit w.value 10)
          then bit w.value 10 == 1
          else s.intx_disabled) =
        unfold pciev_pci_write in intx_after s w.offs val w.value in
      ground (arith, digit, flag, val_digit 4 2, short_value 2, h)

  msix-after :
      s.pdev ≡ true
      → s.msix_enabled ≡ (bit (s.virt_dev 0x53) 7 == 1)
      → after.msix_enabled ≡ (bit (after.virt_dev 0x53) 7 == 1)
  msix-after there h =
      let digit =
        register_digit 0x52 7 (omega arith) (λ e. absurd (omega (arith, e))) msix_flags_mask
          mask_msix in
      let flag : after.msix_enabled ≡ (
          if w.offs == 0x52 && not (bit val 15 == bit w.value 15)
          then bit w.value 15 == 1
          else s.msix_enabled) =
        unfold pciev_pci_write in msix_after s w.offs val w.value there in
      ground (arith, digit, flag, val_digit 0x52 7, short_value 7, h)

  write-IsSynced : IsSynced s → IsSynced after
  write-IsSynced v =
      let same : after.pdev ≡ s.pdev = unfold pciev_pci_write in pdev_after s w.offs val w.value in
      record {
        intx = intx-after v.intx;
        msix = λ there.
            let there' : s.pdev ≡ true = sym same ∙ there in msix-after there' (v.msix there');
      }

-- Whatever a host writes, in accesses of at most four bytes, `intx_disabled` stays the interrupt
-- digit of the command register, and `msix_enabled` the enable digit of the MSI-X one.
pub host_writes-IsSynced :
    (s : PciSpace) (ws : List HostWrite)
    → IsBytes s.virt_dev
    → AllFit ws
    → IsSynced s
    → IsSynced (host_writes s ws)
unfolding host_writes
host_writes-IsSynced s [] bytes fit v = v
host_writes-IsSynced s (w ∷ ws) bytes (fit, later) v =
    host_writes-IsSynced (pciev_pci_write s w.devfn w.offs w.size w.value) ws
      (write-IsBytes s w.devfn w.offs w.size w.value bytes) later (write-IsSynced s w bytes fit v)
