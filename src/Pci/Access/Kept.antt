-- ===== src/Pci/Access/Kept.antt =====
-- What stays true of the configuration space whatever a host writes.
use praid.Common.{
  ℕ, zero, suc, ◌+◌, ◌-◌, ◌*◌, ◌/◌, ◌%◌, ◌^◌, ◌<◌, ◌≤◌, ◌≡◌, ◌≢◌, ◌⊎◌, refl, sym, ap, ◌∙◌, arith,
  Bool, Bool-cases, inl, inr, true, ◌&&◌, ◌||◌, not, leb, ltb, ◌==◌, List, [], ◌∷◌,
}
use praid.Common.Digits.{bit, bit-zero, eq_of_bits}
use praid.Device.Word.{IsBytes}
use praid.Pci.Space.{bit-byte, store_bytes-IsBytes}
use praid.Pci.Field.{set_field-IsBytes}
use praid.Pci.Layout.{pcihdr}
use praid.Pci.Access.{PciSpace, mask_of, write_flags, pciev_pci_write}
use praid.Pci.Access.Digits.{pciev_pci_write-digit, pciev_pci_write-outside}

-- A write of a host, of at most four bytes.
pub record HostWrite : Type 0 where
  pub devfn : ℕ
  pub offs : ℕ
  pub size : ℕ
  pub value : ℕ

abbrev pub IsFit : HostWrite → Type 0
IsFit w = (w.size ≤ 4) × (w.value < 256 ^ w.size)

abbrev pub AllFit : List HostWrite → Type 0
AllFit [] = Unit
AllFit (w ∷ ws) = IsFit w × AllFit ws

unfoldable pub host_writes : PciSpace → List HostWrite → PciSpace
host_writes s [] = s
host_writes s (w ∷ ws) = host_writes (pciev_pci_write s w.devfn w.offs w.size w.value) ws

-- The bytes of the header but for the second one of the command, the status, the self test, the
-- upper three of the base address and the interrupt line.
abbrev pub read_only : ℕ → Bool
read_only a =
    ltb a 0x40
    && not (
        a == 0x05
        || a == 0x06
        || a == 0x07
        || a == 0x0f
        || a == 0x11
        || a == 0x12
        || a == 0x13
        || a == 0x3c)

mask_byte-read_only :
    (offs i : ℕ) → i < 4 → read_only (offs + i) ≡ true → mask_of offs / 256 ^ i % 256 ≡ 0
unfolding mask_of
mask_byte-read_only offs zero h r = ground arith
mask_byte-read_only offs (suc zero) h r = ground arith
mask_byte-read_only offs (suc (suc zero)) h r = ground arith
mask_byte-read_only offs (suc (suc (suc zero))) h r = ground arith
mask_byte-read_only offs (suc (suc (suc (suc i)))) h r = absurd (omega arith)

-- No digit of such a byte stands in the mask of a write.
mask-read_only :
    (offs i j : ℕ)
    → i < 4
    → j < 8
    → read_only (offs + i) ≡ true
    → bit (mask_of offs) (8 * i + j) ≡ 0
mask-read_only offs i j h lt r =
    sym (bit-byte i (mask_of offs) j lt)
    ∙ ap (λ (b : ℕ). bit b j) (mask_byte-read_only offs i h r)
    ∙ bit-zero j

-- A digit that the mask leaves alone is kept, wherever the write begins.
pub kept_digit :
    (s : PciSpace) (w : HostWrite) (a j : ℕ)
    → IsBytes s.virt_dev
    → w.size ≤ 4
    → j < 8
    → (a ≢ 6) ⊎ (j ≢ 3)
    → ((i : ℕ) → i < w.size → w.offs + i ≡ a → bit (mask_of w.offs) (8 * i + j) ≡ 0)
    → bit ((pciev_pci_write s w.devfn w.offs w.size w.value).virt_dev a) j ≡ bit (s.virt_dev a) j
kept_digit s w a j bytes few lt free masked =
    elim (Bool-cases (leb w.offs a && ltb a (w.offs + w.size))) [
      | inl inside ↦
          let i : ℕ = a - w.offs in
          let place : w.offs + i ≡ a = ground (arith, inside) in
          let short : i < w.size = ground (arith, inside) in
          let digit =
            pciev_pci_write-digit s w.devfn w.offs w.size w.value i j bytes few short lt in
          let zero' = masked i short place in rw (zero', place) at digit
      | inr outside ↦ pciev_pci_write-outside s w.devfn w.offs w.size w.value a j outside free lt
    ]

flags-IsBytes :
    (s : PciSpace) (offs val new : ℕ)
    → IsBytes s.virt_dev
    → IsBytes (write_flags s offs val new).virt_dev
unfolding write_flags
flags-IsBytes s offs val new bytes a =
    ground (arith, bytes a, set_field-IsBytes (pcihdr 2 1) 0 s.virt_dev a)

pub write-IsBytes :
    (s : PciSpace) (devfn offs size new : ℕ)
    → IsBytes s.virt_dev
    → IsBytes (pciev_pci_write s devfn offs size new).virt_dev
unfolding pciev_pci_write
write-IsBytes s devfn offs size new bytes =
    store_bytes-IsBytes size offs _ _ (flags-IsBytes s offs _ new bytes)

write-read_only :
    (s : PciSpace) (w : HostWrite) (a : ℕ)
    → IsBytes s.virt_dev
    → w.size ≤ 4
    → read_only a ≡ true
    → (pciev_pci_write s w.devfn w.offs w.size w.value).virt_dev a ≡ s.virt_dev a
write-read_only s w a bytes few r =
    eq_of_bits 8 _ _ (write-IsBytes s w.devfn w.offs w.size w.value bytes a) (bytes a) (λ j lt.
      kept_digit s w a j bytes few lt (inl (λ six. ground (arith, six)))
        (λ i short place. mask-read_only w.offs i j (omega arith) lt (rw place r)))

-- Whatever a host writes, in accesses of at most four bytes, the bytes of the header but those
-- with a writable digit stay as they are: the identity of the device and its class, the lower
-- byte of the base address and the pointer to the capabilities among them.
pub host_writes-read_only :
    (s : PciSpace) (ws : List HostWrite) (a : ℕ)
    → IsBytes s.virt_dev
    → AllFit ws
    → read_only a ≡ true
    → (host_writes s ws).virt_dev a ≡ s.virt_dev a
unfolding host_writes
host_writes-read_only s [] a bytes fit r = refl
host_writes-read_only s (w ∷ ws) a bytes (fit, later) r =
    let s' = pciev_pci_write s w.devfn w.offs w.size w.value in
    host_writes-read_only s' ws a (write-IsBytes s w.devfn w.offs w.size w.value bytes) later r
    ∙ write-read_only s w a bytes fit.0 r
