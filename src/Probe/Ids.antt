-- ===== src/Probe/Ids.antt =====
-- pciedrv.c: the devices that the driver is for, `pcievdrv_ids`, and what `pcievdrv_get_configs`
-- reads of the configuration space that pci.c has set up.
use praid.Common.{
  ℕ, suc, ◌+◌, ◌*◌, ◌/◌, ◌%◌, ◌^◌, ◌<◌, zero, ◌≡◌, refl, sym, ap, ◌∙◌, arith, true, Option, none,
  some, List, [], ◌∷◌, ◌⊎◌, inl, inr,
}
use praid.Common.Digits.{bit}
use praid.Device.Word.{Memory, IsBytes, word}
use praid.Pci.Space.{load_bytes, bit-load_bytes, load_bytes-lt}
use praid.Pci.Field.{Field, bit_of, get_field, number-eq, number-bit, set_field-IsBytes}
use praid.Pci.Settings.{assign, pci_settings, pciev_device_id, pciev_vendor_id}
use native.Mathlib.Nat.{mod-eq_of_lt}
use praid.Pci.Found.{
  clear, result, all_settings, pci_settings-assign, digits_at, get_field-pci_settings,
}
use praid.Pci.Access.{PciSpace, pciev_pci_read}
use praid.Pci.Access.Kept.{read_only, HostWrite, AllFit, host_writes, host_writes-read_only}

-- `PCI_DEVICE`, for any subsystem; the table without the zeros at its end.
pub record PciDeviceId : Type 0 where
  pub vendor : ℕ
  pub device : ℕ

abbrev pub pcievdrv_ids : List PciDeviceId
pcievdrv_ids = record { vendor = pciev_vendor_id; device = pciev_device_id } ∷ []

-- The values that are printed.
pub record Configs : Type 0 where
  pub id : PciDeviceId
  pub revision : ℕ
  pub class_revision : ℕ

infixl 5 ◌>>=◌
abbrev pub ◌>>=◌ : {A B : Type 0} → Option A → (A → Option B) → Option B
none >>= f = none
some a >>= f = f a

-- Nothing stands for a read that fails, behind which a value is printed that was never set.
unfoldable pub pcievdrv_get_configs : PciSpace → ℕ → Option Configs
unfolding pciev_pci_read
pcievdrv_get_configs s devfn = do
  vendor ← pciev_pci_read s devfn 0x00 2
  device ← pciev_pci_read s devfn 0x02 2
  revision ← pciev_pci_read s devfn 0x08 1
  class_revision ← pciev_pci_read s devfn 0x08 4
  some (record {
    id = record { vendor = vendor; device = device };
    revision = revision;
    class_revision = class_revision;
  })

assign-IsBytes : (l : List (Field × ℕ)) (m : Memory) → IsBytes m → IsBytes (assign l m)
unfolding assign
assign-IsBytes [] m h = h
assign-IsBytes ((f, v) ∷ l) m h = assign-IsBytes l _ (set_field-IsBytes f v m)

pci_settings-IsBytes : (base_pa : ℕ) (m : Memory) → IsBytes m → IsBytes (pci_settings base_pa m)
pci_settings-IsBytes base_pa m h =
    rw (pci_settings-assign base_pa m) (assign-IsBytes (all_settings base_pa) m h)

-- What is read at a byte is the field of the digits there.
load_bytes-field :
    (n w p : ℕ) (m : Memory)
    → IsBytes m
    → w ≡ 8 * n
    → 256 ^ n ≡ 2 ^ w
    → load_bytes n m p ≡ get_field (digits_at p 0 w) m
unfolding get_field
load_bytes-field n w p m h e e' =
    let below = load_bytes-lt n p m h in
    let digits =
      number-eq w (bit (load_bytes n m p)) (λ k. bit_of m (p * 8 + 0 + k))
        (λ k lt.
          let digit : 8 * (k / 8) + k % 8 ≡ k = omega arith in
          let byte : (p * 8 + 0 + k) / 8 ≡ p + k / 8 = omega arith in
          let place : (p * 8 + 0 + k) % 8 ≡ k % 8 = omega arith in
          rw (byte, place)
            (rw digit at
              (bit-load_bytes n p (k / 8) (k % 8) m h (omega (arith, lt, e)) (omega arith)))) in
    sym (mod-eq_of_lt (rw e' at below)) ∙ sym (number-bit w (load_bytes n m p)) ∙ digits

module _ (base_pa : ℕ) (m : Memory) (bytes : IsBytes m) where
  -- A number of `n` bytes in the header, as it was set.
  setting :
      (n w p : ℕ)
      → w ≡ 8 * n
      → 256 ^ n ≡ 2 ^ w
      → clear (digits_at p 0 w) (all_settings base_pa) ≡ true
      → load_bytes n (pci_settings base_pa m) p
        ≡ result (digits_at p 0 w) (all_settings base_pa) (get_field (digits_at p 0 w) m)
  setting n w p e e' untouched =
      load_bytes-field n w p (pci_settings base_pa m) (pci_settings-IsBytes base_pa m bytes) e e'
      ∙ get_field-pci_settings base_pa m (digits_at p 0 w) untouched

  vendor : load_bytes 2 (pci_settings base_pa m) 0 ≡ pciev_vendor_id
  vendor = setting 2 16 0 refl refl refl

  device : load_bytes 2 (pci_settings base_pa m) 2 ≡ pciev_device_id
  device = setting 2 16 2 refl refl refl

  revision : load_bytes 1 (pci_settings base_pa m) 8 ≡ 1
  revision = setting 1 8 8 refl refl refl

  class_byte :
      (p : ℕ) → (p ≡ 9) ⊎ ((p ≡ 10) ⊎ (p ≡ 11)) → load_bytes 1 (pci_settings base_pa m) p ≡ 0
  class_byte p (inl e) = rw e (setting 1 8 9 refl refl refl)
  class_byte p (inr (inl e)) = rw e (setting 1 8 10 refl refl refl)
  class_byte p (inr (inr e)) = rw e (setting 1 8 11 refl refl refl)

word-eq : (n : ℕ) (f g : ℕ → ℕ) → ((i : ℕ) → i < n → f i ≡ g i) → word n f ≡ word n g
unfolding word
word-eq zero f g h = refl
word-eq (suc n) f g h = omega (
  arith,
  h 0 (omega arith),
  word-eq n (λ i. f (suc i)) (λ i. g (suc i)) (λ i lt. h (suc i) (omega arith)),
)

load_bytes-eq :
    (n p : ℕ) (m m' : Memory)
    → ((i : ℕ) → i < n → m (p + i) ≡ m' (p + i))
    → load_bytes n m p ≡ load_bytes n m' p
unfolding load_bytes
load_bytes-eq n p m m' h = word-eq n (λ i. m (p + i)) (λ i. m' (p + i)) h

load_bytes-four :
    (m : Memory) (p : ℕ)
    → load_bytes 4 m p
      ≡ load_bytes 1 m p
        + 256 * load_bytes 1 m (p + 1)
        + 65536 * load_bytes 1 m (p + 2)
        + 16777216 * load_bytes 1 m (p + 3)
unfolding load_bytes word
load_bytes-four m p =
    let one : p + 1 + 0 ≡ p + 1 = omega arith in
    let two : p + 2 + 0 ≡ p + 2 = omega arith in
    let three : p + 3 + 0 ≡ p + 3 = omega arith in rw (one, two, three) (omega arith)

host_load :
    (base_pa : ℕ) (m : Memory)
    → IsBytes m
    → (s : PciSpace) → s.virt_dev ≡ pci_settings base_pa m
    → (ws : List HostWrite) → AllFit ws
    → (n p : ℕ) → ((i : ℕ) → i < n → read_only (p + i) ≡ true)
    → load_bytes n (host_writes s ws).virt_dev p ≡ load_bytes n (pci_settings base_pa m) p
host_load base_pa m bytes s page ws fit n p r =
    let at_start : IsBytes s.virt_dev = rw page (pci_settings-IsBytes base_pa m bytes) in
    load_bytes-eq n p (host_writes s ws).virt_dev s.virt_dev
      (λ i lt. host_writes-read_only s ws (p + i) at_start fit (r i lt))
    ∙ ap (λ v. load_bytes n v p) page

-- Over bytes, with the page as `PCIEV_PCI_INIT` has set it up for any base address: whatever a host
-- writes then, in accesses of at most four bytes, the reads of `pcievdrv_get_configs` succeed, and
-- they give the vendor and the device of the only entry of `pcievdrv_ids`, so that the driver is
-- for this device, the revision 1, and no class.
pub pcievdrv_get_configs-ids :
    (base_pa : ℕ) (m : Memory)
    → IsBytes m
    → (s : PciSpace) → s.virt_dev ≡ pci_settings base_pa m
    → (ws : List HostWrite) → AllFit ws
    → (id : PciDeviceId) × (pcievdrv_ids ≡ id ∷ [])
      × (pcievdrv_get_configs (host_writes s ws) 0
          ≡ some (record { id = id; revision = 1; class_revision = 1 }))
unfolding pcievdrv_get_configs
pcievdrv_get_configs-ids base_pa m bytes s page ws fit =
    let same = host_load base_pa m bytes s page ws fit in
    let is_vendor = same 2 0 (λ i lt. ground arith) ∙ vendor base_pa m bytes in
    let is_device = same 2 2 (λ i lt. ground arith) ∙ device base_pa m bytes in
    let is_revision = same 1 8 (λ i lt. ground arith) ∙ revision base_pa m bytes in
    let class_ : load_bytes 4 (host_writes s ws).virt_dev 8 ≡ 1 =
      same 4 8 (λ i lt. ground arith)
      ∙ omega (
        arith,
        load_bytes-four (pci_settings base_pa m) 8,
        revision base_pa m bytes,
        class_byte base_pa m bytes 9 (inl refl),
        class_byte base_pa m bytes 10 (inr (inl refl)),
        class_byte base_pa m bytes 11 (inr (inr refl)),
      ) in
    (
      record { vendor = pciev_vendor_id; device = pciev_device_id },
      refl,
      rw (is_vendor, is_device, is_revision, class_) refl,
    )
