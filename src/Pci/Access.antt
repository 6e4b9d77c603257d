-- ===== src/Pci/Access.antt =====
-- pci.c: `pciev_pci_read` and `pciev_pci_write`, by which a host reads and writes the configuration
-- space. A constant of linux/pci_regs.h stands as the number that the PCI specification gives it.
pub mod Digits
pub mod Kept
pub mod Flags
pub mod Registers
use praid.Common.{ℕ, ◌-◌, ◌^◌, Bool, true, false, ◌&&◌, not, Option, none, some, ltb, ◌==◌}
use praid.Common.{if◌then◌else◌}
use praid.Common.Digits.{complement}
use praid.Device.Word.{Memory}
use praid.Pci.Space.{load_bytes, store_bytes}
use praid.Pci.Field.{set_field}
use praid.Pci.Layout.{pcihdr, offs_pci_pm_cap, offs_pci_msix_cap, offs_pcie_cap, offs_pci_ext_cap}
use Prim.Native.Nat.{bit_and, bit_or, bit_xor}

-- What a write may change of `struct pciev_dev`; `pdev` tells whether the device is there yet, and
-- `msix_enabled` is its flag.
pub record PciSpace : Type 0 where
  pub virt_dev : Memory
  pub intx_disabled : Bool
  pub pdev : Bool
  pub msix_enabled : Bool

abbrev pub pci_command : ℕ
pci_command = 0x04

abbrev pub pci_command_intx_disable : ℕ
pci_command_intx_disable = 0x400

abbrev pub pci_status : ℕ
pci_status = 0x06

abbrev pub pci_bist : ℕ
pci_bist = 0x0f

abbrev pub pci_bist_start : ℕ
pci_bist_start = 0x40

abbrev pub pci_base_address_0 : ℕ
pci_base_address_0 = 0x10

abbrev pub pci_interrupt_line : ℕ
pci_interrupt_line = 0x3c

abbrev pub pci_msix_flags : ℕ
pci_msix_flags = 0x02

abbrev pub pci_msix_flags_maskall : ℕ
pci_msix_flags_maskall = 0x4000

abbrev pub pci_msix_flags_enable : ℕ
pci_msix_flags_enable = 0x8000

-- `~(0U)`.
abbrev pub all_ones : ℕ
all_ones = 0xFFFFFFFF

-- The value that is read; `none` stands for the result 1.
unfoldable pub pciev_pci_read : PciSpace → (devfn offs size : ℕ) → Option ℕ
unfolding load_bytes
pciev_pci_read s devfn offs size =
    if not (devfn == 0) then none else some (load_bytes size s.virt_dev offs)

-- `!!(a & flag)`.
abbrev pub test : ℕ → ℕ → Bool
test a flag = not (bit_and a flag == 0)

-- Where the interrupt line is enabled again, `sts.is` is cleared.
unfoldable pub set_intx : PciSpace → ℕ → PciSpace
set_intx s new =
    if test new pci_command_intx_disable
    then record s { intx_disabled = true }
    else record s { intx_disabled = false; virt_dev = set_field (pcihdr 2 1) 0 s.virt_dev }

unfoldable pub write_command : PciSpace → (val new : ℕ) → PciSpace
unfolding set_intx
write_command s val new =
    if test (bit_xor val new) pci_command_intx_disable then set_intx s new else s

-- The digits that a write at `target` of the header may change.
unfoldable pub header_mask : ℕ → ℕ
header_mask target =
    if target == pci_command
    then pci_command_intx_disable
    else if target == pci_status
    then 0xF200
    else if target == pci_bist
    then pci_bist_start
    else if target == pci_base_address_0
    then 0xFFFFC000
    else if target == pci_interrupt_line
    then 0xFF
    else 0x0

-- The same in the MSI-X capability.
unfoldable pub msix_mask : ℕ → ℕ
msix_mask target =
    if target == pci_msix_flags then bit_or pci_msix_flags_maskall pci_msix_flags_enable else 0x0

unfoldable pub write_msix_flags : PciSpace → (val new : ℕ) → PciSpace
write_msix_flags s val new =
    if s.pdev && test (bit_xor val new) pci_msix_flags_enable
    then record s { msix_enabled = test new pci_msix_flags_enable }
    else s

-- The mask by the region of the place that is written.
unfoldable pub mask_of : ℕ → ℕ
unfolding header_mask msix_mask
mask_of offs =
    if ltb offs offs_pci_pm_cap
    then header_mask offs
    else if ltb offs offs_pci_msix_cap
    then all_ones
    else if ltb offs offs_pcie_cap
    then msix_mask (offs - offs_pci_msix_cap)
    else if ltb offs offs_pci_ext_cap
    then all_ones
    else all_ones

-- What a write does beside the page: the flags that follow the command and the MSI-X register.
unfoldable pub write_flags : PciSpace → (offs val new : ℕ) → PciSpace
unfolding write_command write_msix_flags
write_flags s offs val new =
    if ltb offs offs_pci_pm_cap
    then if offs == pci_command then write_command s val new else s
    else if ltb offs offs_pci_msix_cap
    then s
    else if ltb offs offs_pcie_cap
    then if offs - offs_pci_msix_cap == pci_msix_flags then write_msix_flags s val new else s
    else s

-- `(val & ~mask) | (_val & mask)`.
abbrev pub merge : (mask val new : ℕ) → ℕ
merge mask val new = bit_or (bit_and val (complement 32 mask)) (bit_and new mask)

-- The function number is not looked at.
unfoldable pub pciev_pci_write : PciSpace → (devfn offs size new : ℕ) → PciSpace
unfolding write_flags mask_of load_bytes
pciev_pci_write s devfn offs size new =
    let val = load_bytes size s.virt_dev offs in
    let s' = write_flags s offs val new in
    record s' { virt_dev = store_bytes size s'.virt_dev offs (merge (mask_of offs) val new) }
