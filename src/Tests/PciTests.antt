-- ===== src/Tests/PciTests.antt =====
-- The configuration space of a device at 5 GiB, and a host that writes to it.
use praid.Common.{
  ℕ, ◌+◌, ◌*◌, ◌^◌, ◌≡◌, refl, arith, true, some, List, [], ◌∷◌, if◌then◌else◌, ◌==◌,
}
use praid.Common.Digits.{bit}
use praid.Device.Word.{Memory, IsBytes}
use praid.Pci.Field.{parts_end, size_of}
use praid.Pci.Layout.{pci_header, pci_pm_cap, pci_msix_cap, pxdc, pxlcap}
use praid.Pci.Settings.{pci_settings}
use praid.Pci.Found.{capabilities, extended_capabilities, capabilities-pci_settings}
use praid.Pci.Access.{PciSpace, mask_of, pciev_pci_write}
use praid.Pci.Access.Digits.{pciev_pci_write-digit}
use praid.Pci.Access.Kept.{HostWrite, host_writes, host_writes-read_only}
use praid.Probe.Ids.{PciDeviceId, pcievdrv_ids, pcievdrv_get_configs, pcievdrv_get_configs-ids}
use praid.Pci.Access.Flags.{IsSynced, host_writes-IsSynced}
use praid.Pci.Access.Registers.{pciev_pci_write-intx}

header_size : parts_end 0 pci_header ≡ 64 * 8
header_size = refl

pm_size : parts_end 0 pci_pm_cap ≡ 8 * 8
pm_size = refl

msix_size : parts_end 0 pci_msix_cap ≡ 12 * 8
msix_size = refl

-- Two registers of the PCI Express capability that take twice the room that they should.
device_control_size : size_of pxdc ≡ 2 * 16
device_control_size = refl

link_capabilities_size : size_of pxlcap ≡ 2 * 32
link_capabilities_size = refl

abbrev zeros : Memory
zeros _ = 0

abbrev base : ℕ
base = 5 * 2 ^ 30

capabilities-pci_settings_example :
    (capabilities (pci_settings base zeros)
      ≡ some ((0x40, 0x01) ∷ (0x50, 0x11) ∷ (0x60, 0x10) ∷ []))
    × (extended_capabilities (pci_settings base zeros)
        ≡ some (
            (0x100, 0x01)
            ∷ (0x150, 0x02)
            ∷ (0x180, 0x04)
            ∷ (0x190, 0x0e)
            ∷ (0x270, 0x03)
            ∷ (0x2a0, 0x19)
            ∷ []))
capabilities-pci_settings_example = capabilities-pci_settings base zeros

-- The interrupt line is disabled, and its status is set.
abbrev page : Memory
page a = if a == 5 then 4 else if a == 6 then 8 else if a == 0x53 then 0x80 else 0

page-IsBytes : IsBytes page
page-IsBytes a = ground arith

abbrev space : PciSpace
space = record { virt_dev = page; intx_disabled = true; pdev = true; msix_enabled = true }

space-IsSynced : IsSynced space
unfolding bit
space-IsSynced = record { intx = refl; msix = λ _. refl }

-- A host enables the interrupt line, asks for the size of the region and turns MSI-X off.
abbrev writes : List HostWrite
writes =
    record { devfn = 0; offs = 4; size = 2; value = 0 }
    ∷ record { devfn = 0; offs = 0x10; size = 4; value = 0xFFFFFFFF }
    ∷ record { devfn = 0; offs = 0x52; size = 2; value = 0 }
    ∷ []

host_writes-read_only_example : (host_writes space writes).virt_dev 0x34 ≡ 0
host_writes-read_only_example =
    host_writes-read_only space writes 0x34 page-IsBytes (omega arith) refl

host_writes-IsSynced_example : IsSynced (host_writes space writes)
host_writes-IsSynced_example =
    host_writes-IsSynced space writes page-IsBytes (omega arith) space-IsSynced

pciev_pci_write-digit_example :
    bit ((pciev_pci_write space 0 4 2 0).virt_dev (4 + 1)) 2
    ≡ (if bit (mask_of 4) (8 * 1 + 2) == 1 then bit 0 (8 * 1 + 2) else bit (page (4 + 1)) 2)
pciev_pci_write-digit_example =
    pciev_pci_write-digit space 0 4 2 0 1 2 page-IsBytes (omega arith) (omega arith) (omega arith)

pciev_pci_write-intx_example :
    (bit ((pciev_pci_write space 0 4 2 0).virt_dev 6) 3 ≡ 0)
    × (bit ((pciev_pci_write space 0 4 4 0).virt_dev 6) 3 ≡ bit (page 6) 3)
unfolding bit
pciev_pci_write-intx_example = pciev_pci_write-intx space 0 page-IsBytes refl refl

pcievdrv_get_configs-ids_example :
    (id : PciDeviceId) × (pcievdrv_ids ≡ id ∷ [])
    × (pcievdrv_get_configs
          (host_writes (record space { virt_dev = pci_settings (5 * 2 ^ 30) page }) writes)
          0
        ≡ some (record { id = id; revision = 1; class_revision = 1 }))
pcievdrv_get_configs-ids_example =
    pcievdrv_get_configs-ids (5 * 2 ^ 30) page page-IsBytes
      (record space { virt_dev = pci_settings (5 * 2 ^ 30) page }) refl writes (omega arith)
