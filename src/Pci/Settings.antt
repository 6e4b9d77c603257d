-- ===== src/Pci/Settings.antt =====
-- pci.c: what `PCIEV_PCI_INIT` writes to the configuration space before it makes the bus. A
-- constant of linux/pci_regs.h stands as the number that the PCI specification gives it.
use praid.Common.{ℕ, ◌+◌, ◌/◌, ◌^◌, List, [], ◌∷◌}
use praid.Device.Word.{Memory}
use praid.Pci.Field.{Field, set_field}
use praid.Pci.Layout.{
  pcihdr, pmcap, msixcap, pciecap, extcap, offs_pci_pm_cap, offs_pci_msix_cap, offs_pcie_cap,
  pci_cfg_space_size,
}
use Prim.Native.Nat.{bit_and}

-- Assignments to members, in order.
unfoldable pub assign : List (Field × ℕ) → Memory → Memory
assign [] m = m
assign ((f, v) ∷ rest) m = assign rest (set_field f v m)

-- pciev.h and device.h.
abbrev pub pciev_device_id : ℕ
pciev_device_id = 0x0110

abbrev pub pciev_vendor_id : ℕ
pciev_vendor_id = 0x0c51

abbrev pciev_subsystem_id : ℕ
pciev_subsystem_id = 0x370d

abbrev pub pciev_intx_irq : ℕ
pciev_intx_irq = 15

abbrev pub pci_header_settings : ℕ → List (Field × ℕ)
pci_header_settings base_pa =
    (pcihdr 0 1, pciev_device_id)
    ∷ (pcihdr 0 0, pciev_vendor_id)
    ∷ (pcihdr 1 1, 1)
    ∷ (pcihdr 2 2, 1)
    ∷ (pcihdr 7 1, 0)
    ∷ (pcihdr 7 0, 0)
    ∷ (pcihdr 3 0, 0x01)
    ∷ (pcihdr 4 2, 0x00)
    ∷ (pcihdr 4 1, 0x00)
    ∷ (pcihdr 4 0, 0x00)
    ∷ (pcihdr 9 1, 0x04 / 2 ^ 1)
    ∷ (pcihdr 9 4, bit_and base_pa 0xFFFFFFFF / 2 ^ 14)
    ∷ (pcihdr 10 0, base_pa / 2 ^ 32)
    ∷ (pcihdr 16 1, pciev_subsystem_id)
    ∷ (pcihdr 16 0, pciev_vendor_id)
    ∷ (pcihdr 17 0, 0x0)
    ∷ (pcihdr 18 0, offs_pci_pm_cap)
    ∷ (pcihdr 20 1, 0)
    ∷ (pcihdr 20 0, pciev_intx_irq)
    ∷ []

abbrev pub pci_pmcap_settings : List (Field × ℕ)
pci_pmcap_settings =
    (pmcap 0 0, 0x01)
    ∷ (pmcap 0 1, offs_pci_msix_cap)
    ∷ (pmcap 1 0, 3)
    ∷ (pmcap 2 0, 0x0800 / 2 ^ 16)
    ∷ []

abbrev pub pci_msixcap_settings : List (Field × ℕ)
pci_msixcap_settings =
    (msixcap 0 0, 0x11)
    ∷ (msixcap 0 1, offs_pcie_cap)
    ∷ (msixcap 1 0, 127)
    ∷ (msixcap 1 3, 1)
    ∷ (msixcap 2 0, 0)
    ∷ (msixcap 2 1, 0x400)
    ∷ (msixcap 3 0, 0)
    ∷ (msixcap 3 1, 0x1000)
    ∷ []

-- `ver` is set to PCI_EXP_FLAGS, which is 2.
abbrev pub pci_pciecap_settings : List (Field × ℕ)
pci_pciecap_settings =
    (pciecap 0 0, 0x10)
    ∷ (pciecap 0 1, 0x0)
    ∷ (pciecap 1 0, 2)
    ∷ (pciecap 1 3, 0)
    ∷ (pciecap 1 1, 0)
    ∷ (pciecap 2 0, 1)
    ∷ (pciecap 2 1, 0)
    ∷ (pciecap 2 2, 1)
    ∷ (pciecap 2 3, 6)
    ∷ (pciecap 2 4, 2)
    ∷ (pciecap 2 6, 1)
    ∷ (pciecap 2 8, 0)
    ∷ (pciecap 2 9, 0)
    ∷ (pciecap 2 10, 1)
    ∷ []

abbrev pub pci_extcap_settings : List (Field × ℕ)
pci_extcap_settings =
    (extcap 0 0, 0x01)
    ∷ (extcap 0 1, 1)
    ∷ (extcap 0 2, pci_cfg_space_size + 0x50)
    ∷ (extcap 0x50 0, 0x02)
    ∷ (extcap 0x50 1, 1)
    ∷ (extcap 0x50 2, pci_cfg_space_size + 0x80)
    ∷ (extcap 0x80 0, 0x04)
    ∷ (extcap 0x80 1, 1)
    ∷ (extcap 0x80 2, pci_cfg_space_size + 0x90)
    ∷ (extcap 0x90 0, 0x0e)
    ∷ (extcap 0x90 1, 1)
    ∷ (extcap 0x90 2, pci_cfg_space_size + 0x170)
    ∷ (extcap 0x170 0, 0x03)
    ∷ (extcap 0x170 1, 1)
    ∷ (extcap 0x170 2, pci_cfg_space_size + 0x1a0)
    ∷ (extcap 0x1a0 0, 0x19)
    ∷ (extcap 0x1a0 1, 1)
    ∷ (extcap 0x1a0 2, 0)
    ∷ []

-- The five calls at the head of `PCIEV_PCI_INIT`.
unfoldable pub pci_settings : ℕ → Memory → Memory
unfolding assign
pci_settings base_pa virt_dev = assign pci_extcap_settings (
    assign pci_pciecap_settings (
      assign pci_msixcap_settings
        (assign pci_pmcap_settings (assign (pci_header_settings base_pa) virt_dev))))
