-- ===== src/Pci/Layout.antt =====
-- pci.h: the structs of the configuration space, part by part, and where they stand. A member
-- that is not in an inner struct is a part of its own.
use praid.Common.{ℕ, ◌+◌, List, [], ◌∷◌}
use praid.Pci.Field.{Member, Field, u8, u16, u32, field}

abbrev pub pci_header : List (List Member)
pci_header =
    (u16 16 ∷ u16 16 ∷ [])
    ∷ (u8 1 ∷ u8 1 ∷ u8 1 ∷ u8 1 ∷ u8 1 ∷ u8 1 ∷ u8 1 ∷ u8 1 ∷ u8 1 ∷ u8 1 ∷ u8 1 ∷ u8 5 ∷ [])
    ∷ (u8 3
        ∷ u8 1
        ∷ u8 1
        ∷ u8 1
        ∷ u8 1
        ∷ u8 1
        ∷ u8 1
        ∷ u8 2
        ∷ u8 1
        ∷ u8 1
        ∷ u8 1
        ∷ u8 1
        ∷ u8 1
        ∷ [])
    ∷ (u8 8 ∷ [])
    ∷ (u8 8 ∷ u8 8 ∷ u8 8 ∷ [])
    ∷ (u8 8 ∷ [])
    ∷ (u8 8 ∷ [])
    ∷ (u8 7 ∷ u8 1 ∷ [])
    ∷ (u8 4 ∷ u8 2 ∷ u8 1 ∷ u8 1 ∷ [])
    ∷ (u32 1 ∷ u32 2 ∷ u32 1 ∷ u32 10 ∷ u32 18 ∷ [])
    ∷ (u32 32 ∷ [])
    ∷ (u32 32 ∷ [])
    ∷ (u32 32 ∷ [])
    ∷ (u32 32 ∷ [])
    ∷ (u32 32 ∷ [])
    ∷ (u32 32 ∷ [])
    ∷ (u16 16 ∷ u16 16 ∷ [])
    ∷ (u32 32 ∷ [])
    ∷ (u8 8 ∷ [])
    ∷ (u8 8 ∷ u8 8 ∷ u8 8 ∷ u8 8 ∷ u8 8 ∷ u8 8 ∷ u8 8 ∷ [])
    ∷ (u8 8 ∷ u8 8 ∷ [])
    ∷ (u8 8 ∷ [])
    ∷ (u8 8 ∷ [])
    ∷ []

abbrev pub pci_pm_cap : List (List Member)
pci_pm_cap =
    (u8 8 ∷ u8 8 ∷ [])
    ∷ (u16 3 ∷ u16 1 ∷ u16 1 ∷ u16 1 ∷ u16 3 ∷ u16 1 ∷ u16 1 ∷ u16 5 ∷ [])
    ∷ (u16 2 ∷ u16 1 ∷ u16 1 ∷ u16 4 ∷ u16 1 ∷ u16 4 ∷ u16 2 ∷ u16 1 ∷ [])
    ∷ (u8 8 ∷ u8 8 ∷ [])
    ∷ []

abbrev pub pci_msix_cap : List (List Member)
pci_msix_cap =
    (u8 8 ∷ u8 8 ∷ [])
    ∷ (u16 11 ∷ u16 3 ∷ u16 1 ∷ u16 1 ∷ [])
    ∷ (u32 3 ∷ u32 29 ∷ [])
    ∷ (u32 3 ∷ u32 29 ∷ [])
    ∷ []

-- The parts from `pxid` to `pxds`.
abbrev pxdcap : List Member
pxdcap =
    u32 3
    ∷ u32 2
    ∷ u32 1
    ∷ u32 3
    ∷ u32 3
    ∷ u32 3
    ∷ u32 1
    ∷ u32 2
    ∷ u32 8
    ∷ u32 2
    ∷ u32 1
    ∷ u32 3
    ∷ []

abbrev pub pxdc : List Member
pxdc =
    u16 1
    ∷ u16 1
    ∷ u16 2
    ∷ u16 1
    ∷ u16 1
    ∷ u16 3
    ∷ u16 1
    ∷ u16 1
    ∷ u16 1
    ∷ u16 1
    ∷ u16 3
    ∷ u16 1
    ∷ []

abbrev pub pxlcap : List Member
pxlcap =
    u32 4
    ∷ u32 6
    ∷ u32 2
    ∷ u32 3
    ∷ u32 3
    ∷ u32 1
    ∷ u32 1
    ∷ u32 20
    ∷ u32 1
    ∷ u32 1
    ∷ u32 1
    ∷ u32 8
    ∷ []

abbrev pub pcie_cap : List (List Member)
pcie_cap =
    (u8 8 ∷ u8 8 ∷ [])
    ∷ (u16 4 ∷ u16 4 ∷ u16 1 ∷ u16 5 ∷ u16 2 ∷ [])
    ∷ pxdcap
    ∷ pxdc
    ∷ (u16 1 ∷ u16 1 ∷ u16 1 ∷ u16 1 ∷ u16 1 ∷ u16 1 ∷ u16 10 ∷ [])
    ∷ pxlcap
    ∷ (u16 2 ∷ u16 1 ∷ u16 1 ∷ u16 2 ∷ u16 1 ∷ u16 1 ∷ u16 1 ∷ u16 1 ∷ u16 6 ∷ [])
    ∷ (u16 4 ∷ u16 6 ∷ u16 2 ∷ u16 1 ∷ u16 3 ∷ [])
    ∷ (u32 4
        ∷ u32 1
        ∷ u32 1
        ∷ u32 1
        ∷ u32 1
        ∷ u32 1
        ∷ u32 1
        ∷ u32 1
        ∷ u32 1
        ∷ u32 2
        ∷ u32 4
        ∷ u32 2
        ∷ u32 1
        ∷ u32 1
        ∷ u32 2
        ∷ u32 8
        ∷ [])
    ∷ (u32 4 ∷ u32 1 ∷ u32 5 ∷ u32 1 ∷ u32 2 ∷ u32 2 ∷ u32 17 ∷ [])
    ∷ []

abbrev pub pci_ext_cap : List (List Member)
pci_ext_cap = (u16 16 ∷ u16 4 ∷ u16 12 ∷ []) ∷ []

-- OFFS_PCI_HDR, and so on; PCI_CFG_SPACE_SIZE is the PCI specification's.
abbrev pub offs_pci_hdr : ℕ
offs_pci_hdr = 0x0

abbrev pub offs_pci_pm_cap : ℕ
offs_pci_pm_cap = 0x40

abbrev pub offs_pci_msix_cap : ℕ
offs_pci_msix_cap = 0x50

abbrev pub offs_pcie_cap : ℕ
offs_pcie_cap = 0x60

abbrev pub pci_cfg_space_size : ℕ
pci_cfg_space_size = 0x100

abbrev pub offs_pci_ext_cap : ℕ
offs_pci_ext_cap = pci_cfg_space_size

-- Member `k` of part `g` of each struct, at its place in the page.
abbrev pub pcihdr : ℕ → ℕ → Field
pcihdr = field pci_header offs_pci_hdr

abbrev pub pmcap : ℕ → ℕ → Field
pmcap = field pci_pm_cap offs_pci_pm_cap

abbrev pub msixcap : ℕ → ℕ → Field
msixcap = field pci_msix_cap offs_pci_msix_cap

abbrev pub pciecap : ℕ → ℕ → Field
pciecap = field pcie_cap offs_pcie_cap

-- `at` is the place of `ext_cap` behind `ext_cap_base`.
abbrev pub extcap : ℕ → ℕ → Field
extcap at = field pci_ext_cap (offs_pci_ext_cap + at) 0
