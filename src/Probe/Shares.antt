-- ===== src/Probe/Shares.antt =====
-- The driver's mapping of the chunks is part of the device's mapping of its storage.
use praid.Common.{◌+◌, ◌*◌, ◌%◌, ◌^◌, ◌≤◌, ◌<◌, ◌≡◌, ◌∙◌, arith, some}
use praid.Geometry.{bar_chunk_offset}
use praid.Config.{Params}
use praid.Device.Word.{Memory}
use praid.Pci.Field.{get_field}
use praid.Pci.Settings.{pci_settings}
use praid.Pci.Found.{digits_at, base_address-pci_settings}
use praid.Probe.{Mapping, Bound, PciAnswers, ok, pcievdrv_probe, load_pciev_configs}
use praid.Probe.Balance.{IsWilling, pcievdrv_probe-IsBound}

-- The kernel finds the address of the BAR in the configuration space that `PCIEV_PCI_INIT` filled
-- for the parameters, over a page `page`, and leaves the BAR there.
pub record IsPlaced (k : PciAnswers) (p : Params) (page : Memory) : Type 0 where
  pub found :
      k.resource_start
      ≡ get_field (digits_at 0x10 14 18) (pci_settings p.memmap_start page) * 2 ^ 14
        + get_field (digits_at 0x14 0 32) (pci_settings p.memmap_start page) * 2 ^ 32

-- Memory for the device that ends below 2 ^ 64, starts at a multiple of 16 KiB and is long enough
-- for the three chunks behind the first 1 MiB.
pub record IsRoomy (p : Params) : Type 0 where
  pub ends : p.memmap_start + p.memmap_size < 2 ^ 64
  pub aligned : p.memmap_start % 2 ^ 14 ≡ 0
  pub long : 2 ^ 20 + 3 * 4096 ≤ p.memmap_size

-- Where the memory of the device ends below 2 ^ 64, starts at a multiple of 16 KiB and has 1 MiB and
-- three chunks at least, the kernel takes the address of the BAR from the configuration space, and
-- every answer of the kernel is a success: `pcievdrv_probe` returns 0; the driver's BAR starts at
-- the memory of the device and ends in front of the device's storage; and the driver's chunks start
-- where the device's storage starts and end inside it.
pub pcievdrv_probe-shares :
    (k : PciAnswers) (p : Params) (page : Memory) (b : Bound)
    → IsWilling k
    → IsRoomy p
    → IsPlaced k p page
    → let config = load_pciev_configs p in
      (b' : Bound) × (bar : Mapping) × (chunks : Mapping) × (pcievdrv_probe k b ≡ (ok, b'))
      × (b'.bar ≡ some bar)
      × (bar.start ≡ config.memmap_start)
      × (bar.start + bar.length ≤ config.storage_start)
      × (b'.chunk_addr ≡ some chunks)
      × (chunks.start ≡ config.storage_start)
      × (chunks.start + chunks.length ≤ config.storage_start + config.storage_size)
unfolding load_pciev_configs
pcievdrv_probe-shares k p page b w roomy placed =
    let at : k.resource_start ≡ p.memmap_start =
      placed.found
      ∙ base_address-pci_settings p.memmap_start page (omega (arith, roomy.ends)) roomy.aligned in
    let (b', runs, bound, _) = pcievdrv_probe-IsBound k b w in
    (
      b',
      record { start = k.resource_start; length = 4096 },
      record { start = (k.resource_start + bar_chunk_offset) % 2 ^ 64; length = 3 * 4096 },
      runs,
      bound.bar,
      at,
      omega (arith, at, roomy.ends, roomy.long),
      bound.chunk_addr,
      omega (arith, at),
      omega (arith, at, roomy.ends, roomy.long),
    )
