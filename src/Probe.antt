-- ===== src/Probe.antt =====
-- pciedrv.c, `pcievdrv_probe` and `pcievdrv_remove`, by what the driver holds of its PCI device, with
-- the addresses that it maps; and device.c, `__load_configs`, with the addresses that the device
-- maps. A field that holds a mapping is empty once it is given back, where the code leaves a pointer,
-- which later calls may follow, since a failed probe does not fail the registration. `pcievdrv_get_configs` is in Probe/Ids.
pub mod Stages
pub mod Balance
pub mod Shares
pub mod Ids
use praid.Common.{
  ℕ, ◌+◌, ◌-◌, ◌*◌, ◌%◌, ◌^◌, Bool, true, false, Option, none, some, not, leb, ◌==◌, if◌then◌else◌,
}
use praid.Config.{Params}
use praid.Geometry.{chunk_size, bar_chunk_offset}
use praid.Pciedrv.{page_size}

-- A mapping by `memremap`: its address and its length.
pub record Mapping : Type 0 where
  pub start : ℕ
  pub length : ℕ

-- `irq_taken` and `drvdata` are what `request_irq` and `pci_set_drvdata` leave with the kernel.
pub record Bound : Type 0 where
  pub enabled : Bool
  pub irq : ℕ
  pub mem_sta : ℕ
  pub range : ℕ
  pub regions : Bool
  pub bar : Option Mapping
  pub sem : ℕ
  pub workqueue : Bool
  pub chunk_addr : Option Mapping
  pub irq_taken : Bool
  pub drvdata : Bool

-- The kernel's answers; `request_irq` gives the error, 0 for none, and the others tell whether they
-- succeed.
pub record PciAnswers : Type 0 where
  pub enable_device : Bool
  pub irq : ℕ
  pub resource_start : ℕ
  pub resource_end : ℕ
  pub request_regions : Bool
  pub memremap : ℕ → ℕ → Bool
  pub request_irq : ℕ

-- 0, -EIO, -EINVAL, -ENOMEM, and the error of `request_irq`.
pub data ProbeRet : Type 0 where
  ok eio einval enomem : ProbeRet
  irq_error : (err : ℕ) → ProbeRet

-- An `int` below 0, as the bits of 32 digits.
abbrev negative : ℕ → Bool
negative irq = leb (2 ^ 31) irq

unfoldable pub memremap : PciAnswers → ℕ → ℕ → Option Mapping
memremap k start length =
    if k.memremap start length then some (record { start = start; length = length }) else none

-- The labels of `pcievdrv_probe`, the last first; `out_final` does nothing.
unfoldable pub out_regions : Bound → Bound
out_regions b = record b { regions = false }

unfoldable pub out_memunmap_bar : Bound → Bound
unfolding out_regions
out_memunmap_bar b = out_regions (record b { bar = none; workqueue = false })

unfoldable pub out_memunmap_sto : Bound → Bound
unfolding out_memunmap_bar
out_memunmap_sto b = out_memunmap_bar (record b { chunk_addr = none })

-- From `request_irq` on.
unfoldable pub take_irq : PciAnswers → Bound → ProbeRet × Bound
unfolding out_memunmap_sto
take_irq k b =
    if not (k.request_irq == 0)
    then (ProbeRet.irq_error k.request_irq, out_memunmap_sto b)
    else (ProbeRet.ok, record b { irq_taken = true; drvdata = true })

-- From the address of the three chunks on.
unfoldable pub map_chunks : PciAnswers → Bound → ProbeRet × Bound
unfolding memremap take_irq out_memunmap_bar
map_chunks k b =
    let b' : Bound = record b { sem = 1; workqueue = true } in
    elim (memremap k ((b.mem_sta + bar_chunk_offset) % 2 ^ 64) (3 * chunk_size)) [
      | none ↦ (ProbeRet.enomem, out_memunmap_bar (record b' { chunk_addr = none }))
      | some m ↦ take_irq k (record b' { chunk_addr = some m })
    ]

-- From `memremap` of the BAR on.
unfoldable pub map_bar : PciAnswers → Bound → ProbeRet × Bound
unfolding memremap map_chunks out_regions
map_bar k b = elim (memremap k b.mem_sta page_size) [
  | none ↦ (ProbeRet.enomem, out_regions (record b { bar = none }))
  | some m ↦ map_chunks k (record b { bar = some m })
]

-- From `pci_request_regions` on.
unfoldable pub take_regions : PciAnswers → Bound → ProbeRet × Bound
unfolding map_bar
take_regions k b =
    if not k.request_regions then (ProbeRet.einval, b) else map_bar k (record b { regions = true })

unfoldable pub pcievdrv_probe : PciAnswers → Bound → ProbeRet × Bound
unfolding take_regions
pcievdrv_probe k b =
    if not k.enable_device
    then (ProbeRet.eio, b)
    else if negative k.irq
    then (ProbeRet.einval, record b { enabled = true; irq = k.irq })
    else take_regions k (record b {
      enabled = true;
      irq = k.irq;
      mem_sta = k.resource_start;
      range = (k.resource_end + 2 ^ 64 - k.resource_start + 1) % 2 ^ 64;
    })

unfoldable pub pcievdrv_remove : Bound → Bound
pcievdrv_remove b = record b {
  irq_taken = false;
  chunk_addr = none;
  bar = none;
  workqueue = false;
  regions = false;
  enabled = false;
}

-- `struct pciev_config`, without the number of disks, which `PCIEV_init` adds.
pub record PcievConfig : Type 0 where
  pub memmap_start : ℕ
  pub memmap_size : ℕ
  pub storage_start : ℕ
  pub storage_size : ℕ
  pub cpu_nr_dispatcher : ℕ

-- device.c, `__load_configs`, which never fails. The parameters are those of main.c.
unfoldable pub load_pciev_configs : Params → PcievConfig
load_pciev_configs p = record {
  memmap_start = p.memmap_start;
  memmap_size = p.memmap_size;
  storage_start = (p.memmap_start + bar_chunk_offset) % 2 ^ 64;
  storage_size = (p.memmap_size + 2 ^ 64 - bar_chunk_offset) % 2 ^ 64;
  cpu_nr_dispatcher = p.cpu;
}
