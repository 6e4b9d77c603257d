-- ===== src/Tests/ProbeTests.antt =====
-- The driver meets a device at 5 GiB, and the size of an array of three disks.
use praid.Common.{
  ℕ, ◌+◌, ◌*◌, ◌%◌, ◌^◌, ◌≤◌, ◌<◌, ◌≡◌, ◌≢◌, ◌-◌, List, [], ◌∷◌, ◌↔◌, refl, sym, arith, true, false,
  none, some,
}
use praid.Config.{PraidConfig}
use praid.Geometry.Locate.{locate}
use praid.Block.Capacity.{capacity, IsInside, capacity_iff}
use praid.Pci.Found.{base_address-pci_settings}
use praid.Probe.{
  Mapping, Bound, PciAnswers, ok, take_irq, map_chunks, map_bar, take_regions, memremap,
  pcievdrv_probe, load_pciev_configs,
}
use praid.Probe.Balance.{IsWilling, pcievdrv_probe-IsUnbound}
use praid.Probe.Stages.{IsUnbound}
use praid.Probe.Shares.{IsRoomy, IsPlaced, pcievdrv_probe-shares}
use praid.Device.Irq.{MsiDesc}
use praid.Tests.DeviceTests.{blank}
use praid.Tests.ModuleTests.{setup, zeroed}

abbrev unbound : Bound
unbound = record {
  enabled = false;
  irq = 0;
  mem_sta = 0;
  range = 0;
  regions = false;
  bar = none;
  sem = 0;
  workqueue = false;
  chunk_addr = none;
  irq_taken = false;
  drvdata = false;
}

unbound-IsUnbound : IsUnbound false unbound
unbound-IsUnbound = record {
  enabled = refl;
  regions = refl;
  bar = refl;
  workqueue = refl;
  chunk_addr = refl;
  irq_taken = refl;
}

abbrev willing : PciAnswers
willing = record {
  enable_device = true;
  irq = 16;
  resource_start = 5 * 2 ^ 30;
  resource_end = 5 * 2 ^ 30 + 2 ^ 14 - 1;
  request_regions = true;
  memremap = λ start length. true;
  request_irq = 0;
}

willing-IsWilling : IsWilling willing
willing-IsWilling = record {
  enable_device = refl;
  irq = omega arith;
  request_regions = refl;
  maps_bar = refl;
  maps_chunks = refl;
  request_irq = refl;
}

-- The interrupt is taken: `-EBUSY`.
abbrev busy_irq : PciAnswers
busy_irq = record willing { request_irq = 16 }

busy_irq_err : (pcievdrv_probe busy_irq unbound).0 ≢ ok
unfolding pcievdrv_probe take_regions map_bar map_chunks take_irq memremap
busy_irq_err q = cc q

pcievdrv_probe-IsUnbound_example : IsUnbound true (pcievdrv_probe busy_irq unbound).1
pcievdrv_probe-IsUnbound_example =
    pcievdrv_probe-IsUnbound busy_irq unbound unbound-IsUnbound busy_irq_err

setup-IsRoomy : IsRoomy setup
setup-IsRoomy = record { ends = omega arith; aligned = refl; long = omega arith }

willing-IsPlaced : IsPlaced willing setup blank
willing-IsPlaced = record {
  found = sym (base_address-pci_settings (5 * 2 ^ 30) blank (omega arith) refl);
}

pcievdrv_probe-shares_example :
    let config = load_pciev_configs setup in
    (b' : Bound) × (bar : Mapping) × (chunks : Mapping) × (pcievdrv_probe willing unbound
      ≡ (ok, b'))
    × (b'.bar ≡ some bar)
    × (bar.start ≡ config.memmap_start)
    × (bar.start + bar.length ≤ config.storage_start)
    × (b'.chunk_addr ≡ some chunks)
    × (chunks.start ≡ config.storage_start)
    × (chunks.start + chunks.length ≤ config.storage_start + config.storage_size)
pcievdrv_probe-shares_example =
    pcievdrv_probe-shares willing setup blank unbound willing-IsWilling setup-IsRoomy
      willing-IsPlaced

abbrev three_disks : PraidConfig
three_disks = record zeroed { nr_nvme_disks = 3; size_nvme_disk = 2 ^ 29 }

capacity_iff_example :
    ((s : ℕ) → s < capacity three_disks 3 → IsInside 3 (2 ^ 29) (locate 3 s)) ↔ (2 ^ 29 % 4096 ≡ 0)
capacity_iff_example = capacity_iff three_disks 3 (omega arith) refl (omega arith)

-- Two entries, and an interrupt for a third one.
abbrev entries : List MsiDesc
entries = record { entry_nr = 0; irq = 30 } ∷ record { entry_nr = 1; irq = 31 } ∷ []
