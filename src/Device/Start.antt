-- ===== src/Device/Start.antt =====
-- pci.c, `__init_pciev_bar` and the copy of the BAR in `__create_pci_bus`: the device as it is when
-- its dispatcher starts.
use praid.Common.{ℕ, false}
use praid.Device.Word.{Memory}
use praid.Device.Dispatcher.{PcievBar, PcievDev}

-- The page of the BAR is cleared, and the number of disks is put there.
unfoldable pub init_pciev_bar : ℕ → PcievBar
init_pciev_bar cnt_disk = record {
  dev_cnt = cnt_disk;
  offset = 0;
  size = 0;
  sector_sta = 0;
  io_num = 0;
  io_done = 0;
}

-- `kzalloc` clears the rest of the device. The mapped storage is not cleared.
unfoldable pub started_device : ℕ → (storage_mapped verify_blk : Memory) → PcievDev
unfolding init_pciev_bar
started_device cnt_disk storage_mapped verify_blk = record {
  bar = init_pciev_bar cnt_disk;
  old_bar = init_pciev_bar cnt_disk;
  storage_mapped = storage_mapped;
  verify_blk = verify_blk;
  msix_enabled = false;
  sts_is = 0;
  irqs = 0;
}
