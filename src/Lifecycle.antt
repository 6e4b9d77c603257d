-- ===== src/Lifecycle.antt =====
-- Loading and unloading the module: `vpcie_module_init` and `vpcie_module_exit` of main.c, with
-- `PCIEV_init` and `PCIEV_exit` of device.c, the parts of pci.c that they call, and `vpciedisk_init`
-- and `vpciedisk_exit` of block.c.
pub mod Balance
use praid.Common.{ℕ, Bool, true, false, Option, none, some, if◌then◌else◌, not}
use praid.Disks.{Refs, nvme_blkdev_init, nvme_blkdev_final}

-- What the module holds from the kernel: memory, mappings, the device thread and registrations.
pub record Held : Type 0 where
  pub praid_dev : Bool
  pub refs : Refs
  pub vdev : Bool
  pub virt_dev : Bool
  pub storage_mapped : Bool
  pub bar : Bool
  pub old_bar : Bool
  pub msix_table : Bool
  pub virt_bus : Bool
  pub verify_page : Bool
  pub dispatcher : Bool
  pub driver : Bool
  pub major : Bool
  pub gd : Bool

-- The kernel's answers while the module is loaded; true is success. `configs` is the result of
-- `__load_configs`. Allocations whose failure the code does not look at are taken to succeed.
pub record Answers : Type 0 where
  pub kzalloc : Bool
  pub configs : Bool
  pub opens : ℕ → Bool
  pub opens_verify : Bool
  pub memremap_storage : Bool
  pub pci_scan_bus : Bool
  pub memremap_bar : Bool
  pub kzalloc_old_bar : Bool
  pub pci_register_driver : Bool
  pub register_blkdev : Bool
  pub blk_alloc_disk : Bool
  pub queue : Bool
  pub add_disk : Bool

-- pci.c: VDEV_INIT and VDEV_FINALIZE, which leaves `old_bar` (its `kfree` is commented out).
unfoldable pub vdev_init : Held → Held
vdev_init h = record h { vdev = true; virt_dev = true }

unfoldable pub vdev_finalize : Held → Held
vdev_finalize h = record h { msix_table = false; bar = false; virt_dev = false; vdev = false }

-- device.c: PCIEV_STORAGE_INIT reports a failed mapping and goes on.
unfoldable pub pciev_storage_init : Answers → Held → Held
pciev_storage_init a h = record h { storage_mapped = a.memremap_storage }

unfoldable pub pciev_storage_final : Held → Held
pciev_storage_final h = record h { storage_mapped = false }

unfoldable pub pciev_dispatcher_init : Held → Held
pciev_dispatcher_init h = record h { verify_page = true; dispatcher = true }

unfoldable pub pciev_dispatcher_final : Held → Held
pciev_dispatcher_final h = record h { dispatcher = false; verify_page = false }

-- pci.c: the bus, and on it the one device with its BAR, the copy of it and the MSI-X table. Nothing
-- stands for a failed `BUG_ON`, from where the module goes no further.
unfoldable pub create_pci_bus : Answers → Held → Option (Bool × Held)
create_pci_bus a h =
    if not a.pci_scan_bus
    then some (false, h)
    else if not a.memremap_bar
    then none
    else if not a.kzalloc_old_bar
    then none
    else some (true, record h { virt_bus = true; bar = true; old_bar = true; msix_table = true })

-- The settings of the configuration space hold nothing, and are left out here.
unfoldable pub pciev_pci_init : Answers → Held → Option (Bool × Held)
unfolding create_pci_bus
pciev_pci_init a h = create_pci_bus a h

unfoldable pub start_device : Option (Bool × Held) → Option (Bool × Held)
unfolding vdev_finalize pciev_dispatcher_init
start_device none = none
start_device (some (false, h)) = some (false, vdev_finalize h)
start_device (some (true, h)) = some (true, pciev_dispatcher_init h)

unfoldable pub pciev_init : Answers → Held → Option (Bool × Held)
unfolding vdev_init pciev_storage_init pciev_pci_init start_device
pciev_init a h = start_device (pciev_pci_init a (pciev_storage_init a (vdev_init h)))

unfoldable pub pciev_exit : Held → Held
unfolding pciev_dispatcher_final pciev_storage_final vdev_finalize
pciev_exit h =
    vdev_finalize (pciev_storage_final (pciev_dispatcher_final (record h { virt_bus = false })))

-- block.c. A disk whose `add_disk` fails is deleted again, one without a queue is not.
unfoldable pub create_block_device : Answers → Held → Bool × Held
create_block_device a h =
    if not a.blk_alloc_disk
    then (false, h)
    else if not a.queue
    then (false, record h { gd = true })
    else if not a.add_disk
    then (false, record h { gd = false })
    else (true, record h { gd = true })

unfoldable pub delete_block_device : Held → Held
delete_block_device h = record h { gd = false }

unfoldable pub register_or_undo : Bool × Held → Bool × Held
register_or_undo (true, h) = (true, h)
register_or_undo (false, h) = (false, record h { major = false })

unfoldable pub vpciedisk_init : Answers → Held → Bool × Held
unfolding create_block_device register_or_undo
vpciedisk_init a h =
    if not a.register_blkdev
    then (false, h)
    else register_or_undo (create_block_device a (record h { major = true }))

unfoldable pub vpciedisk_exit : Held → Held
unfolding delete_block_device
vpciedisk_exit h = record (delete_block_device h) { major = false }

-- pciedrv.c.
unfoldable pub pcievdrv_init : Answers → Held → Bool × Held
pcievdrv_init a h = if a.pci_register_driver then (true, record h { driver = true }) else (false, h)

unfoldable pub pcievdrv_exit : Held → Held
pcievdrv_exit h = record h { driver = false }

unfoldable pub close_disks : ℕ → Held → Held
close_disks n h = record h { refs = nvme_blkdev_final n h.refs }

-- The labels of `vpcie_module_init`, the last first.
unfoldable pub out_pcievdrv_err : Held → Held
out_pcievdrv_err h = record h { praid_dev = false }

unfoldable pub out_nvme_err : ℕ → Held → Held
unfolding close_disks out_pcievdrv_err
out_nvme_err n h = out_pcievdrv_err (close_disks n h)

unfoldable pub out_device_err : ℕ → Held → Held
unfolding pciev_exit out_nvme_err
out_device_err n h = out_nvme_err n (pciev_exit h)

unfoldable pub out_vdisk_err : ℕ → Held → Held
unfolding pcievdrv_exit out_device_err
out_vdisk_err n h = out_device_err n (pcievdrv_exit h)

-- The stages of `vpcie_module_init`, each from the outcome of the one before.
unfoldable pub after_block : ℕ → Bool × Held → Bool × Held
unfolding out_vdisk_err
after_block n (true, h) = (true, h)
after_block n (false, h) = (false, out_vdisk_err n h)

unfoldable pub after_driver : ℕ → Answers → Bool × Held → Bool × Held
unfolding after_block vpciedisk_init out_device_err
after_driver n a (true, h) = after_block n (vpciedisk_init a h)
after_driver n a (false, h) = (false, out_device_err n h)

unfoldable pub after_device : ℕ → Answers → Option (Bool × Held) → Option (Bool × Held)
unfolding after_driver pcievdrv_init out_nvme_err
after_device n a none = none
after_device n a (some (true, h)) = some (after_driver n a (pcievdrv_init a h))
after_device n a (some (false, h)) = some (false, out_nvme_err n h)

unfoldable pub after_disks : ℕ → Answers → Held → Bool × Refs → Option (Bool × Held)
unfolding after_device pciev_init out_pcievdrv_err
after_disks n a h (true, r) = after_device n a (pciev_init a (record h { refs = r }))
after_disks n a h (false, r) = some (false, out_pcievdrv_err (record h { refs = r }))

-- `n` is the number of data disks in the configuration. The result false stands for a negative one.
unfoldable pub vpcie_module_init : ℕ → Answers → Held → Option (Bool × Held)
unfolding after_disks out_pcievdrv_err
vpcie_module_init n a h =
    if not a.kzalloc
    then some (false, h)
    else if not a.configs
    then some (false, out_pcievdrv_err (record h { praid_dev = true }))
    else after_disks n a (record h { praid_dev = true })
        (nvme_blkdev_init a.opens a.opens_verify n h.refs)

unfoldable pub vpcie_module_exit : ℕ → Held → Held
unfolding vpciedisk_exit pcievdrv_exit pciev_exit close_disks
vpcie_module_exit n h = record (close_disks n (pciev_exit (pcievdrv_exit (vpciedisk_exit h)))) {
  praid_dev = false;
}
