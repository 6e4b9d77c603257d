-- ===== src/Tests/ModuleTests.antt =====
-- Loading the module as setup.sh does, with 512 MiB disks and the minor numbers 0, 1, 2 and 3.
use praid.Common.{ℕ, ◌≡◌, ◌↔◌, refl, arith, Bool, true, false, some, [], ◌∷◌}
use praid.Common.{if◌then◌else◌, ltb, ◌^◌, ◌*◌}
use praid.Config.{Params, E820, ok, PraidConfig, validate_configs, load_configs}
use praid.Config.Laws.{IsValid, validate_configs_iff, Describes, load_configs-Describes}
use praid.Disks.{Refs}
use praid.Disks.Balance.{IsOpen}
use praid.Lifecycle.{Held, Answers, vpcie_module_init, vpcie_module_exit}
use praid.Lifecycle.Balance.{
  IsLoaded, IsUnloaded, nothing, Outcome, vpcie_module_init-Outcome, vpcie_module_exit-IsUnloaded,
}

-- The memory from 5 GiB to 6 GiB is reserved.
abbrev memory_map : ℕ → ℕ → E820 → Bool
memory_map lo hi E820.reserved = true
memory_map lo hi E820.ram = false
memory_map lo hi E820.reserved_kern = false

abbrev pub setup : Params
setup = record {
  memmap_start = 5 * 2 ^ 30;
  memmap_size = 2 ^ 30;
  cpu = 3;
  major = 259;
  per_size = 2 ^ 29;
  minors = 0 ∷ 1 ∷ 2 ∷ 3 ∷ [];
}

abbrev pub zeroed : PraidConfig
zeroed = record {
  nr_nvme_disks = 0;
  size_nvme_disk = 0;
  nvme_major = 0;
  nvme_minor_verify = 0;
  nvme_minor = λ _. 0;
}

setup-IsValid : IsValid memory_map setup
setup-IsValid = record {
  start = omega arith;
  size = omega arith;
  cpu = omega arith;
  major = omega arith;
  disk = omega arith;
  no_ram = refl;
  no_kern = refl;
  is_reserved = refl;
}

validate_configs_iff_example : (validate_configs memory_map setup ≡ ok) ↔ IsValid memory_map setup
validate_configs_iff_example = validate_configs_iff memory_map setup

load_configs-Describes_example :
    (c : PraidConfig) × (load_configs memory_map setup zeroed ≡ some c)
    × Describes setup 0 (1 ∷ 2 ∷ 3 ∷ []) c
load_configs-Describes_example =
    load_configs-Describes memory_map setup zeroed 0 (1 ∷ 2 ∷ 3 ∷ []) setup-IsValid refl
      (omega arith)

abbrev closed : Refs
closed = record { verify = 0; nvme = λ _. 0 }

abbrev opened : Refs
opened = record { verify = 1; nvme = λ j. if ltb j 3 then 1 else 0 }

opened-IsOpen : IsOpen 3 closed opened
opened-IsOpen = record { verify = refl; nvme = λ j. ground arith }

abbrev no_bus : Answers
no_bus = record {
  kzalloc = true;
  configs = true;
  opens = λ _. true;
  opens_verify = true;
  memremap_storage = true;
  pci_scan_bus = false;
  memremap_bar = true;
  kzalloc_old_bar = true;
  pci_register_driver = true;
  register_blkdev = true;
  blk_alloc_disk = true;
  queue = true;
  add_disk = true;
}

vpcie_module_init-Outcome_example :
    Outcome 3 no_bus closed (vpcie_module_init 3 no_bus (nothing closed))
vpcie_module_init-Outcome_example = vpcie_module_init-Outcome 3 no_bus closed

abbrev loaded : Held
loaded = record {
  praid_dev = true;
  refs = opened;
  vdev = true;
  virt_dev = true;
  storage_mapped = true;
  bar = true;
  old_bar = true;
  msix_table = true;
  virt_bus = true;
  verify_page = true;
  dispatcher = true;
  driver = true;
  major = true;
  gd = true;
}

loaded-IsLoaded : IsLoaded 3 closed true loaded
loaded-IsLoaded = record {
  praid_dev = refl;
  disks = opened-IsOpen;
  storage_mapped = refl;
  old_bar = refl;
  dispatcher = refl;
  driver = refl;
  major = refl;
  gd = refl;
}

vpcie_module_exit-IsUnloaded_example :
    IsUnloaded closed false true false (vpcie_module_exit 3 loaded)
vpcie_module_exit-IsUnloaded_example =
    vpcie_module_exit-IsUnloaded 3 closed true loaded loaded-IsLoaded
