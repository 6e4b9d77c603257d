-- ===== src/Lifecycle/Balance.antt =====
-- What loading and unloading leave behind.
use praid.Common.{ℕ, ◌≡◌, refl, Bool, true, false, Option, none, some, ◌⊎◌, Bool-cases, inl, inr}
use praid.Disks.{Refs, nvme_blkdev_init, nvme_blkdev_final}
use praid.Disks.Balance.{IsOpen, Same, Opened, nvme_blkdev_init-Opened, nvme_blkdev_final-Same}
use praid.Lifecycle.{
  Held, Answers, after_disks, after_device, vpcie_module_init, out_device_err, vpcie_module_exit,
}

-- The module is not loaded: it holds nothing, and the disks are open as often as in `refs`. Three
-- things may stay behind: the mapping of the storage, the copy of the BAR and the disk of the array.
pub record IsUnloaded (refs : Refs) (storage old_bar gd : Bool) (h : Held) : Type 0 where
  pub praid_dev : h.praid_dev ≡ false
  pub disks : Same refs h.refs
  pub vdev : h.vdev ≡ false
  pub virt_dev : h.virt_dev ≡ false
  pub storage_mapped : h.storage_mapped ≡ storage
  pub bar : h.bar ≡ false
  pub old_copy : h.old_bar ≡ old_bar
  pub msix_table : h.msix_table ≡ false
  pub virt_bus : h.virt_bus ≡ false
  pub verify_page : h.verify_page ≡ false
  pub dispatcher : h.dispatcher ≡ false
  pub driver : h.driver ≡ false
  pub major : h.major ≡ false
  pub disk : h.gd ≡ gd

-- The module is loaded, with `storage` telling whether its storage is mapped.
pub record IsLoaded (n : ℕ) (refs : Refs) (storage : Bool) (h : Held) : Type 0 where
  pub praid_dev : h.praid_dev ≡ true
  pub disks : IsOpen n refs h.refs
  pub storage_mapped : h.storage_mapped ≡ storage
  pub old_bar : h.old_bar ≡ true
  pub dispatcher : h.dispatcher ≡ true
  pub driver : h.driver ≡ true
  pub major : h.major ≡ true
  pub gd : h.gd ≡ true

-- What a module of a machine at rest holds.
abbrev pub nothing : Refs → Held
nothing r = record {
  praid_dev = false;
  refs = r;
  vdev = false;
  virt_dev = false;
  storage_mapped = false;
  bar = false;
  old_bar = false;
  msix_table = false;
  virt_bus = false;
  verify_page = false;
  dispatcher = false;
  driver = false;
  major = false;
  gd = false;
}

-- Unloading a loaded module gives everything back but the copy of the BAR.
pub vpcie_module_exit-IsUnloaded :
    (n : ℕ) (refs : Refs) (storage : Bool) (h : Held)
    → IsLoaded n refs storage h
    → IsUnloaded refs false true false (vpcie_module_exit n h)
unfolding vpcie_module_exit
vpcie_module_exit-IsUnloaded n refs storage h l = record {
  praid_dev = refl;
  disks = nvme_blkdev_final-Same n refs h.refs l.disks;
  vdev = refl;
  virt_dev = refl;
  storage_mapped = refl;
  bar = refl;
  old_copy = l.old_bar;
  msix_table = refl;
  virt_bus = refl;
  verify_page = refl;
  dispatcher = refl;
  driver = refl;
  major = refl;
  disk = refl;
}

-- The outcome of loading: a failed `BUG_ON`, a loaded module, or nothing held but what the exits
-- forget. The mapping of the storage is forgotten where the bus cannot be made, the copy of the BAR
-- where it was made, and the disk of the array where it has no queue.
abbrev pub Outcome : ℕ → Answers → Refs → Option (Bool × Held) → Type 0
Outcome n a r none =
    (a.pci_scan_bus ≡ true) × ((a.memremap_bar ≡ false) ⊎ (a.kzalloc_old_bar ≡ false))
Outcome n a r (some (true, h)) =
    IsLoaded n r a.memremap_storage h
    × (a.pci_scan_bus ≡ true)
    × (a.memremap_bar ≡ true)
    × (a.kzalloc_old_bar ≡ true)
    × (a.queue ≡ true)
Outcome n a r (some (false, h)) =
    (storage : Bool) × (old_bar : Bool) × (gd : Bool) × IsUnloaded r storage old_bar gd h
    × ((gd ≡ true) → (a.blk_alloc_disk ≡ true) × (a.queue ≡ false))
    × ((storage ≡ true) → (a.pci_scan_bus ≡ false) × (a.memremap_storage ≡ true))
    × ((old_bar ≡ true) → a.pci_scan_bus ≡ true)

module _ (n : ℕ) (r : Refs) where
  -- The exits behind the label out_device_err, from a state in which the driver is not registered.
  unwound :
      (h : Held)
      → IsOpen n r h.refs
      → h.old_bar ≡ true
      → h.driver ≡ false
      → h.major ≡ false
      → {gd : Bool} → h.gd ≡ gd
      → IsUnloaded r false true gd (out_device_err n h)
  unfolding out_device_err
  unwound h opened copy e₁ e₂ {gd} e₃ = record {
    praid_dev = refl;
    disks = nvme_blkdev_final-Same n r h.refs opened;
    vdev = refl;
    virt_dev = refl;
    storage_mapped = refl;
    bar = refl;
    old_copy = copy;
    msix_table = refl;
    virt_bus = refl;
    verify_page = refl;
    dispatcher = refl;
    driver = e₁;
    major = e₂;
    disk = e₃;
  }

  -- The state after `pciev_init` has succeeded.
  abbrev running_device : Answers → Refs → Held
  running_device a r' = record (nothing r') {
    praid_dev = true;
    vdev = true;
    virt_dev = true;
    storage_mapped = a.memremap_storage;
    bar = true;
    old_bar = true;
    msix_table = true;
    virt_bus = true;
    verify_page = true;
    dispatcher = true;
  }

module _ (n : ℕ) (a : Answers) (r : Refs) where
  forgets_nothing : (h : Held) → IsUnloaded r false false false h → Outcome n a r (some (false, h))
  forgets_nothing h u = (false, false, false, u, λ q. cc, λ q. cc, λ q. cc)

  after_device-Outcome :
      (r' : Refs)
      → IsOpen n r r'
      → a.pci_scan_bus ≡ true
      → a.memremap_bar ≡ true
      → a.kzalloc_old_bar ≡ true
      → Outcome n a r (after_device n a (some (true, running_device n r a r')))
  unfolding after_device
  after_device-Outcome r' opened e bar old_bar = elim (Bool-cases a.pci_register_driver) [
    | inr no_driver ↦
        simp (no_driver, after_device)
          (
            false,
            true,
            false,
            unwound n r (running_device n r a r') opened refl refl refl refl,
            λ q. cc,
            λ q. cc,
            λ _. e,
          )
    | inl driver ↦ elim (Bool-cases a.register_blkdev) [
      | inr no_major ↦
          simp (driver, no_major, after_device)
            (
              false,
              true,
              false,
              unwound n r (running_device n r a r') opened refl refl refl refl,
              λ q. cc,
              λ q. cc,
              λ _. e,
            )
      | inl major ↦ elim (Bool-cases a.blk_alloc_disk) [
        | inr no_disk ↦
            simp (driver, major, no_disk, after_device)
              (
                false,
                true,
                false,
                unwound n r (running_device n r a r') opened refl refl refl refl,
                λ q. cc,
                λ q. cc,
                λ _. e,
              )
        | inl disk ↦ elim (Bool-cases a.queue) [
          | inr no_queue ↦
              simp (driver, major, disk, no_queue, after_device)
                (
                  false,
                  true,
                  true,
                  unwound n r (record (running_device n r a r') { gd = true }) opened refl refl refl
                      refl,
                  λ _. (refl, refl),
                  λ q. cc,
                  λ _. e,
                )
          | inl queue ↦ elim (Bool-cases a.add_disk) [
            | inr not_added ↦
                simp (driver, major, disk, queue, not_added, after_device)
                  (
                    false,
                    true,
                    false,
                    unwound n r (running_device n r a r') opened refl refl refl refl,
                    λ q. cc,
                    λ q. cc,
                    λ _. e,
                  )
            | inl added ↦
                simp (driver, major, disk, queue, added, after_device)
                  (
                    (record {
                      praid_dev = refl;
                      disks = opened;
                      storage_mapped = refl;
                      old_bar = refl;
                      dispatcher = refl;
                      driver = refl;
                      major = refl;
                      gd = refl;
                    }),
                    e,
                    bar,
                    old_bar,
                    refl,
                  )
          ]
        ]
      ]
    ]
  ]

  idle : {r' : Refs} → Same r r' → IsUnloaded r false false false (nothing r')
  idle same = record {
    praid_dev = refl;
    disks = same;
    vdev = refl;
    virt_dev = refl;
    storage_mapped = refl;
    bar = refl;
    old_copy = refl;
    msix_table = refl;
    virt_bus = refl;
    verify_page = refl;
    dispatcher = refl;
    driver = refl;
    major = refl;
    disk = refl;
  }

  closed :
      {r' : Refs}
      → IsOpen n r r'
      → IsUnloaded r a.memremap_storage false false
          (record (nothing (nvme_blkdev_final n r')) { storage_mapped = a.memremap_storage })
  closed {r'} opened = record {
    praid_dev = refl;
    disks = nvme_blkdev_final-Same n r r' opened;
    vdev = refl;
    virt_dev = refl;
    storage_mapped = refl;
    bar = refl;
    old_copy = refl;
    msix_table = refl;
    virt_bus = refl;
    verify_page = refl;
    dispatcher = refl;
    driver = refl;
    major = refl;
    disk = refl;
  }

  after_disks-Outcome :
      (o : Bool × Refs)
      → Opened n r o
      → Outcome n a r (after_disks n a (record (nothing r) { praid_dev = true }) o)
  unfolding after_disks
  after_disks-Outcome (false, r') same = forgets_nothing _ (idle same)
  after_disks-Outcome (true, r') opened = elim (Bool-cases a.pci_scan_bus) [
    | inl bus ↦ elim (Bool-cases a.memremap_bar) [
      | inr no_bar ↦ simp (bus, no_bar, after_disks) (refl, inl refl)
      | inl bar ↦ elim (Bool-cases a.kzalloc_old_bar) [
        | inr no_copy ↦ simp (bus, bar, no_copy, after_disks) (refl, inr refl)
        | inl copy ↦
            simp (bus, bar, copy, after_disks) (after_device-Outcome r' opened bus bar copy)
      ]
    ]
    | inr no_bus ↦
        simp (no_bus, after_disks)
          (a.memremap_storage, false, false, closed opened, λ q. cc, λ q. (refl, q), λ q. cc)
  ]

  -- Loading, from nothing held, has one of three outcomes. It stops at a failed `BUG_ON`, only where
  -- the bus is made, but the BAR cannot be mapped or its copy not be allocated. It loads the module,
  -- only where none of this fails and the disk of the array has a queue. Or it gives everything
  -- back, the disks included, but for the mapping of the storage, only where the bus cannot be made,
  -- the copy of the BAR, only where the bus can be made, and the disk of the array, only where it
  -- has no queue.
  pub vpcie_module_init-Outcome : Outcome n a r (vpcie_module_init n a (nothing r))
  unfolding vpcie_module_init
  vpcie_module_init-Outcome = elim (Bool-cases a.kzalloc) [
    | inr no_memory ↦
        simp (no_memory, vpcie_module_init) (forgets_nothing _ (idle (refl, λ j. refl)))
    | inl memory ↦ elim (Bool-cases a.configs) [
      | inr no_configs ↦
          simp (memory, no_configs, vpcie_module_init) (forgets_nothing _ (idle (refl, λ j. refl)))
      | inl configs ↦
          simp (memory, configs, vpcie_module_init)
            (after_disks-Outcome (nvme_blkdev_init a.opens a.opens_verify n r)
              (nvme_blkdev_init-Opened a.opens a.opens_verify n r))
    ]
  ]
