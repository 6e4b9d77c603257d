-- ===== src/Config/Laws.antt =====
-- Which parameters the module takes, and what it makes of them.
use praid.Common.{ℕ, zero, suc, ◌+◌, ◌-◌, ◌*◌, ◌%◌, ◌^◌, ◌≤◌, ◌<◌, ◌≡◌, ◌↔◌, refl, arith}
use praid.Common.{
  Bool, true, false, none, some, List, [], ◌∷◌, length, ltb, Bool-cases, inl, inr, ap₂, ◌∙◌,
}
use praid.Config.{
  Params, E820, Status, ok, eperm, einval, PraidConfig, validate_configs, load_minor, load_minors,
  load_valid, load_configs,
}

-- Each parameter is given, the memory for the device has more than 1 MiB and stands in the memory
-- map as reserved and not as RAM, and a disk has at least 512 MiB.
pub record IsValid (mapped : ℕ → ℕ → E820 → Bool) (p : Params) : Type 0 where
  pub start : 0 < p.memmap_start
  pub size : 2 ^ 20 < p.memmap_size
  pub cpu : 0 < p.cpu
  pub major : 0 < p.major
  pub disk : 2 ^ 29 ≤ p.per_size
  pub no_ram :
      mapped p.memmap_start ((p.memmap_start + p.memmap_size + 2 ^ 64 - 1) % 2 ^ 64) E820.ram
      ≡ false
  pub no_kern :
      mapped p.memmap_start
        ((p.memmap_start + p.memmap_size + 2 ^ 64 - 1) % 2 ^ 64)
        E820.reserved_kern
      ≡ false
  pub is_reserved :
      mapped p.memmap_start ((p.memmap_start + p.memmap_size + 2 ^ 64 - 1) % 2 ^ 64) E820.reserved
      ≡ true

-- `__validate_configs` takes the parameters exactly when each is given, the memory for the device
-- has more than 1 MiB and stands in the memory map as reserved and not as RAM, and a disk has at
-- least 512 MiB.
pub validate_configs_iff :
    (mapped : ℕ → ℕ → E820 → Bool) (p : Params)
    → (validate_configs mapped p ≡ ok) ↔ IsValid mapped p
unfolding validate_configs
validate_configs_iff mapped p = (λ h. ground arith, λ v. ground arith)

-- The disks that the loop has entered, read back from the array.
abbrev pub minors_of : PraidConfig → ℕ → ℕ → List ℕ
minors_of c i zero = []
minors_of c i (suc n) = c.nvme_minor i ∷ minors_of c (i + 1) n

load_minors-fits :
    (ds : List ℕ) (c : PraidConfig)
    → c.nr_nvme_disks + length ds ≤ 31
    → (c' : PraidConfig) × (load_minors false c ds ≡ some c')
      × (c'.nr_nvme_disks ≡ c.nr_nvme_disks + length ds)
      × (minors_of c' c.nr_nvme_disks (length ds) ≡ ds)
      × (c'.nvme_minor_verify ≡ c.nvme_minor_verify)
      × (c'.size_nvme_disk ≡ c.size_nvme_disk)
      × (c'.nvme_major ≡ c.nvme_major)
      × ((j : ℕ) → j < c.nr_nvme_disks → c'.nvme_minor j ≡ c.nvme_minor j)
unfolding load_minors
load_minors-fits [] c h = (c, refl, omega arith, refl, refl, refl, refl, λ j lt. refl)
load_minors-fits (d ∷ ds) c h =
    let (c', runs, count, listed, same_verify, same_size, same_major, kept) =
      load_minors-fits ds (load_minor false c d) (unfold load_minor in omega arith) in
    let few : ltb 31 (c.nr_nvme_disks + 1) ≡ false = ground arith in
    (
      c',
      rw (few, load_minors) runs,
      omega (arith, count),
      ap₂ ◌∷◌
          (kept c.nr_nvme_disks (unfold load_minor in omega arith)
            ∙ (unfold load_minor in ground arith))
          listed,
      same_verify,
      same_size,
      same_major,
      λ j lt. kept j (unfold load_minor in omega arith) ∙ (unfold load_minor in ground arith),
    )

load_minors-many :
    (ds : List ℕ) (c : PraidConfig)
    → c.nr_nvme_disks ≤ 31
    → 31 < c.nr_nvme_disks + length ds
    → load_minors false c ds ≡ none
unfolding load_minors
load_minors-many [] c h k = absurd (omega arith)
load_minors-many (d ∷ ds) c h k = elim (Bool-cases (ltb 31 (c.nr_nvme_disks + 1))) [
  | inl over ↦ rw (over, load_minors)
  | inr few ↦
      rw (few, load_minors)
        (load_minors-many ds (load_minor false c d) (unfold load_minor in ground arith)
          (unfold load_minor in omega arith))
]

-- The configuration that a list of minor numbers asks for: the first for the verify disk, the others
-- for the data disks, in order.
pub record Describes (p : Params) (verify : ℕ) (disks : List ℕ) (c : PraidConfig) : Type 0 where
  pub count : c.nr_nvme_disks ≡ length disks
  pub listed : minors_of c 0 (length disks) ≡ disks
  pub verify_minor : c.nvme_minor_verify ≡ verify
  pub disk_size : c.size_nvme_disk ≡ p.per_size
  pub major : c.nvme_major ≡ p.major

-- With valid parameters, a list of minor numbers and at most 31 data disks in it, the configuration
-- is loaded as the list says; the check of the room for the pages does not refuse it.
pub load_configs-Describes :
    (mapped : ℕ → ℕ → E820 → Bool) (p : Params) (config : PraidConfig) (verify : ℕ) (disks : List ℕ)
    → IsValid mapped p
    → p.minors ≡ verify ∷ disks
    → length disks ≤ 31
    → (c : PraidConfig) × (load_configs mapped p config ≡ some c) × Describes p verify disks c
unfolding load_configs
load_configs-Describes mapped p config verify disks v e few =
    let c₀ : PraidConfig = record config {
      nvme_major = p.major;
      size_nvme_disk = p.per_size;
      nr_nvme_disks = 0;
      nvme_minor_verify = verify;
    } in
    let (c, runs, count, listed, same_verify, same_size, same_major, _) =
      load_minors-fits disks c₀ (omega arith) in
    let roomy : ltb p.memmap_size ((c.nr_nvme_disks + 1) * 4096 + 4096) ≡ false =
      ground (arith, count, v.size) in
    (
      c,
      rw ((validate_configs_iff mapped p).1 v, e, runs, roomy, load_valid),
      record {
        count = omega (arith, count);
        listed = listed;
        verify_minor = same_verify;
        disk_size = same_size;
        major = same_major;
      },
    )

load_valid-many :
    (p : Params) (config : PraidConfig) (verify : ℕ) (disks : List ℕ)
    → p.minors ≡ verify ∷ disks
    → 31 < length disks
    → (st : Status) → load_valid p config st ≡ none
unfolding load_valid
load_valid-many p config verify disks e many ok = rw (
  e,
  load_minors-many disks
      (record config {
        nvme_major = p.major;
        size_nvme_disk = p.per_size;
        nr_nvme_disks = 0;
        nvme_minor_verify = verify;
      })
      (omega arith) (omega arith),
  load_valid,
)
load_valid-many p config verify disks e many eperm = refl
load_valid-many p config verify disks e many einval = refl

-- A list of minor numbers with more than 31 data disks behind the verify disk is refused.
pub load_configs-many :
    (mapped : ℕ → ℕ → E820 → Bool) (p : Params) (config : PraidConfig) (verify : ℕ) (disks : List ℕ)
    → p.minors ≡ verify ∷ disks
    → 31 < length disks
    → load_configs mapped p config ≡ none
unfolding load_configs
load_configs-many mapped p config verify disks e many =
    load_valid-many p config verify disks e many (validate_configs mapped p)
