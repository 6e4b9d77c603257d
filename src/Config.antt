-- ===== src/Config.antt =====
-- main.c: the module's parameters, `__validate_configs` and `__load_configs`.
pub mod Laws
use praid.Common.{
  ℕ, zero, suc, ◌+◌, ◌-◌, ◌*◌, ◌%◌, ◌^◌, Bool, true, false, Option, none, some, List, [], ◌∷◌,
}
use praid.Common.{ltb, leb, ◌==◌, if◌then◌else◌, ◌||◌, not}
use praid.Geometry.{chunk_size, megabytes}
use praid.Pciedrv.{page_size}

-- The module parameters. `minors` is the numbers that `simple_strtol` gives for the pieces
-- between the commas.
pub record Params : Type 0 where
  pub memmap_start : ℕ
  pub memmap_size : ℕ
  pub cpu : ℕ
  pub major : ℕ
  pub per_size : ℕ
  pub minors : List ℕ

-- The memory types that `e820__mapped_any` is asked for.
pub data E820 : Type 0 where
  ram reserved_kern reserved : E820

-- 0, -EPERM and -EINVAL.
pub data Status : Type 0 where
  ok eperm einval : Status

pub record PraidConfig : Type 0 where
  pub nr_nvme_disks : ℕ
  pub size_nvme_disk : ℕ
  pub nvme_major : ℕ
  pub nvme_minor_verify : ℕ
  pub nvme_minor : ℕ → ℕ

-- `mapped start end type`, both ends inside, is the kernel's memory map.
module _ (mapped : ℕ → ℕ → E820 → Bool) where
  -- On x86; elsewhere the answer is -EPERM.
  unfoldable pub validate_configs_arch : Params → Status
  validate_configs_arch p =
      let resv_end_bytes = (p.memmap_start + p.memmap_size + 2 ^ 64 - 1) % 2 ^ 64 in
      if mapped p.memmap_start resv_end_bytes E820.ram
        || mapped p.memmap_start resv_end_bytes E820.reserved_kern
      then eperm
      else if not (mapped p.memmap_start resv_end_bytes E820.reserved)
      then eperm
      else ok

  -- A result of the checks for the architecture becomes -EPERM, and stops the checks.
  unfoldable pub validate_disks : Params → Status → Status
  validate_disks p eperm = eperm
  validate_disks p einval = eperm
  validate_disks p ok =
      if p.major == 0 then einval else if ltb p.per_size (megabytes 512) then einval else ok

  unfoldable pub validate_configs : Params → Status
  unfolding validate_configs_arch validate_disks
  validate_configs p =
      if p.memmap_start == 0
      then einval
      else if p.memmap_size == 0
      then einval
      else if leb p.memmap_size (megabytes 1)
      then einval
      else if p.cpu == 0
      then einval
      else validate_disks p (validate_configs_arch p)

-- A write to `nvme_minor[i]`.
abbrev pub put : (ℕ → ℕ) → ℕ → ℕ → ℕ → ℕ
put f i v j = if i == j then v else f j

-- The body of the `while` loop on one piece.
unfoldable pub load_minor : Bool → PraidConfig → ℕ → PraidConfig
load_minor true c minor_nr = record c { nvme_minor_verify = minor_nr }
load_minor false c minor_nr = record c {
  nvme_minor = put c.nvme_minor c.nr_nvme_disks minor_nr;
  nr_nvme_disks = c.nr_nvme_disks + 1;
}

-- The loop; `none` is the return of false on too many disks.
unfoldable pub load_minors : Bool → PraidConfig → List ℕ → Option PraidConfig
unfolding load_minor
load_minors first c [] = some c
load_minors first c (minor_nr ∷ rest) =
    let c' = load_minor first c minor_nr in
    elim (ltb 31 c'.nr_nvme_disks) [ true ↦ none | false ↦ load_minors false c' rest ]

-- The last check, of the room for the pages.
unfoldable pub check_space : Params → Option PraidConfig → Option PraidConfig
check_space p none = none
check_space p (some c) =
    if ltb p.memmap_size ((c.nr_nvme_disks + 1) * chunk_size + page_size) then none else some c

-- From a valid set of parameters; `config` is the zeroed structure.
unfoldable pub load_valid : Params → PraidConfig → Status → Option PraidConfig
unfolding load_minors check_space
load_valid p config ok = check_space p (
    load_minors true
      (record config { nvme_major = p.major; size_nvme_disk = p.per_size; nr_nvme_disks = 0 })
      p.minors)
load_valid p config eperm = none
load_valid p config einval = none

unfoldable pub load_configs : (ℕ → ℕ → E820 → Bool) → Params → PraidConfig → Option PraidConfig
unfolding validate_configs load_valid
load_configs mapped p config = load_valid p config (validate_configs mapped p)
