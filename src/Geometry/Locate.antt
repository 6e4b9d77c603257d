-- ===== src/Geometry/Locate.antt =====
-- Where block.h sends a sector of the array, and back: which data disk, and which of its sectors.
use praid.Common.{ℕ, ◌+◌, ◌*◌, ◌/◌, ◌%◌, ◌≤◌, ◌<◌, ◌≡◌, arith}
use praid.Common.Bits.{bit_and_seven}
use praid.Geometry.{chunk_num, device_num, sector_whole_to_i, chunk_end_sector}
use native.Mathlib.Nat.{mod-lt, mul-add-div, mul-add-mod_self_left, div-eq_of_lt}
use native.Mathlib.Nat.{mod-eq_of_lt, div-lt_iff_lt-mul, div-add-mod', mul_comm, zero-mul}

-- A sector's place on the lower disks.
pub record Place : Type 0 where
  pub dev : ℕ
  pub sector : ℕ

-- The place that `vpciedisk_submit_bio` computes for a sector.
unfoldable pub locate : ℕ → ℕ → Place
locate n s = record { dev = device_num (chunk_num s) n; sector = sector_whole_to_i s n }

-- The sector of the array that lies at a place.
unfoldable pub array_sector : ℕ → Place → ℕ
array_sector n p = (p.sector / 8 * n + p.dev) * 8 + p.sector % 8

pub sector_whole_to_i_lem : (s n : ℕ) → sector_whole_to_i s n ≡ s / 8 / n * 8 + s % 8
unfolding sector_whole_to_i
sector_whole_to_i_lem s n = omega (arith, bit_and_seven s)

whole_parts :
    (s n : ℕ) → (sector_whole_to_i s n / 8 ≡ s / 8 / n) × (sector_whole_to_i s n % 8 ≡ s % 8)
whole_parts s n = omega (arith, sector_whole_to_i_lem s n)

pub row_parts :
    (q n d r : ℕ)
    → d < n
    → r < 8
    → (((q * n + d) * 8 + r) / 8 / n ≡ q)
      × (((q * n + d) * 8 + r) / 8 % n ≡ d)
      × (((q * n + d) * 8 + r) % 8 ≡ r)
row_parts q n d r h k = (
  rw (chunk, ← mul_comm n q, mul-add-div {m = n} (omega arith) q d, div-eq_of_lt h) (omega arith),
  rw (chunk, ← mul_comm n q, mul-add-mod_self_left n q d, mod-eq_of_lt h),
  omega arith,
)
  where
    chunk : ((q * n + d) * 8 + r) / 8 ≡ q * n + d
    chunk = omega arith

-- Reading the place of a sector back gives the sector.
pub array_sector-locate : (n s : ℕ) → array_sector n (locate n s) ≡ s
unfolding array_sector locate device_num chunk_num
array_sector-locate n s = ground (arith, whole_parts s n, div-add-mod' (s / 8) n)

-- Every sector of each of the `n` data disks is the place of the sector that is read back from it.
pub locate-array_sector : (n : ℕ) (p : Place) → p.dev < n → locate n (array_sector n p) ≡ p
unfolding array_sector locate device_num chunk_num
locate-array_sector n p h = ground (
  arith,
  row_parts (p.sector / 8) n p.dev (p.sector % 8) h,
  sector_whole_to_i_lem ((p.sector / 8 * n + p.dev) * 8 + p.sector % 8) n,
)

pub locate_dev : (n s : ℕ) → 0 < n → (locate n s).dev < n
unfolding locate device_num
locate_dev n s h = mod-lt (chunk_num s) h

-- With `n` disks of `k` chunks each, a sector of the array falls on one of the disks and inside it.
pub locate_bounds :
    (n k s : ℕ) → s < n * (k * 8) → ((locate n s).dev < n) × ((locate n s).sector < k * 8)
unfolding locate device_num chunk_num
locate_bounds n k s h = (
  mod-lt (s / 8) {m = n} pos,
  omega
      (arith, sector_whole_to_i_lem s n, (div-lt_iff_lt-mul {k = n} {x = s / 8} {y = k} pos).1 row),
)
  where
    row : s / 8 < k * n
    row = omega (arith, mul_comm n k)

    pos : 0 < n
    pos = grind (arith, zero-mul)

-- A sector `j` behind `s` and not behind the last one of its chunk lies on the disk of `s`, and `j`
-- sectors behind it there.
pub locate_in_chunk :
    (n s j : ℕ)
    → s + j ≤ chunk_end_sector s
    → locate n (s + j) ≡ record { dev = (locate n s).dev; sector = (locate n s).sector + j }
unfolding locate device_num chunk_end_sector
locate_in_chunk n s j h =
    ground (arith, sector_whole_to_i_lem s n, sector_whole_to_i_lem (s + j) n, same_chunk)
  where
    same_chunk : (s + j) / 8 ≡ s / 8
    same_chunk = omega arith

-- The closed interval of a chunk holds its sector, and ends at the last sector before a multiple
-- of eight.
pub chunk_end_lem :
    (s : ℕ)
    → (s ≤ chunk_end_sector s) × (chunk_end_sector s < s + 8) × ((chunk_end_sector s + 1) % 8 ≡ 0)
unfolding chunk_end_sector
chunk_end_lem s = omega arith
