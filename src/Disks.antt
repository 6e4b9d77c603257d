-- ===== src/Disks.antt =====
-- main.c: `nvme_blkdev_init` and `nvme_blkdev_final`, which open the lower disks and close them.
pub mod Balance
use praid.Common.{ℕ, zero, suc, ◌+◌, ◌-◌, Bool, true, false, ◌==◌, if◌then◌else◌}

-- How often the driver holds each disk open: `blkdev_get_by_dev` and `blkdev_put`.
pub record Refs : Type 0 where
  pub verify : ℕ
  pub nvme : ℕ → ℕ

abbrev pub get_nvme : ℕ → Refs → Refs
get_nvme i r = record r { nvme = λ j. if i == j then r.nvme j + 1 else r.nvme j }

abbrev pub put_nvme : ℕ → Refs → Refs
put_nvme i r = record r { nvme = λ j. if i == j then r.nvme j - 1 else r.nvme j }

-- The loop at the label ret_err, which closes the disks below `i`, the last first.
unfoldable pub close_below : ℕ → Refs → Refs
close_below zero r = r
close_below (suc i) r = close_below i (put_nvme i r)

-- The attempt to open the verify disk, with all `disk_cnt` data disks open.
unfoldable pub open_verify : Bool → ℕ → Refs → Bool × Refs
unfolding close_below
open_verify true disk_cnt r = (true, record r { verify = r.verify + 1 })
open_verify false disk_cnt r = (false, close_below disk_cnt r)

-- `opens i` tells whether `blkdev_get_by_dev` gives the i-th data disk, `opens_verify` the same of
-- the verify disk.
module _ (opens : ℕ → Bool) (opens_verify : Bool) where
  -- The loop at `i`, with `left` disks to go. The result false stands for -EBUSY.
  unfoldable pub open_from : ℕ → ℕ → Refs → Bool × Refs
  unfolding close_below open_verify
  open_from zero i r = open_verify opens_verify i r
  open_from (suc left) i r = elim (opens i) [
    | true ↦ open_from left (i + 1) (get_nvme i r)
    | false ↦ (false, close_below i r)
  ]

  unfoldable pub nvme_blkdev_init : ℕ → Refs → Bool × Refs
  unfolding open_from
  nvme_blkdev_init disk_cnt r = open_from disk_cnt 0 r

-- The loop of `nvme_blkdev_final`, upwards from `i`.
unfoldable pub close_from : ℕ → ℕ → Refs → Refs
close_from zero i r = r
close_from (suc left) i r = close_from left (i + 1) (put_nvme i r)

unfoldable pub nvme_blkdev_final : ℕ → Refs → Refs
unfolding close_from
nvme_blkdev_final disk_cnt r = close_from disk_cnt 0 (record r { verify = r.verify - 1 })
