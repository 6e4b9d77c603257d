-- ===== src/Block/Capacity.antt =====
-- block.c, the capacity that `create_block_device` gives the array.
use praid.Common.{
  ℕ, ◌+◌, ◌*◌, ◌/◌, ◌%◌, ◌^◌, ◌≤◌, ◌<◌, ◌≡◌, ◌↔◌, arith, ap, Bool-cases, inl, inr, ltb,
}
use praid.Geometry.{sector_whole_to_i, sector_shift, sector_size}
use praid.Geometry.Locate.{Place, locate, sector_whole_to_i_lem, locate_bounds, row_parts}
use praid.Config.{PraidConfig}
use native.Mathlib.Nat.{mul-le-mul_left}

-- `dev->size`, a `uint64_t`, for `disk_cnt` data disks.
unfoldable pub array_size : PraidConfig → ℕ → ℕ
array_size config disk_cnt = config.size_nvme_disk * disk_cnt % 2 ^ 64

-- The argument of `set_capacity`, in sectors.
unfoldable pub capacity : PraidConfig → ℕ → ℕ
unfolding array_size
capacity config disk_cnt = array_size config disk_cnt / 2 ^ sector_shift * (512 / sector_size)

-- The place lies on one of `n` disks of `size` bytes, with its whole sector.
pub record IsInside (n size : ℕ) (p : Place) : Type 0 where
  pub dev : p.dev < n
  pub sector : p.sector * 512 + 512 ≤ size

module _ (config : PraidConfig) (n : ℕ) (several : 2 ≤ n)
    (sectors : config.size_nvme_disk % 512 ≡ 0) (small : config.size_nvme_disk * n < 2 ^ 64) where
  capacity_lem : capacity config n ≡ config.size_nvme_disk / 512 * n
  unfolding capacity
  capacity_lem =
      let q : ℕ = config.size_nvme_disk / 512 in
      let whole : config.size_nvme_disk ≡ q * 512 = omega (arith, sectors) in
      let product : config.size_nvme_disk * n ≡ q * 512 * n = ap (λ x. x * n) whole in
      omega (arith, product, small)

  inside :
      config.size_nvme_disk % 4096 ≡ 0
      → (s : ℕ) → s < capacity config n
      → IsInside n config.size_nvme_disk (locate n s)
  inside whole s h =
      let k : ℕ = config.size_nvme_disk / 4096 in
      let chunks : config.size_nvme_disk / 512 ≡ k * 8 = omega (arith, whole) in
      let size : config.size_nvme_disk / 512 * n ≡ k * 8 * n = ap (λ x. x * n) chunks in
      let (on_disk, below) = locate_bounds n k s (omega (arith, h, capacity_lem, size)) in
      record { dev = on_disk; sector = omega (arith, below, whole) }

  outside :
      ((s : ℕ) → s < capacity config n → IsInside n config.size_nvme_disk (locate n s))
      → config.size_nvme_disk % 4096 ≡ 0
  unfolding locate
  outside all =
      let q : ℕ = config.size_nvme_disk / 512 in
      let k : ℕ = q / 8 in
      let r : ℕ = q % 8 in
      elim (Bool-cases (ltb 0 r)) [
        | inr full ↦
            let none_left : r ≡ 0 = ground (arith, full) in omega (arith, none_left, sectors)
        | inl partial ↦
            let some_left : 0 < r = ground (arith, partial) in
            let (row, _, rest) = row_parts k n 0 r (omega (arith, several)) (omega arith) in
            let s : ℕ = (k * n + 0) * 8 + r in
            let parts : q ≡ k * 8 + r = omega arith in
            let product : q * n ≡ (k * 8 + r) * n = ap (λ x. x * n) parts in
            let more : r * 2 ≤ r * n = mul-le-mul_left r several in
            let below : s < capacity config n =
              omega (arith, capacity_lem, product, more, some_left) in
            let held : sector_whole_to_i s n * 512 + 512 ≤ config.size_nvme_disk =
              (all s below).sector in
            absurd (omega (arith, sectors, held, row, rest, sector_whole_to_i_lem s n, parts))
      ]

  -- For two data disks or more, whose size is a multiple of 512 bytes, and an array of less than
  -- 2 ^ 64 bytes: every sector below the capacity of the array falls on a data disk and inside it
  -- exactly when the size of a data disk is a multiple of the chunk of 4096 bytes.
  pub capacity_iff :
      ((s : ℕ) → s < capacity config n → IsInside n config.size_nvme_disk (locate n s))
      ↔ (config.size_nvme_disk % 4096 ≡ 0)
  capacity_iff = (outside, inside)
