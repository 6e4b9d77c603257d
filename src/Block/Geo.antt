-- ===== src/Block/Geo.antt =====
-- block.c, the other operations of the array's disk: `vpciedisk_getgeo`; `vpciedisk_open` and
-- `vpciedisk_release` do nothing.
use praid.Common.{ℕ, ◌*◌, ◌/◌, ◌%◌, ◌^◌, ◌<◌, ◌≡◌, arith}
use praid.Config.{PraidConfig}
use praid.Block.Capacity.{array_size, capacity}

-- `struct hd_geometry`, whose cylinders have sixteen digits.
pub record HdGeometry : Type 0 where
  pub heads : ℕ
  pub sectors : ℕ
  pub cylinders : ℕ
  pub start : ℕ

unfoldable pub vpciedisk_getgeo : PraidConfig → ℕ → HdGeometry
unfolding array_size
vpciedisk_getgeo config disk_cnt = record {
  heads = 4;
  sectors = 16;
  cylinders = array_size config disk_cnt / 2 ^ 6 % 2 ^ 16;
  start = 4;
}

-- The sectors of an array of less than four megabytes, of whole sectors, by its geometry are 512
-- times those of its capacity.
pub vpciedisk_getgeo-capacity :
    (config : PraidConfig) (n : ℕ)
    → array_size config n < 2 ^ 22
    → array_size config n % 512 ≡ 0
    → (vpciedisk_getgeo config n).heads
        * (vpciedisk_getgeo config n).sectors
        * (vpciedisk_getgeo config n).cylinders
      ≡ capacity config n * 512
unfolding vpciedisk_getgeo capacity
vpciedisk_getgeo-capacity config n small whole = omega (arith, small, whole)
