-- ===== src/Geometry.antt =====
-- block.h and praid.h: the sizes, and the macros that take a sector of the array to a data disk and
-- a sector of that disk. A shift by k is a product or a quotient by 2 ^ k.
pub mod Locate
use praid.Common.{ℕ, ◌+◌, ◌-◌, ◌*◌, ◌/◌, ◌%◌, ◌^◌}
use Prim.Native.Nat.{bit_and}

abbrev pub sector_shift : ℕ
sector_shift = 9

abbrev pub sector_size : ℕ
sector_size = 512

abbrev pub chunk_shift : ℕ
chunk_shift = 12

abbrev pub chunk_size : ℕ
chunk_size = 2 ^ chunk_shift

abbrev pub sectors_in_chunk : ℕ
sectors_in_chunk = 8

abbrev pub sectors_in_chunk_shift : ℕ
sectors_in_chunk_shift = 3

abbrev pub megabytes : ℕ → ℕ
megabytes m = m * 2 ^ 20

abbrev pub bar_chunk_offset : ℕ
bar_chunk_offset = megabytes 1

unfoldable pub chunk_num : ℕ → ℕ
chunk_num sector_num = sector_num / 2 ^ sectors_in_chunk_shift

unfoldable pub stripe_num : ℕ → ℕ → ℕ
unfolding chunk_num
stripe_num sector_num cnt_dev = chunk_num sector_num / cnt_dev

unfoldable pub device_num : ℕ → ℕ → ℕ
device_num chunk cnt_dev = chunk % cnt_dev

unfoldable pub chunk_sta_sector : ℕ → ℕ
unfolding chunk_num
chunk_sta_sector sector_num = chunk_num sector_num * 2 ^ sectors_in_chunk_shift

unfoldable pub chunk_end_sector : ℕ → ℕ
unfolding chunk_sta_sector
chunk_end_sector sector_num = chunk_sta_sector sector_num + sectors_in_chunk - 1

unfoldable pub sector_whole_to_i : ℕ → ℕ → ℕ
unfolding chunk_num
sector_whole_to_i sector_sta cnt_dev =
    bit_and sector_sta 0x7 + (chunk_num sector_sta / cnt_dev) * 2 ^ sectors_in_chunk_shift
