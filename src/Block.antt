-- ===== src/Block.antt =====
-- block.c: `vpciedisk_submit_bio`, which cuts a bio of the array into bios of the data disks, each
-- within one chunk, and puts the parity driver in front of those that write.
pub mod Capacity
pub mod Geo
pub mod Cover
pub mod Loop
pub mod InChunk
pub mod Submit
pub mod View
use praid.Common.{ℕ, zero, suc, ◌+◌, ◌-◌, true, false, Option, none, some, List, [], ◌∷◌}
use praid.Common.{◌++◌, leb}
use praid.Geometry.{chunk_num, chunk_end_sector, device_num, sector_whole_to_i}
use praid.Bio.{Bio, Disk, Direction, Kernel, bio_end_sector}
use praid.Pciedrv.{Verify, Release, pcievdrv_submit_verify}

-- The calls into the block layer, in the order in which they are made.
pub data Call : Type 0 where
  bio_chain : (child parent : Bio) → Call
  submit : Bio → Call
  submit_verify : Verify → Call
  bio_io_error : Bio → Call
  release : Release → Call

unfoldable pub releases : List Release → List Call
releases [] = []
releases (r ∷ rs) = release r ∷ releases rs

module _ (k : Kernel) (disk_cnt : ℕ) where
  -- `tar_bio` with the sector and the device that the label bio_submit gives it.
  unfoldable pub aim : Bio → ℕ → Bio
  aim tar_bio sta_sector = record tar_bio {
    bi_bdev = Disk.nvme (device_num (chunk_num sta_sector) disk_cnt);
    bi_sector = sector_whole_to_i sta_sector disk_cnt;
  }

  -- From the test of `bio_data_dir` to `submit_bio`.
  unfoldable pub dispatch : Direction → Bio → ℕ → List Call × ℕ
  unfolding releases
  dispatch Direction.read tar_bio calls = (submit tar_bio ∷ [], calls)
  dispatch Direction.write tar_bio calls =
      let (result, released, calls') = pcievdrv_submit_verify k tar_bio calls in
      (releases released ++ submit_verify result ∷ [], calls')

  -- One round of the loop behind the label bio_submit; `some parent` stands for `flag`.
  unfoldable pub bio_submit : Option Bio → Bio → ℕ → ℕ → List Call × ℕ
  unfolding aim dispatch
  bio_submit none tar_bio sta_sector calls = dispatch tar_bio.dir (aim tar_bio sta_sector) calls
  bio_submit (some bio) tar_bio sta_sector calls =
      let (made, calls') = dispatch tar_bio.dir (aim tar_bio sta_sector) calls in
      (bio_chain (aim tar_bio sta_sector) bio ∷ made, calls')

  -- The loop behind the label bio_split. The outer `none` means that the fuel ran out.
  unfoldable pub vpciedisk_submit_bio : ℕ → Bio → ℕ → Option (List Call × ℕ)
  unfolding bio_submit
  vpciedisk_submit_bio zero bio calls = none
  vpciedisk_submit_bio (suc fuel) bio calls =
      let sta_sector = bio.bi_sector in
      let end_sector = chunk_end_sector sta_sector in
      elim (leb (bio_end_sector bio) (end_sector + 1)) [
        | true ↦ some (bio_submit none bio sta_sector calls)
        | false ↦ elim (k.bio_split bio (end_sector - sta_sector + 1)) [
          | none ↦ some (bio_io_error bio ∷ [], calls)
          | some (child_bio, rest) ↦
              let (made, calls') = bio_submit (some rest) child_bio sta_sector calls in
              elim (vpciedisk_submit_bio fuel rest calls') [
                | none ↦ none
                | some (later, calls'') ↦ some (made ++ later, calls'')
              ]
        ]
      ]
