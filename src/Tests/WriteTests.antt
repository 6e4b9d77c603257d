-- ===== src/Tests/WriteTests.antt =====
-- A write of ten sectors to data disk 1, from the parity driver to the verify disk.
use praid.Common.{ℕ, ◌<◌, ◌≡◌, refl, arith, some, leb, if◌then◌else◌, List, [], ◌∷◌, map}
use praid.Bio.{Bio, Disk, read, write}
use praid.Pciedrv.{Verify, pcievdrv_submit_verify, add_pages, read_bio, finish_verify}
use praid.Pciedrv.Completion.{Page, VerifyWorkParam, Completed, pciev_read_bio_endio}
use praid.Device.Word.{IsBytes}
use praid.Device.Request.{Services}
use praid.Device.Dispatcher.Computed.{IsGood}
use praid.Device.Start.{started_device}
use praid.Parity.{IsParity}
use praid.System.{System, SystemReach}
use praid.System.Progress.{IsQuiet}
use praid.Array.Queue.{params_of, task_at, write_segments}
use praid.Array.Write.{IsWholeWrite, write-IsParity}
use praid.Array.Bytes.{sectors_of, sectors_in}
use praid.Block.InChunk.{sole_piece, verified}
use praid.Array.Submit.{tasks_of_write, disks_of_write, vpciedisk_submit_bio-IsParity}
use praid.Geometry.{chunk_end_sector}
use praid.Block.{aim, vpciedisk_submit_bio}
use praid.Block.View.{view, write_sectors}
use praid.Pciedrv.Read.{made_read}
use praid.Tests.BlockTests.{kernel, kernel-GivesPages, ten_sectors}
use praid.Tests.DeviceTests.{blank, ram, ram-IsGood, two_blank, two_blank-IsParity}
use praid.Tests.PciedrvTests.{old_segs, plenty, plenty-AllGranted}

abbrev piece : Bio
piece = record (ten_sectors write) { bi_bdev = Disk.nvme 1 }

-- The read bio, with the pages 5 and 6.
abbrev read_piece : Bio
read_piece = record {
  bi_bdev = Disk.nvme 1;
  bi_sector = 6;
  sectors = 10;
  dir = read;
  bi_vcnt = 2;
  max_vecs = 2;
  bi_idx = 0;
  bi_bvec_done = 0;
  segs = old_segs;
}

piece_made : pcievdrv_submit_verify kernel piece 5 ≡ (Verify.read_first read_piece piece, [], 7)
unfolding pcievdrv_submit_verify add_pages read_bio finish_verify
piece_made = refl

piece-IsWholeWrite : IsWholeWrite piece
piece-IsWholeWrite = record {
  at_start = record { idx = refl; bvec_done = refl; some_bytes = (omega arith, (omega arith, tt)) };
  entries = refl;
  few = omega arith;
  whole = (refl, (refl, tt));
  in_page = (omega arith, (omega arith, tt));
}

-- The pages of the read bio hold zeros, those of the write bio threes.
abbrev contents : ℕ → Page
contents page a = if leb 7 page then 3 else 0

contents-IsBytes : (page : ℕ) → IsBytes (contents page)
contents-IsBytes page a = ground arith

abbrev params : List VerifyWorkParam
params = params_of contents 6 old_segs (ten_sectors write).segs

abbrev served : ℕ → Services
served i = ram (task_at params i).size

served-IsGood : (i : ℕ) → IsGood (served i) (task_at params i).size
served-IsGood i = ram-IsGood (task_at params i).size

write-IsParity_example :
    (pciev_read_bio_endio plenty contents read_piece piece old_segs
      ≡ Completed.done (map some params) (5 ∷ 6 ∷ []) piece)
    × (c : System) × SystemReach (task_at params) (started_device 2 blank blank) c
    × IsParity 2 (write_segments two_blank 1 contents 6 (ten_sectors write).segs) c.dev.verify_blk
    × (c.dev.irqs ≡ 2)
    × IsQuiet c
write-IsParity_example =
    write-IsParity kernel kernel-GivesPages piece read_piece 5 7 [] piece-IsWholeWrite piece_made
      plenty plenty-AllGranted contents contents-IsBytes old_segs 2 2 1 (omega arith) refl blank
      blank two_blank (λ a. omega arith) (λ a. omega arith) two_blank-IsParity
      ((λ x lt. refl), ((λ x lt. refl), tt)) served served served-IsGood served-IsGood

-- Four sectors of the second chunk of the array.
abbrev in_chunk : Bio
in_chunk = record {
  bi_bdev = Disk.array;
  bi_sector = 9;
  sectors = 4;
  dir = write;
  bi_vcnt = 2;
  max_vecs = 2;
  bi_idx = 0;
  bi_bvec_done = 0;
  segs =
      record { bv_page = 7; bv_len = 1536; bv_offset = 512 }
      ∷ record { bv_page = 8; bv_len = 512; bv_offset = 0 }
      ∷ [];
}

in_chunk-IsWholeWrite : IsWholeWrite in_chunk
in_chunk-IsWholeWrite = record {
  at_start = record { idx = refl; bvec_done = refl; some_bytes = (omega arith, (omega arith, tt)) };
  entries = refl;
  few = omega arith;
  whole = (refl, (refl, tt));
  in_page = (omega arith, (omega arith, tt));
}

abbrev served_write : ℕ → Services
served_write i = ram (task_at (tasks_of_write kernel 2 contents in_chunk 5) i).size

served_write-IsGood :
    (i : ℕ) → IsGood (served_write i) (task_at (tasks_of_write kernel 2 contents in_chunk 5) i).size
served_write-IsGood i = ram-IsGood (task_at (tasks_of_write kernel 2 contents in_chunk 5) i).size

vpciedisk_submit_bio-IsParity_example :
    (vpciedisk_submit_bio kernel 2 4 in_chunk 5 ≡ some (verified kernel 2 in_chunk 5 ∷ [], 7))
    × (pciev_read_bio_endio plenty contents
          (made_read kernel (sole_piece kernel 2 in_chunk) 5)
          (sole_piece kernel 2 in_chunk)
          old_segs
        ≡ Completed.done
            (map some (tasks_of_write kernel 2 contents in_chunk 5))
            (5 ∷ 6 ∷ [])
            (sole_piece kernel 2 in_chunk))
    × (c : System) × SystemReach
        (task_at (tasks_of_write kernel 2 contents in_chunk 5))
        (started_device 2 blank blank)
        c
    × IsParity 2 (disks_of_write kernel 2 two_blank contents in_chunk) c.dev.verify_blk
    × (c.dev.irqs ≡ 2)
    × IsQuiet c
    × ((s x : ℕ)
        → x < 512
        → view 2 (sectors_of (disks_of_write kernel 2 two_blank contents in_chunk)) s x
          ≡ write_sectors
              (view 2 (sectors_of two_blank))
              9
              4
              (sectors_in contents in_chunk.segs)
              s
              x)
unfolding chunk_end_sector aim read_bio
vpciedisk_submit_bio-IsParity_example =
    vpciedisk_submit_bio-IsParity kernel kernel-GivesPages in_chunk 3 5 refl (omega arith)
      in_chunk-IsWholeWrite refl plenty plenty-AllGranted contents contents-IsBytes old_segs 2 2
      (omega arith) blank blank two_blank (λ a. omega arith) (λ a. omega arith) two_blank-IsParity
      ((λ x lt. refl), ((λ x lt. refl), tt)) served_write served_write served_write-IsGood
      served_write-IsGood
