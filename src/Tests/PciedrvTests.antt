-- ===== src/Tests/PciedrvTests.antt =====
-- A write of ten sectors through the parity driver, and the rest of it behind a split.
use praid.Common.{ℕ, ◌+◌, ◌≡◌, refl, arith, true, List, [], ◌∷◌, Option, length, map}
use praid.Bio.{Bio, BioVec, read, write}
use praid.Pciedrv.{Verify, pcievdrv_submit_verify, add_pages, read_bio, finish_verify}
use praid.Pciedrv.Read.{made_read}
use praid.Pciedrv.Completion.{
  Grants, Page, VerifyWorkParam, Completed, pciev_read_bio_endio, verify_segments,
}
use praid.Pciedrv.Write.{IsRead, write-submits}
use praid.Pciedrv.Tasks.{AllGranted, Carries, pciev_read_bio_endio-Carries}
use praid.Tests.BlockTests.{kernel, kernel-GivesPages, ten_sectors}

write-submits_example :
    (n_bio : Bio) × (pcievdrv_submit_verify kernel (ten_sectors write) 5
      ≡ (Verify.read_first n_bio (ten_sectors write), [], 7))
    × IsRead n_bio (ten_sectors write)
    × ((g : ℕ → Grants) (pages : ℕ → Page) (left : List BioVec)
        → (tasks : List (Option VerifyWorkParam)) × (pciev_read_bio_endio g pages n_bio
              (ten_sectors write)
              left
            ≡ Completed.done tasks (map (λ v. v.bv_page) left) (ten_sectors write))
          × (length tasks ≡ 2))
write-submits_example =
    write-submits kernel kernel-GivesPages (ten_sectors write) 5 (omega arith, (omega arith, tt))
      (record { idx = refl; bvec_done = refl; some_bytes = (omega arith, (omega arith, tt)) }) refl

abbrev pub plenty : ℕ → Grants
plenty i = record { kmalloc = true; new_page = true; old_page = true; queue_work = true }

pub plenty-AllGranted : AllGranted plenty
plenty-AllGranted i = (refl, refl, refl, refl)

-- Each byte of a page is the number of the page and its place there.
abbrev numbered : ℕ → Page
numbered page a = page + a

abbrev pub old_segs : List BioVec
old_segs =
    record { bv_page = 5; bv_len = 1024; bv_offset = 0 }
    ∷ record { bv_page = 6; bv_len = 4096; bv_offset = 0 }
    ∷ []

abbrev read_ten : Bio
read_ten = record (ten_sectors read) { segs = old_segs }

pciev_read_bio_endio-Carries_example :
    (tasks : List (Option VerifyWorkParam)) × (pciev_read_bio_endio plenty numbered read_ten
        (ten_sectors write)
        old_segs
      ≡ Completed.done tasks (5 ∷ 6 ∷ []) (ten_sectors write))
    × Carries numbered 6 5120 old_segs (ten_sectors write).segs tasks
pciev_read_bio_endio-Carries_example =
    pciev_read_bio_endio-Carries plenty numbered plenty-AllGranted read_ten (ten_sectors write)
      old_segs refl (refl, refl, (refl, refl, tt)) (refl, (refl, tt))

-- A write of one page, of which two sectors are done already: the iterator cuts the first entry of
-- the read bio once more.
abbrev half_done : Bio
half_done = record (ten_sectors write) {
  bi_vcnt = 1;
  bi_bvec_done = 1024;
  sectors = 6;
  segs = record { bv_page = 7; bv_len = 3072; bv_offset = 1024 } ∷ [];
}

half_done_made :
    pcievdrv_submit_verify kernel half_done 5
    ≡ (Verify.read_first (made_read kernel half_done 5) half_done, [], 6)
unfolding pcievdrv_submit_verify add_pages read_bio finish_verify
half_done_made = refl

half_done_bug :
    pciev_read_bio_endio plenty numbered (made_read kernel half_done 5) half_done [] ≡ Completed.bug
unfolding pciev_read_bio_endio verify_segments read_bio
half_done_bug = refl
