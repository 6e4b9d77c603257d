-- ===== src/Tests/TrialTests.antt =====
-- The modules for tests by hand, biotest/main.c and readtest/main.c, with a kernel that gives all
-- it is asked for.
use praid.Bio.{Bio, Direction, Disk}
use praid.Pciedrv.Completion.{Page}
use praid.Common.{ℕ, ◌*◌, ◌+◌, ◌≡◌, refl, true, none, []}
use praid.BioTest
use praid.ReadTest

abbrev bio_answers : BioTest.Answers
bio_answers = record { opens = true; bio_alloc = true; kmap = λ _. true }

abbrev bio_start : BioTest.Trial
bio_start = record {
  opened = 0;
  page = none;
  page1 = none;
  pages = 0;
  bios = 0;
  contents = λ _ _. 0;
  submitted = [];
}

-- The completion of a bio would give it back.
completed : (BioTest.my_bio_end_io (record bio_start { bios = 1 })).bios ≡ 0
unfolding BioTest.my_bio_end_io
completed = refl

-- The disks hold their numbers and the places of the bytes; a read brings them into the page.
abbrev numbers : Disk → ℕ → ℕ
numbers (Disk.nvme i) x = i + x
numbers Disk.verify x = 7
numbers Disk.array x = 8

abbrev brought : Direction → Disk → ℕ → Page
brought Direction.read disk sector x = numbers disk (sector * 512 + x)
brought Direction.write disk sector x = 0

abbrev disk_page : Bio → Page
disk_page b = brought b.dir b.bi_bdev b.bi_sector

abbrev read_answers : ReadTest.Answers
read_answers = record {
  opens = λ _. true;
  bio_alloc = λ _. true;
  kmap = λ _. true;
  kmap_again = λ _. true;
  page_after = disk_page;
}

abbrev read_start : ReadTest.Trial
read_start = record {
  opened = λ _. 0;
  page = none;
  pages = 0;
  bios = 0;
  submitted = [];
  printed = [];
}
