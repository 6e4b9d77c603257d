-- ===== src/ReadTest/Heads.antt =====
-- What readtest/main.c has printed, and what it holds, with a kernel that gives all it is asked for.
use praid.Common.{ℕ, zero, suc, ◌+◌, ◌*◌, ◌/◌, ◌<◌, ◌≡◌, true, Option, some, List, [], ◌∷◌, ◌++◌}
use praid.Bio.{Bio, Direction, Disk, Kernel, total}
use praid.Pciedrv.{page_size}
use praid.ReadTest.{Answers, Trial, head_bio}
use praid.ReadTest.Lines.{span, bytes_of}
use praid.ReadTest.Outcome.{Same}

-- A kernel that gives all that is asked for, and brings into the page of a bio of eight sectors, if it is
-- a read, what the disk that it names has from the sector that it names on.
pub record IsWilling (k : Kernel) (a : Answers) (disks : Disk → ℕ → ℕ) : Type 0 where
  pub opens : (i : ℕ) → a.opens i ≡ true
  pub alloc_page : (i : ℕ) → k.alloc_page i ≡ true
  pub bio_alloc : (i : ℕ) → a.bio_alloc i ≡ true
  pub kmap : (i : ℕ) → a.kmap i ≡ true
  pub kmap_again : (i : ℕ) → a.kmap_again i ≡ true
  pub reads :
      (b : Bio)
      → b.dir ≡ Direction.read
      → b.sectors ≡ 8
      → (x : ℕ) → x < page_size
      → a.page_after b x ≡ disks b.bi_bdev (b.bi_sector * 512 + x)

-- The variable `page` behind the loop.
last_page : (left i : ℕ) → Option ℕ → Option ℕ
last_page zero i q = q
last_page (suc left) i q = last_page left (i + 1) (some i)

-- The heads of the disks from `i` on, one after the other.
unfoldable pub heads : (Disk → ℕ → ℕ) → (left i : ℕ) → List ℕ
heads disks zero i = []
heads disks (suc left) i = span (disks (Disk.nvme i)) 0 page_size ++ heads disks left (i + 1)

module _ (k : Kernel) (a : Answers) (disks : Disk → ℕ → ℕ) (willing : IsWilling k a disks) where
  record IsPrinted (i : ℕ) (t t' : Trial) : Type 0 where
    opened : t'.opened ≡ t.opened
    page : t'.page ≡ t.page
    pages : t'.pages ≡ t.pages
    bios : t'.bios ≡ t.bios + 1
    bytes : bytes_of t'.printed ≡ bytes_of t.printed ++ span (disks (Disk.nvme i)) 0 page_size

  -- The bio that is sent.
  abbrev read_head : (id page : ℕ) → Bio
  read_head id page =
      let segs =
        (head_bio k a id).segs
        ++ record { bv_page = page; bv_len = page_size; bv_offset = 0 } ∷ [] in
      record (head_bio k a id) {
        segs = segs;
        bi_vcnt = (head_bio k a id).bi_vcnt + 1;
        sectors = total segs / 512;
        dir = Direction.read;
      }

  record IsRead (left i : ℕ) (t t' : Trial) : Type 0 where
    opened : Same t t'
    page : t'.page ≡ last_page left i t.page
    pages : t'.pages ≡ t.pages + left
    bios : t'.bios ≡ t.bios + left
    bytes : bytes_of t'.printed ≡ bytes_of t.printed ++ heads disks left i
