-- ===== src/Bio.antt =====
-- `struct bio` as far as the driver reads and writes it, and the kernel services on bios and pages
-- that the sources call: linux/bio.h, linux/gfp.h and linux/highmem.h, which are not in the
-- repository. `Kernel` is their interface; each law states what the kernel documents.
use praid.Common.{
  ℕ, zero, suc, ◌+◌, ◌-◌, ◌/◌, ◌≤◌, ◌<◌, ◌≡◌, Bool, true, false, Option, none, some, List, [], ◌∷◌,
  ◌++◌, length, leb, ◌==◌, if◌then◌else◌,
}

-- `bio_data_dir`.
pub data Direction : Type 0 where
  read write : Direction

-- The block device under a bio: the array's own disk, the i-th data disk or the verify disk.
pub data Disk : Type 0 where
  array verify : Disk
  nvme : ℕ → Disk

-- `struct bio_vec`; a page is named by the number of the `alloc_page` call that made it.
pub record BioVec : Type 0 where
  pub bv_page : ℕ
  pub bv_len : ℕ
  pub bv_offset : ℕ

-- The bytes of segments: `bi_iter.bi_size` of a bio that has these left.
abbrev pub total : List BioVec → ℕ
total [] = 0
total (v ∷ vs) = v.bv_len + total vs

-- `bi_sector`, `bi_idx` and `bi_bvec_done` are those of `bi_iter`, `sectors` is `bio_sectors`, and
-- `segs` is what `bio_for_each_segment` walks through; `max_vecs` is `bi_max_vecs`.
pub record Bio : Type 0 where
  pub bi_bdev : Disk
  pub bi_sector : ℕ
  pub sectors : ℕ
  pub dir : Direction
  pub bi_vcnt : ℕ
  pub max_vecs : ℕ
  pub bi_idx : ℕ
  pub bi_bvec_done : ℕ
  pub segs : List BioVec

-- `bio_end_sector`: the first sector after the bio.
abbrev pub bio_end_sector : Bio → ℕ
bio_end_sector b = b.bi_sector + b.sectors

-- What `bio_split` leaves behind on success: the front of the bio, and the rest of it.
pub record IsSplit (b : Bio) (n : ℕ) (child rest : Bio) : Type 0 where
  pub child_sector : child.bi_sector ≡ b.bi_sector
  pub child_sectors : child.sectors ≡ n
  pub child_dir : child.dir ≡ b.dir
  pub rest_sector : rest.bi_sector ≡ b.bi_sector + n
  pub rest_sectors : rest.sectors + n ≡ b.sectors
  pub rest_dir : rest.dir ≡ b.dir

-- What `bio_add_page` does on success, whether it takes a new entry or not.
pub record IsLonger (b : Bio) (v : BioVec) (b' : Bio) : Type 0 where
  pub disk : b'.bi_bdev ≡ b.bi_bdev
  pub sector : b'.bi_sector ≡ b.bi_sector
  pub bytes : total b'.segs ≡ total b.segs + v.bv_len
  pub counted : b'.sectors ≡ total b'.segs / 512

-- `alloc_page i` tells whether the i-th call of `alloc_page` gives a page. `bio_split` gives the
-- child and the shortened parent, or nothing. `bio_add_page` gives the longer bio, or nothing for
-- its return value 0; `merges` tells whether it puts the page into the last entry, since the two lie
-- side by side in memory.
pub record Kernel : Type 0 where
  pub alloc_page : ℕ → Bool
  pub bio_split : Bio → ℕ → Option (Bio × Bio)
  pub bio_alloc : ℕ → Bio
  pub bio_add_page : Bio → BioVec → Option Bio
  pub merges : Bio → BioVec → Bool
  pub bio_split_lem :
      (b : Bio) (n : ℕ) {child rest : Bio}
      → n < b.sectors
      → bio_split b n ≡ some (child, rest)
      → IsSplit b n child rest
  pub bio_alloc_lem :
      (n : ℕ)
      → ((bio_alloc n).segs ≡ [])
        × (n ≤ (bio_alloc n).max_vecs)
        × ((bio_alloc n).bi_vcnt ≡ 0)
        × ((bio_alloc n).sectors ≡ 0)
  -- A bio for no entry has no table.
  pub bio_alloc_none : (bio_alloc 0).max_vecs ≡ 0
  pub merges_none : (b : Bio) (v : BioVec) → b.segs ≡ [] → merges b v ≡ false
  pub bio_add_page_lem :
      (b : Bio) (v : BioVec) {b' : Bio} → bio_add_page b v ≡ some b' → IsLonger b v b'
  -- A bio with a free entry takes a segment, at its end; a full one does not.
  pub bio_add_page_room :
      (b : Bio) (v : BioVec)
      → merges b v ≡ false
      → length b.segs < b.max_vecs
      → bio_add_page b v
        ≡ some (record b {
          segs = b.segs ++ v ∷ [];
          bi_vcnt = b.bi_vcnt + 1;
          sectors = total (b.segs ++ v ∷ []) / 512;
        })
  pub bio_add_page_full :
      (b : Bio) (v : BioVec)
      → merges b v ≡ false
      → b.max_vecs ≤ length b.segs
      → bio_add_page b v ≡ none

-- Each page that is asked for is given, and none of them is merged into an entry.
pub record GivesPages (k : Kernel) : Type 0 where
  pub granted : (i : ℕ) → k.alloc_page i ≡ true
  pub apart : (b : Bio) (v : BioVec) → k.merges b v ≡ false

-- The entries of a table behind the first `bi_idx`.
abbrev pub from_entry : ℕ → List BioVec → List BioVec
from_entry zero vs = vs
from_entry (suc i) [] = []
from_entry (suc i) (v ∷ vs) = from_entry i vs

-- `bio_iter_iovec` and `bio_advance_iter_single` on entries of one page, as a loop over them meets
-- them: what an iterator with `done` bytes of the first entry done and `size` bytes left walks through.
abbrev pub iovecs : List BioVec → ℕ → ℕ → List BioVec
iovecs [] done size = []
iovecs (v ∷ vs) done size =
    let len = if leb size (v.bv_len - done) then size else v.bv_len - done in
    let rest = iovecs vs 0 (size - len) in
    if size == 0 then [] else record v { bv_len = len; bv_offset = v.bv_offset + done } ∷ rest
