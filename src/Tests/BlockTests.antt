-- ===== src/Tests/BlockTests.antt =====
-- block.h and block.c on an array of three data disks.
use praid.Common.{
  ℕ, ◌+◌, ◌-◌, ◌*◌, ◌<◌, ◌≤◌, ◌≡◌, refl, arith, true, Option, none, some, List, [], ◌∷◌, ◌++◌,
}
use praid.Common.{◌==◌, ◌/◌, false, Bool-cases, inl, inr, length, ltb, if◌then◌else◌, map}
use mathlib.Core.Option.{some-injective, none-ne-some}
use praid.Geometry.{device_num, sector_whole_to_i, chunk_end_sector}
use praid.Geometry.Locate.{locate}
use praid.Bio.{
  Bio, BioVec, Disk, Direction, read, write, Kernel, IsSplit, IsLonger, GivesPages, total, iovecs,
}
use praid.Pciedrv.{pcievdrv_submit_verify, read_bio, Verify, Release}
use praid.Block.{Call, aim, vpciedisk_submit_bio}
use praid.Block.InChunk.{crossing-err_ptr}
use praid.Pciedrv.Read.{made_read}
use praid.Block.Cover.{covered, sector_range}
use praid.Block.Loop.{vpciedisk_submit_bio-ends}
use praid.Block.View.{view, write_places, write_sectors, vpciedisk_submit_bio-view}
use praid.Block.Submit.{AllInChunk, vpciedisk_submit_bio-InChunk, vpciedisk_submit_bio-covers}

-- The segments behind the first `n` bytes, where `bio_split` cuts between two segments.
abbrev behind : List BioVec → ℕ → List BioVec
behind [] n = []
behind (v ∷ vs) n = let rest = behind vs (n - v.bv_len) in if n == 0 then v ∷ vs else rest

-- The split of a kernel that always has memory. The front has no entries of its own.
abbrev split_at : Bio → ℕ → Option (Bio × Bio)
split_at b n = some (
  record b { sectors = n; bi_vcnt = 0; segs = iovecs b.segs 0 (n * 512) },
  record b {
    bi_sector = b.bi_sector + n;
    sectors = b.sectors - n;
    bi_idx = b.bi_idx + (length b.segs - length (behind b.segs (n * 512)));
    segs = behind b.segs (n * 512);
  },
)

abbrev empty_bio : ℕ → Bio
empty_bio n = record {
  bi_bdev = Disk.array;
  bi_sector = 0;
  sectors = 0;
  dir = read;
  bi_vcnt = 0;
  max_vecs = n;
  bi_idx = 0;
  bi_bvec_done = 0;
  segs = [];
}

abbrev add_segment : Bio → BioVec → Option Bio
add_segment b v =
    if ltb (length b.segs) b.max_vecs
    then some (record b {
      segs = b.segs ++ v ∷ [];
      bi_vcnt = b.bi_vcnt + 1;
      sectors = total (b.segs ++ v ∷ []) / 512;
    })
    else none

pub split_at_lem :
    (b : Bio) (n : ℕ) {child rest : Bio}
    → n < b.sectors
    → split_at b n ≡ some (child, rest)
    → IsSplit b n child rest
split_at_lem b n h e = record {
  child_sector = ground arith;
  child_sectors = ground arith;
  child_dir = ground arith;
  rest_sector = ground arith;
  rest_sectors = ground arith;
  rest_dir = ground arith;
}

pub add_segment_room :
    (b : Bio) (v : BioVec)
    → false ≡ false
    → length b.segs < b.max_vecs
    → add_segment b v
      ≡ some (record b {
        segs = b.segs ++ v ∷ [];
        bi_vcnt = b.bi_vcnt + 1;
        sectors = total (b.segs ++ v ∷ []) / 512;
      })
add_segment_room b v _ h = ground arith

pub add_segment_full :
    (b : Bio) (v : BioVec) → false ≡ false → b.max_vecs ≤ length b.segs → add_segment b v ≡ none
add_segment_full b v _ h = ground arith

total-append : (vs ws : List BioVec) → total (vs ++ ws) ≡ total vs + total ws
total-append [] ws = omega arith
total-append (v ∷ vs) ws = omega (arith, total-append vs ws)

pub add_segment_lem :
    (b : Bio) (v : BioVec) {b' : Bio} → add_segment b v ≡ some b' → IsLonger b v b'
add_segment_lem b v e = elim (Bool-cases (ltb (length b.segs) b.max_vecs)) [
  | inr full ↦ elim (none-ne-some _ (rw full at e)) [ ]
  | inl room ↦ rw (← some-injective _ _ (rw room at e)) (record {
    disk = refl;
    sector = refl;
    bytes = omega (arith, total-append b.segs (v ∷ []));
    counted = refl;
  })
]

abbrev pub kernel : Kernel
kernel = record {
  alloc_page = λ _. true;
  bio_split = split_at;
  bio_alloc = empty_bio;
  bio_add_page = add_segment;
  bio_split_lem = split_at_lem;
  merges = λ _ _. false;
  bio_alloc_lem = λ n. (refl, omega arith, refl, refl);
  bio_alloc_none = refl;
  merges_none = λ _ _ _. refl;
  bio_add_page_lem = add_segment_lem;
  bio_add_page_room = add_segment_room;
  bio_add_page_full = add_segment_full;
}

pub kernel-GivesPages : GivesPages kernel
kernel-GivesPages = record { granted = λ _. refl; apart = λ _ _. refl }

-- Ten sectors from sector 6 on: two of chunk 0 and eight of chunk 1.
abbrev pub ten_sectors : Direction → Bio
ten_sectors d = record {
  bi_bdev = Disk.array;
  bi_sector = 6;
  sectors = 10;
  dir = d;
  bi_vcnt = 2;
  max_vecs = 2;
  bi_idx = 0;
  bi_bvec_done = 0;
  segs =
      record { bv_page = 7; bv_len = 1024; bv_offset = 0 }
      ∷ record { bv_page = 8; bv_len = 4096; bv_offset = 0 }
      ∷ [];
}

vpciedisk_submit_bio-ends_example :
    (made : List Call) × (calls' : ℕ) × (vpciedisk_submit_bio kernel 3 11 (ten_sectors write) 0
      ≡ some (made, calls'))
vpciedisk_submit_bio-ends_example =
    vpciedisk_submit_bio-ends kernel 3 11 (ten_sectors write) 0 (omega arith)

-- The two pieces of the read, with the rest of the bio as it stands after the split.
abbrev front : Bio
front = record (ten_sectors read) {
  bi_bdev = Disk.nvme 0;
  sectors = 2;
  bi_vcnt = 0;
  segs = record { bv_page = 7; bv_len = 1024; bv_offset = 0 } ∷ [];
}

abbrev rest_of_ten : Direction → Bio
rest_of_ten d = record (ten_sectors d) {
  bi_sector = 8;
  sectors = 8;
  bi_idx = 1;
  segs = record { bv_page = 8; bv_len = 4096; bv_offset = 0 } ∷ [];
}

abbrev back : Bio
back = record (rest_of_ten read) { bi_bdev = Disk.nvme 1; bi_sector = 0 }

abbrev made_ten : List Call
made_ten = Call.bio_chain front (rest_of_ten read) ∷ Call.submit front ∷ Call.submit back ∷ []

run_ten : vpciedisk_submit_bio kernel 3 11 (ten_sectors read) 0 ≡ some (made_ten, 0)
unfolding vpciedisk_submit_bio chunk_end_sector sector_whole_to_i device_num
run_ten = refl

-- The two pieces of the write: the first one has no room for the page of its read bio.
abbrev first_two : Bio
first_two = record (ten_sectors write) {
  sectors = 2;
  bi_vcnt = 0;
  segs = record { bv_page = 7; bv_len = 1024; bv_offset = 0 } ∷ [];
}

abbrev write_front : Bio
write_front = record first_two { bi_bdev = Disk.nvme 0 }

abbrev write_back : Bio
write_back = record (rest_of_ten write) { bi_bdev = Disk.nvme 1; bi_sector = 0 }

abbrev written_ten : List Call
written_ten =
    Call.bio_chain write_front (rest_of_ten write)
    ∷ Call.release (Release.free_page 0)
    ∷ Call.release (Release.bio_put write_front)
    ∷ Call.submit_verify Verify.err_ptr
    ∷ Call.submit_verify (Verify.read_first (made_read kernel write_back 1) write_back)
    ∷ []

run_written : vpciedisk_submit_bio kernel 3 11 (ten_sectors write) 0 ≡ some (written_ten, 2)
unfolding vpciedisk_submit_bio chunk_end_sector sector_whole_to_i device_num read_bio
    pcievdrv_submit_verify
run_written = refl

vpciedisk_submit_bio-InChunk_example : AllInChunk written_ten
vpciedisk_submit_bio-InChunk_example =
    vpciedisk_submit_bio-InChunk kernel 3 11 (ten_sectors write) 0 run_written

vpciedisk_submit_bio-covers_example : covered made_ten ≡ map (locate 3) (sector_range 6 10)
vpciedisk_submit_bio-covers_example =
    vpciedisk_submit_bio-covers kernel 3 11 (ten_sectors read) 0 run_ten tt

abbrev numbered : ℕ → ℕ → ℕ
numbered dev s = 100 * dev + s

vpciedisk_submit_bio-view_example :
    ((data_ : ℕ → ℕ) (s : ℕ)
      → view 3 (write_places numbered (covered made_ten) data_ 0) s
        ≡ write_sectors (view 3 numbered) 6 10 data_ s)
    × (map (λ p. numbered p.dev p.sector) (covered made_ten)
        ≡ map (view 3 numbered) (sector_range 6 10))
vpciedisk_submit_bio-view_example =
    vpciedisk_submit_bio-view kernel 3 numbered 11 (ten_sectors read) 0 run_ten tt

-- A write whose bio has fewer table entries than segments ends in `ERR_PTR(-EIO)`.
abbrev short_bio : Bio
short_bio = record (ten_sectors write) { bi_vcnt = 1 }

submit_verify_short :
    pcievdrv_submit_verify kernel short_bio 0
    ≡ (Verify.err_ptr, Release.free_page 1 ∷ Release.bio_put short_bio ∷ [], 2)
unfolding pcievdrv_submit_verify
submit_verify_short = refl

crossing-err_ptr_example :
    (later : List Call) × (calls' : ℕ) × (vpciedisk_submit_bio kernel 3 10 (ten_sectors write) 5
      ≡ some (
        Call.bio_chain (aim kernel 3 first_two 6) (rest_of_ten write)
            ∷ Call.release (Release.free_page 5)
            ∷ Call.release (Release.bio_put (aim kernel 3 first_two 6))
            ∷ Call.submit_verify Verify.err_ptr
            ∷ later,
        calls',
      ))
unfolding chunk_end_sector
crossing-err_ptr_example =
    crossing-err_ptr kernel 3 (ten_sectors write) first_two (rest_of_ten write) 9 5
      (record { bv_page = 7; bv_len = 1024; bv_offset = 0 }) [] refl (omega arith) refl refl refl
      (omega arith) refl (omega arith)
