-- ===== src/Pciedrv.antt =====
-- pciedrv.c: the driver of the parity device. This file: `pcievdrv_submit_verify`, which puts a
-- read of the old data in front of a write.
pub mod Completion
pub mod Write
pub mod Tasks
pub mod Read
use praid.Common.{ℕ, ◌+◌, true, false, none, some, List, [], ◌∷◌, ltb}
use praid.Bio.{Bio, BioVec, Direction, Kernel}

abbrev pub page_size : ℕ
page_size = 4096

-- What `pcievdrv_submit_verify` hands back: the read bio, whose `bi_private` is the write bio and
-- whose `bi_end_io` is `pciev_read_bio_endio`, or `ERR_PTR(-EIO)`; `bug` is a failed `BUG_ON`.
pub data Verify : Type 0 where
  read_first : (n_bio bio : Bio) → Verify
  err_ptr : Verify
  bug : Verify

-- The outcome of the loop over the segments: the read bio with its pages, or the failure of
-- `alloc_page` (label out_bio), of `bio_add_page` (label out_page) or of the assertion.
pub data Pages : Type 0 where
  added : Bio → Pages
  out_bio : Pages
  out_page : ℕ → Pages
  too_long : Pages

-- Pages given back to the allocator and references dropped by `bio_put`, in order.
pub data Release : Type 0 where
  free_page : ℕ → Release
  bio_put : Bio → Release

module _ (k : Kernel) where
  -- The body of `bio_for_each_segment`; `calls` counts the calls of `alloc_page` so far, and the
  -- page that the next call gives has that number.
  unfoldable pub add_pages : Bio → List BioVec → ℕ → Pages × ℕ
  add_pages n_bio [] calls = (added n_bio, calls)
  add_pages n_bio (bvec ∷ rest) calls = elim (ltb page_size bvec.bv_len) [
    | true ↦ (too_long, calls)
    | false ↦ elim (k.alloc_page calls) [
      | false ↦ (out_bio, calls + 1)
      | true ↦ elim (k.bio_add_page n_bio (record bvec { bv_page = calls })) [
        | none ↦ (out_page calls, calls + 1)
        | some n_bio' ↦ add_pages n_bio' rest (calls + 1)
      ]
    ]
  ]

  -- `bio_alloc`, `bio_set_dev` and the sector of the new bio.
  unfoldable pub read_bio : Bio → Bio
  read_bio bio = record (k.bio_alloc bio.bi_vcnt) {
    bi_bdev = bio.bi_bdev;
    bi_sector = bio.bi_sector;
  }

  -- After the loop: the result, and what the exits release. Both exits put the caller's bio.
  unfoldable pub finish_verify : Bio → Pages → Verify × List Release
  finish_verify bio (added n_bio) = (read_first (record n_bio { dir = Direction.read }) bio, [])
  finish_verify bio out_bio = (err_ptr, bio_put bio ∷ [])
  finish_verify bio (out_page page) = (err_ptr, free_page page ∷ bio_put bio ∷ [])
  finish_verify bio too_long = (bug, [])

  unfoldable pub pcievdrv_submit_verify : Bio → ℕ → Verify × List Release × ℕ
  unfolding add_pages read_bio finish_verify
  pcievdrv_submit_verify bio calls =
      let (pages, calls') = add_pages (read_bio bio) bio.segs calls in
      let (result, released) = finish_verify bio pages in (result, released, calls')
