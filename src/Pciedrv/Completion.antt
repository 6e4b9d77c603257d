-- ===== src/Pciedrv/Completion.antt =====
-- pciedrv.c: the completion of the read bio, `pciev_read_bio_endio`, which queues a task of the
-- device for each segment and sends the write on its way, and `add_verify_task`.
use praid.Common.{ℕ, ◌+◌, ◌/◌, Bool, Option, none, some, List, [], ◌∷◌, map, ◌==◌, ◌&&◌, not}
use praid.Common.{if◌then◌else◌}
use praid.Bio.{Bio, BioVec, total, from_entry, iovecs}

-- The bytes of a page.
abbrev pub Page : Type 0
Page = ℕ → ℕ

-- The kernel's answers to one call of `add_verify_task`: true is success.
pub record Grants : Type 0 where
  pub kmalloc : Bool
  pub new_page : Bool
  pub old_page : Bool
  pub queue_work : Bool

-- `struct verify_work_param`, with the bytes of its two pages.
pub record VerifyWorkParam : Type 0 where
  pub page_new : Page
  pub page_old : Page
  pub num_sector : ℕ
  pub offset : ℕ
  pub size : ℕ

-- What an exit of `add_verify_task` frees.
pub data Freed : Type 0 where
  freed_work freed_new freed_old : Freed

-- The task that is queued, if any, and what is freed, in order. `copy_page_to_page` copies the whole
-- of a page.
unfoldable pub add_verify_task :
    Grants → Page → Page → ℕ → ℕ → ℕ → Option VerifyWorkParam × List Freed
add_verify_task g page_new page_old num_sector offset size =
    if not g.kmalloc
    then (none, [])
    else if not g.new_page
    then (none, freed_work ∷ [])
    else if not g.old_page
    then (none, freed_new ∷ freed_work ∷ [])
    else if not g.queue_work
    then (none, freed_new ∷ freed_old ∷ freed_work ∷ [])
    else (
      some (record {
        page_new = page_new;
        page_old = page_old;
        num_sector = num_sector;
        offset = offset;
        size = size;
      }),
      [],
    )

-- The loop over the segments of the read bio and of the write bio; `pages` gives the bytes of each
-- page, and the i-th call of `add_verify_task` is answered by `grants i`. The code does not look at
-- the result of that call. `none` is a failed `BUG_ON`.
unfoldable pub verify_segments :
    (ℕ → Grants)
    → (ℕ → Page)
    → ℕ
    → ℕ
    → List BioVec
    → List BioVec
    → Option (List (Option VerifyWorkParam))
unfolding add_verify_task
verify_segments grants pages i pos_sector [] news = some []
verify_segments grants pages i pos_sector (bvec_old ∷ olds) [] = some []
verify_segments grants pages i pos_sector (bvec_old ∷ olds) (bvec_new ∷ news) =
    let rest =
      verify_segments grants pages (i + 1) (pos_sector + bvec_new.bv_len / 512) olds news in
    if bvec_old.bv_len == bvec_new.bv_len && bvec_old.bv_offset == bvec_new.bv_offset
    then elim rest [
      | none ↦ none
      | some tasks ↦ some (
          (add_verify_task (grants i) (pages bvec_new.bv_page) (pages bvec_old.bv_page) pos_sector
            bvec_new.bv_offset bvec_new.bv_len).0
          ∷ tasks)
    ]
    else none

-- The early return on bios of different formats, a failed `BUG_ON`, or the end: the tasks, the
-- pages freed, and the write bio, which is submitted.
pub data Completed : Type 0 where
  mismatch bug : Completed
  done : (tasks : List (Option VerifyWorkParam)) (freed : List ℕ) (bio_new : Bio) → Completed

-- `iter_old`: the iterator of the write bio, over the table of the read bio. That one is walked from
-- its start when it is made, so that its segments are then its table.
abbrev pub walked : Bio → Bio → List BioVec
walked bio_old bio_new =
    iovecs (from_entry bio_new.bi_idx bio_old.segs) bio_new.bi_bvec_done (total bio_new.segs)

-- `bio_old` is the read bio as it was made, and `left` what `bio_for_each_segment` finds in it at
-- its completion.
unfoldable pub pciev_read_bio_endio :
    (ℕ → Grants) → (ℕ → Page) → Bio → Bio → List BioVec → Completed
unfolding verify_segments
pciev_read_bio_endio grants pages bio_old bio_new left =
    if not (bio_old.bi_vcnt == bio_new.bi_vcnt)
    then mismatch
    else elim (verify_segments grants pages 0 bio_new.bi_sector (walked bio_old bio_new)
        bio_new.segs) [ none ↦ bug | some tasks ↦ done tasks (map (λ v. v.bv_page) left) bio_new ]
