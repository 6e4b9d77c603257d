-- ===== src/Pciedrv/Write.antt =====
-- The way of a write through the parity driver: from `pcievdrv_submit_verify` over the completion
-- of the read bio to the tasks of the device.
use praid.Common.{
  ℕ, suc, ◌+◌, ◌-◌, ◌≤◌, ◌≡◌, refl, sym, ap, subst, ◌∙◌, arith, true, false, some, List, [], ◌∷◌,
  ◌++◌, length, ltb, leb, length-append, if◌then◌else◌, ◌<◌, ◌/◌, Option, map, ◌==◌,
}
use praid.Bio.{Bio, BioVec, Direction, Kernel, total, iovecs, GivesPages}
use praid.Pciedrv.{
  page_size, Verify, Pages, add_pages, read_bio, finish_verify, pcievdrv_submit_verify,
}
use praid.Pciedrv.Completion.{
  Grants, Page, VerifyWorkParam, add_verify_task, verify_segments, Completed, pciev_read_bio_endio,
  walked,
}
use mathlib.Core.List.{append_assoc, append-nil}

-- Segments of at most a page.
abbrev pub AllFit : List BioVec → Type 0
AllFit [] = Unit
AllFit (v ∷ vs) = (v.bv_len ≤ page_size) × AllFit vs

-- Segments of at least a byte.
abbrev pub AllSome : List BioVec → Type 0
AllSome [] = Unit
AllSome (v ∷ vs) = (0 < v.bv_len) × AllSome vs

-- The same lengths and offsets, in other pages.
abbrev pub Matches : List BioVec → List BioVec → Type 0
Matches [] [] = Unit
Matches (o ∷ os) (n ∷ ns) = (o.bv_len ≡ n.bv_len) × (o.bv_offset ≡ n.bv_offset) × Matches os ns
Matches [] (n ∷ ns) = ⊥
Matches (o ∷ os) [] = ⊥

-- An iterator at the start walks through a table whose segments match those that it is for.
pub iovecs-Matches :
    (os ns : List BioVec) → Matches os ns → AllSome ns → iovecs os 0 (total ns) ≡ os
iovecs-Matches [] [] m h = refl
iovecs-Matches (o ∷ os) (n ∷ ns) (same_len, same_offset, m) (some_bytes, h) =
    let size = n.bv_len + total ns in
    let len : (if leb size (o.bv_len - 0) then size else o.bv_len - 0) ≡ o.bv_len =
      ground (arith, same_len) in
    let left : size - o.bv_len ≡ total ns = omega (arith, same_len) in
    let more : (size == 0) ≡ false = ground (arith, some_bytes) in
    let offset : o.bv_offset + 0 ≡ o.bv_offset = omega arith in
    rw (len, left, more, offset, iovecs-Matches os ns m h) refl
iovecs-Matches [] (n ∷ ns) m h = elim m [ ]
iovecs-Matches (o ∷ os) [] m h = elim m [ ]

-- A bio whose iterator is at the start, over segments of at least a byte each.
pub record IsAtStart (bio : Bio) : Type 0 where
  pub idx : bio.bi_idx ≡ 0
  pub bvec_done : bio.bi_bvec_done ≡ 0
  pub some_bytes : AllSome bio.segs

pub walked-Matches :
    (n_bio bio : Bio) → Matches n_bio.segs bio.segs → IsAtStart bio → walked n_bio bio ≡ n_bio.segs
walked-Matches n_bio bio m h =
    rw (h.idx, h.bvec_done) (iovecs-Matches n_bio.segs bio.segs m h.some_bytes)

-- What `add_pages` has done to `n` for the segments `vs`.
pub record IsAdded (n n' : Bio) (vs : List BioVec) : Type 0 where
  pub added : List BioVec
  pub at_end : n'.segs ≡ n.segs ++ added
  pub alike : Matches added vs
  pub counted : n'.bi_vcnt ≡ n.bi_vcnt + length vs
  pub sector : n'.bi_sector ≡ n.bi_sector
  pub disk : n'.bi_bdev ≡ n.bi_bdev

-- The tasks of segments that match, from the i-th call on.
abbrev pub tasks_of :
    (ℕ → Grants) → (ℕ → Page) → ℕ → ℕ → List BioVec → List BioVec → List (Option VerifyWorkParam)
tasks_of g pages i pos [] ns = []
tasks_of g pages i pos (o ∷ os) [] = []
tasks_of g pages i pos (o ∷ os) (n ∷ ns) =
    (add_verify_task (g i) (pages n.bv_page) (pages o.bv_page) pos n.bv_offset n.bv_len).0
    ∷ tasks_of g pages (i + 1) (pos + n.bv_len / 512) os ns

pub verify_segments-tasks_of :
    (g : ℕ → Grants) (pages : ℕ → Page) (i pos : ℕ) (os ns : List BioVec)
    → Matches os ns
    → verify_segments g pages i pos os ns ≡ some (tasks_of g pages i pos os ns)
unfolding verify_segments
verify_segments-tasks_of g pages i pos [] [] m = refl
verify_segments-tasks_of g pages i pos (o ∷ os) (n ∷ ns) (same_len, same_offset, m) =
    let len : (o.bv_len == n.bv_len) ≡ true = ground (arith, same_len) in
    let offset : (o.bv_offset == n.bv_offset) ≡ true = ground (arith, same_offset) in
    rw (len, offset, verify_segments-tasks_of g pages (i + 1) (pos + n.bv_len / 512) os ns m) refl
verify_segments-tasks_of g pages i pos [] (n ∷ ns) m = elim m [ ]
verify_segments-tasks_of g pages i pos (o ∷ os) [] m = elim m [ ]

length-tasks_of :
    (g : ℕ → Grants) (pages : ℕ → Page) (i pos : ℕ) (os ns : List BioVec)
    → Matches os ns
    → length (tasks_of g pages i pos os ns) ≡ length ns
length-tasks_of g pages i pos [] [] m = refl
length-tasks_of g pages i pos (o ∷ os) (n ∷ ns) (_, _, m) =
    ap suc (length-tasks_of g pages (i + 1) (pos + n.bv_len / 512) os ns m)
length-tasks_of g pages i pos [] (n ∷ ns) m = elim m [ ]
length-tasks_of g pages i pos (o ∷ os) [] m = elim m [ ]

-- What the read bio takes over from the write bio.
pub record IsRead (n_bio bio : Bio) : Type 0 where
  pub alike : Matches n_bio.segs bio.segs
  pub counted : n_bio.bi_vcnt ≡ length bio.segs
  pub sector : n_bio.bi_sector ≡ bio.bi_sector
  pub disk : n_bio.bi_bdev ≡ bio.bi_bdev
  pub reads : n_bio.dir ≡ Direction.read

module _ (k : Kernel) (grants : GivesPages k) where
  add_pages-IsAdded :
      (n : Bio) (vs : List BioVec) (calls : ℕ)
      → AllFit vs
      → length n.segs + length vs ≤ n.max_vecs
      → (n' : Bio) × (add_pages k n vs calls ≡ (Pages.added n', calls + length vs))
        × IsAdded n n' vs
  unfolding add_pages
  add_pages-IsAdded n [] calls f h =
      let same : calls ≡ calls + 0 = omega arith in
      (
        n,
        ap (λ (c : ℕ). (Pages.added n, c)) same,
        record {
          added = [];
          at_end = sym (append-nil n.segs);
          alike = tt;
          counted = omega arith;
          sector = refl;
          disk = refl;
        },
      )
  add_pages-IsAdded n (v ∷ vs) calls f h =
      let v' : BioVec = record v { bv_page = calls } in
      let n' : Bio = record n {
        segs = n.segs ++ v' ∷ [];
        bi_vcnt = n.bi_vcnt + 1;
        sectors = total (n.segs ++ v' ∷ []) / 512;
      } in
      let longer = length-append n.segs (v' ∷ []) in
      let (n'', runs, is_added) = add_pages-IsAdded n' vs (calls + 1) f.1 (omega (arith, longer)) in
      let fits : ltb page_size v.bv_len ≡ false = ground (arith, f.0) in
      let count : calls + suc (length vs) ≡ calls + 1 + length vs = omega arith in
      (
        n'',
        rw
            (
              fits,
              add_pages,
              grants.granted calls,
              k.bio_add_page_room n v' (grants.apart n v') (omega arith),
              count,
            )
            runs,
        record {
          added = v' ∷ is_added.added;
          at_end = is_added.at_end ∙ append_assoc n.segs (v' ∷ []) is_added.added;
          alike = (refl, refl, is_added.alike);
          counted = omega (arith, is_added.counted);
          sector = is_added.sector;
          disk = is_added.disk;
        },
      )

  pub pcievdrv_submit_verify-IsRead :
      (bio : Bio) (calls : ℕ)
      → AllFit bio.segs
      → length bio.segs ≤ bio.bi_vcnt
      → (n_bio : Bio) × (pcievdrv_submit_verify k bio calls
          ≡ (Verify.read_first n_bio bio, [], calls + length bio.segs))
        × IsRead n_bio bio
  unfolding pcievdrv_submit_verify
  pcievdrv_submit_verify-IsRead bio calls f h =
      let (no_segs, room, none_yet, _) = k.bio_alloc_lem bio.bi_vcnt in
      let no_length : length (k.bio_alloc bio.bi_vcnt).segs ≡ 0 = ap length no_segs in
      let (n', runs, is_added) =
        add_pages-IsAdded (read_bio k bio) bio.segs calls f (omega (arith, no_length, room)) in
      let read = record n' { dir = Direction.read } in
      (
        read,
        rw (runs, finish_verify) refl,
        record {
          alike =
              subst (λ (l : List BioVec). Matches l bio.segs)
                (sym (is_added.at_end ∙ ap (λ (l : List BioVec). l ++ is_added.added) no_segs))
                is_added.alike;
          counted = omega (arith, is_added.counted, none_yet);
          sector = is_added.sector;
          disk = is_added.disk;
          reads = refl;
        },
      )

  -- Where each allocation of a page succeeds and no page is merged into an entry, and the write bio
  -- has kept all its entries, each of at least a byte and at most a page, with its iterator at the
  -- start: the read bio is made, a read of the same sectors of the same disk, and its completion
  -- submits the write bio with one call of `add_verify_task` for each segment, whatever becomes of
  -- these calls.
  pub write-submits :
      (bio : Bio) (calls : ℕ)
      → AllFit bio.segs
      → IsAtStart bio
      → length bio.segs ≡ bio.bi_vcnt
      → (n_bio : Bio) × (pcievdrv_submit_verify k bio calls
          ≡ (Verify.read_first n_bio bio, [], calls + length bio.segs))
        × IsRead n_bio bio
        × ((g : ℕ → Grants) (pages : ℕ → Page) (left : List BioVec)
            → (tasks : List (Option VerifyWorkParam)) × (pciev_read_bio_endio g pages n_bio bio left
                ≡ Completed.done tasks (map (λ v. v.bv_page) left) bio)
              × (length tasks ≡ length bio.segs))
  unfolding pciev_read_bio_endio
  write-submits bio calls f start h =
      let (n_bio, made, is_read) = pcievdrv_submit_verify-IsRead bio calls f (omega (arith, h)) in
      let same : (n_bio.bi_vcnt == bio.bi_vcnt) ≡ true = ground (arith, is_read.counted, h) in
      (
        n_bio,
        made,
        is_read,
        λ g pages left. (
          tasks_of g pages 0 bio.bi_sector n_bio.segs bio.segs,
          rw
              (
                same,
                walked-Matches n_bio bio is_read.alike start,
                verify_segments-tasks_of g pages 0 bio.bi_sector n_bio.segs bio.segs is_read.alike,
              )
              refl,
          length-tasks_of g pages 0 bio.bi_sector n_bio.segs bio.segs is_read.alike,
        ),
      )
