-- ===== src/Block/Submit.antt =====
-- What `vpciedisk_submit_bio` hands down to the data disks.
use praid.Common.{
  ℕ, ◌+◌, ◌/◌, ◌%◌, ◌≤◌, ◌≡◌, refl, sym, ap, ◌∙◌, arith, Bool-cases, inl, inr, true, false, Option,
  none, some, List, [], ◌∷◌, ◌++◌, map, ltb,
}
use praid.Geometry.{chunk_end_sector}
use praid.Geometry.Locate.{locate, sector_whole_to_i_lem}
use praid.Bio.{Bio, BioVec, Direction, Kernel, IsSplit, IsLonger, total}
use praid.Pciedrv.{
  page_size, Verify, Release, Pages, pcievdrv_submit_verify, finish_verify, add_pages, read_bio,
}
use praid.Block.{Call, releases, aim, dispatch, bio_submit, vpciedisk_submit_bio}
use praid.Block.Loop.{chunk_limit, cnt_sectors, made_rule}
use praid.Block.Cover.{
  sector_range, covered, IsClean, covered-append, IsClean-append, range-append, bio_submit-covered,
}
use mathlib.Core.List.{map-append}

-- A bio of a data disk that stays inside one chunk, and so has at most eight sectors.
abbrev pub InChunk : Bio → Type 0
InChunk b = b.bi_sector % 8 + b.sectors ≤ 8

-- A read of the sectors that a bio is for, of as many bytes as the bio has data.
pub record Precedes (n_bio bio : Bio) : Type 0 where
  pub disk : n_bio.bi_bdev ≡ bio.bi_bdev
  pub sector : n_bio.bi_sector ≡ bio.bi_sector
  pub sectors : n_bio.sectors ≡ total bio.segs / 512
  pub reads : n_bio.dir ≡ Direction.read

abbrev pub AllInChunk : List Call → Type 0
AllInChunk [] = Unit
AllInChunk (Call.submit b ∷ cs) = InChunk b × AllInChunk cs
AllInChunk (Call.submit_verify (Verify.read_first n b) ∷ cs) =
    Precedes n b × InChunk b × AllInChunk cs
AllInChunk (_ ∷ cs) = AllInChunk cs

AllInChunk-append : (cs ds : List Call) → AllInChunk cs → AllInChunk ds → AllInChunk (cs ++ ds)
AllInChunk-append [] ds h g = g
AllInChunk-append (Call.submit b ∷ cs) ds h g = (h.0, AllInChunk-append cs ds h.1 g)
AllInChunk-append (Call.submit_verify (Verify.read_first n b) ∷ cs) ds h g =
    (h.0, h.1, AllInChunk-append cs ds h.2 g)
AllInChunk-append (Call.submit_verify Verify.err_ptr ∷ cs) ds h g = AllInChunk-append cs ds h g
AllInChunk-append (Call.submit_verify Verify.bug ∷ cs) ds h g = AllInChunk-append cs ds h g
AllInChunk-append (Call.bio_io_error b ∷ cs) ds h g = AllInChunk-append cs ds h g
AllInChunk-append (Call.bio_chain c p ∷ cs) ds h g = AllInChunk-append cs ds h g
AllInChunk-append (Call.release r ∷ cs) ds h g = AllInChunk-append cs ds h g

AllInChunk-releases : (rs : List Release) → AllInChunk (releases rs)
unfolding releases
AllInChunk-releases [] = tt
AllInChunk-releases (r ∷ rs) = AllInChunk-releases rs

module _ (k : Kernel) (n : ℕ) where
  -- What the loop over the segments `vs` has made of a bio.
  abbrev Extends : Bio → List BioVec → Pages → Type 0
  Extends m vs (Pages.added m') =
      (m'.bi_bdev ≡ m.bi_bdev)
      × (m'.bi_sector ≡ m.bi_sector)
      × (m'.sectors ≡ (total m.segs + total vs) / 512)
  Extends m vs Pages.out_bio = Unit
  Extends m vs (Pages.out_page p) = Unit
  Extends m vs Pages.too_long = Unit

  Extends-more :
      (m m' : Bio) (v : BioVec) (vs : List BioVec) (p : Pages)
      → IsLonger m v m'
      → Extends m' vs p
      → Extends m (v ∷ vs) p
  Extends-more m m' v vs (Pages.added m'') longer (disk, sector, size) =
      let sum : total m'.segs + total vs ≡ total m.segs + (v.bv_len + total vs) =
        omega (arith, longer.bytes) in
      (disk ∙ longer.disk, sector ∙ longer.sector, size ∙ ap (λ (s : ℕ). s / 512) sum)
  Extends-more m m' v vs Pages.out_bio longer e = tt
  Extends-more m m' v vs (Pages.out_page p) longer e = tt
  Extends-more m m' v vs Pages.too_long longer e = tt

  add_page-Extends :
      (m : Bio) (v : BioVec) (vs : List BioVec) (calls : ℕ)
      → ltb page_size v.bv_len ≡ false
      → k.alloc_page calls ≡ true
      → ((m' : Bio)
          → m'.sectors ≡ total m'.segs / 512
          → Extends m' vs (add_pages k m' vs (calls + 1)).0)
      → (o : Option Bio) → k.bio_add_page m (record v { bv_page = calls }) ≡ o
      → Extends m (v ∷ vs) (add_pages k m (v ∷ vs) calls).0
  unfolding add_pages
  add_page-Extends m v vs calls fits page later none e = rw (fits, page, e, add_pages) tt
  add_page-Extends m v vs calls fits page later (some m') e =
      let longer = k.bio_add_page_lem m (record v { bv_page = calls }) e in
      rw (fits, page, e, add_pages)
        (Extends-more m m' (record v { bv_page = calls }) vs _ longer (later m' longer.counted))

  add_pages-Extends :
      (m : Bio) (vs : List BioVec) (calls : ℕ)
      → m.sectors ≡ total m.segs / 512
      → Extends m vs (add_pages k m vs calls).0
  unfolding add_pages
  add_pages-Extends m [] calls size = (refl, refl, size ∙ ap (λ (s : ℕ). s / 512) (omega arith))
  add_pages-Extends m (v ∷ vs) calls size = elim (Bool-cases (ltb page_size v.bv_len)) [
    | inl long ↦ rw (long, add_pages) tt
    | inr fits ↦ elim (Bool-cases (k.alloc_page calls)) [
      | inr no_page ↦ rw (fits, no_page, add_pages) tt
      | inl page ↦
          add_page-Extends m v vs calls fits page
            (λ m' size'. add_pages-Extends m' vs (calls + 1) size')
            (k.bio_add_page m (record v { bv_page = calls })) refl
    ]
  ]

  finish-InChunk :
      (b : Bio) (p : Pages)
      → Extends (read_bio k b) b.segs p
      → InChunk b
      → AllInChunk
          (releases (finish_verify k b p).1 ++ Call.submit_verify (finish_verify k b p).0 ∷ [])
  unfolding finish_verify releases read_bio
  finish-InChunk b (Pages.added m) (disk, sector, size) h =
      let (no_segs, _, _, _) = k.bio_alloc_lem b.bi_vcnt in
      let bytes : total (k.bio_alloc b.bi_vcnt).segs + total b.segs ≡ total b.segs =
        omega (arith, ap total no_segs) in
      (
        record {
          disk = disk;
          sector = sector;
          sectors = size ∙ ap (λ (s : ℕ). s / 512) bytes;
          reads = refl;
        },
        h,
        tt,
      )
  finish-InChunk b Pages.out_bio e h = tt
  finish-InChunk b (Pages.out_page p) e h = tt
  finish-InChunk b Pages.too_long e h = tt

  dispatch-InChunk :
      (d : Direction) (b : Bio) (calls : ℕ) → InChunk b → AllInChunk (dispatch k n d b calls).0
  unfolding dispatch pcievdrv_submit_verify read_bio
  dispatch-InChunk Direction.read b calls h = (h, tt)
  dispatch-InChunk Direction.write b calls h =
      let (no_segs, _, _, no_size) = k.bio_alloc_lem b.bi_vcnt in
      finish-InChunk b (add_pages k (read_bio k b) b.segs calls).0
        (add_pages-Extends (read_bio k b) b.segs calls
          (no_size ∙ ap (λ l. total l / 512) (sym no_segs)))
        h

  aim-InChunk :
      (b : Bio) (sta : ℕ) → sta + b.sectors ≤ chunk_end_sector sta + 1 → InChunk (aim k n b sta)
  unfolding aim chunk_end_sector
  aim-InChunk b sta h = omega (arith, sector_whole_to_i_lem sta n)

  bio_submit-InChunk :
      (parent : Option Bio) (b : Bio) (sta calls : ℕ)
      → sta + b.sectors ≤ chunk_end_sector sta + 1
      → AllInChunk (bio_submit k n parent b sta calls).0
  unfolding bio_submit
  bio_submit-InChunk none b sta calls h = dispatch-InChunk b.dir _ calls (aim-InChunk b sta h)
  bio_submit-InChunk (some p) b sta calls h = dispatch-InChunk b.dir _ calls (aim-InChunk b sta h)

  -- Where the loop ends, every bio that it hands to a data disk, alone or behind its read bio,
  -- lies inside one chunk of that disk, and the read bio in front of it is a read of the same disk from
  -- the same sector on, of as many bytes as the bio has data; also in a run that reports a failure.
  pub vpciedisk_submit_bio-InChunk :
      (fuel : ℕ) (bio : Bio) (calls : ℕ) {made : List Call} {calls' : ℕ}
      → vpciedisk_submit_bio k n fuel bio calls ≡ some (made, calls')
      → AllInChunk made
  vpciedisk_submit_bio-InChunk =
      made_rule k n (λ _ made. AllInChunk made)
        (λ bio calls h. bio_submit-InChunk none bio bio.bi_sector calls h) (λ bio. tt)
        (λ bio child rest calls later meets split h.
          AllInChunk-append (bio_submit k n (some rest) child bio.bi_sector calls).0 later
            (bio_submit-InChunk (some rest) child bio.bi_sector calls
              (omega (arith, split.child_sectors)))
            h)

  Covers : Bio → List Call → Type 0
  Covers bio made =
      IsClean made → covered made ≡ map (locate n) (sector_range bio.bi_sector bio.sectors)

  Covers-more :
      (bio child rest : Bio) (calls : ℕ) (later : List Call)
      → bio.bi_sector + cnt_sectors bio ≡ chunk_limit bio
      → IsSplit bio (cnt_sectors bio) child rest
      → Covers rest later
      → Covers bio ((bio_submit k n (some rest) child bio.bi_sector calls).0 ++ later)
  unfolding Covers
  Covers-more bio child rest calls later meets split h clean =
      let piece : List Call = (bio_submit k n (some rest) child bio.bi_sector calls).0 in
      let (clean_piece, clean_later) = IsClean-append piece later clean in
      let front =
        bio_submit-covered k n (some rest) child bio.bi_sector calls
          (omega (arith, split.child_sectors)) clean_piece in
      let sum : bio.sectors ≡ child.sectors + rest.sectors =
        omega (arith, split.child_sectors, split.rest_sectors) in
      let start : rest.bi_sector ≡ bio.bi_sector + child.sectors =
        omega (arith, split.rest_sector, split.child_sectors) in
      rw (
        covered-append piece later,
        front,
        h clean_later,
        sum,
        start,
        range-append bio.bi_sector child.sectors rest.sectors,
        map-append,
      )

  -- Where the loop ends with calls that report no failure, these hand down exactly the sectors of
  -- the bio, each once and in order, at their places on the data disks.
  pub vpciedisk_submit_bio-covers :
      (fuel : ℕ) (bio : Bio) (calls : ℕ) {made : List Call} {calls' : ℕ}
      → vpciedisk_submit_bio k n fuel bio calls ≡ some (made, calls')
      → IsClean made
      → covered made ≡ map (locate n) (sector_range bio.bi_sector bio.sectors)
  unfolding Covers
  vpciedisk_submit_bio-covers =
      made_rule k n Covers (λ bio calls h. bio_submit-covered k n none bio bio.bi_sector calls h)
        (λ bio c. elim c [ ]) Covers-more
