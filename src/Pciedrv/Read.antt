-- ===== src/Pciedrv/Read.antt =====
-- The read bio of `pcievdrv_submit_verify`, written out.
use praid.Common.{
  ℕ, suc, ◌+◌, ◌/◌, ◌≤◌, ◌≡◌, refl, sym, ap, ◌∙◌, arith, false, List, [], ◌∷◌, ◌++◌, length, ltb,
  length-append,
}
use praid.Bio.{Bio, BioVec, Direction, Kernel, total, GivesPages}
use praid.Pciedrv.{
  page_size, Verify, Pages, add_pages, read_bio, finish_verify, pcievdrv_submit_verify,
}
use praid.Pciedrv.Write.{AllFit, Matches}
use mathlib.Core.List.{append_assoc, append-nil}

-- The segments of a write bio, in the pages that `alloc_page` gives from its call number `calls` on.
abbrev pub read_segs : ℕ → List BioVec → List BioVec
read_segs calls [] = []
read_segs calls (v ∷ vs) = record v { bv_page = calls } ∷ read_segs (calls + 1) vs

pub read_segs-Matches : (calls : ℕ) (vs : List BioVec) → Matches (read_segs calls vs) vs
read_segs-Matches calls [] = tt
read_segs-Matches calls (v ∷ vs) = (refl, refl, read_segs-Matches (calls + 1) vs)

module _ (k : Kernel) where
  abbrev pub made_read : Bio → ℕ → Bio
  made_read bio calls = record (read_bio k bio) {
    segs = read_segs calls bio.segs;
    bi_vcnt = length bio.segs;
    sectors = total (read_segs calls bio.segs) / 512;
    dir = Direction.read;
  }

  module _ (grants : GivesPages k) where
    add_pages_lem :
        (n : Bio) (vs : List BioVec) (calls : ℕ)
        → AllFit vs
        → length n.segs + length vs ≤ n.max_vecs
        → n.sectors ≡ total n.segs / 512
        → add_pages k n vs calls ≡ (
          Pages.added (record n {
            segs = n.segs ++ read_segs calls vs;
            bi_vcnt = n.bi_vcnt + length vs;
            sectors = total (n.segs ++ read_segs calls vs) / 512;
          }),
          calls + length vs,
        )
    unfolding add_pages
    add_pages_lem n [] calls f h size =
        let same : calls + 0 ≡ calls = omega arith in
        let count : n.bi_vcnt + 0 ≡ n.bi_vcnt = omega arith in
        rw (same, count, append-nil n.segs, ← size) refl
    add_pages_lem n (v ∷ vs) calls f h size =
        let v' : BioVec = record v { bv_page = calls } in
        let n' : Bio = record n {
          segs = n.segs ++ v' ∷ [];
          bi_vcnt = n.bi_vcnt + 1;
          sectors = total (n.segs ++ v' ∷ []) / 512;
        } in
        let longer = length-append n.segs (v' ∷ []) in
        let fits : ltb page_size v.bv_len ≡ false = ground (arith, f.0) in
        let calls' : calls + suc (length vs) ≡ calls + 1 + length vs = omega arith in
        let count : n.bi_vcnt + suc (length vs) ≡ n.bi_vcnt + 1 + length vs = omega arith in
        rw
          (
            fits,
            add_pages,
            grants.granted calls,
            k.bio_add_page_room n v' (grants.apart n v') (omega arith),
            calls',
            count,
            ← append_assoc n.segs (v' ∷ []) (read_segs (calls + 1) vs),
          )
          (add_pages_lem n' vs (calls + 1) f.1 (omega (arith, longer)) refl)

    -- Where each allocation of a page succeeds, each segment has at most a page, and the entries
    -- are enough: the read bio has the segments of the write bio in new pages.
    pub pcievdrv_submit_verify-made_read :
        (bio : Bio) (calls : ℕ)
        → AllFit bio.segs
        → length bio.segs ≤ bio.bi_vcnt
        → pcievdrv_submit_verify k bio calls
          ≡ (Verify.read_first (made_read bio calls) bio, [], calls + length bio.segs)
    unfolding pcievdrv_submit_verify read_bio finish_verify
    pcievdrv_submit_verify-made_read bio calls f h =
        let (no_segs, room, none_yet, no_size) = k.bio_alloc_lem bio.bi_vcnt in
        let no_length : length (k.bio_alloc bio.bi_vcnt).segs ≡ 0 = ap length no_segs in
        let added =
          add_pages_lem (read_bio k bio) bio.segs calls f (omega (arith, no_length, room))
            (no_size ∙ ap (λ l. total l / 512) (sym no_segs)) in
        let count : (k.bio_alloc bio.bi_vcnt).bi_vcnt + length bio.segs ≡ length bio.segs =
          omega (arith, none_yet) in
        rw (added, count, no_segs, finish_verify) refl
