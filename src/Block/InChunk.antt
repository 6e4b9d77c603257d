-- ===== src/Block/InChunk.antt =====
-- block.c, a write that stays inside one chunk, and one that goes over the end of its chunk.
use praid.Common.{
  none, ltb, Option, ℕ, suc, ◌+◌, ◌-◌, ◌≤◌, ◌<◌, ◌≡◌, refl, ap, ◌∙◌, arith, true, false, some, List,
  [], ◌∷◌, ◌++◌, length, leb,
}
use praid.Bio.{Bio, BioVec, Direction, Kernel, bio_end_sector, GivesPages}
use praid.Geometry.{chunk_end_sector}
use praid.Geometry.Locate.{chunk_end_lem}
use praid.Block.{Call, aim, dispatch, bio_submit, vpciedisk_submit_bio, releases}
use praid.Block.Loop.{vpciedisk_submit_bio-ends}
use praid.Pciedrv.{
  page_size, Verify, Release, Pages, add_pages, read_bio, finish_verify, pcievdrv_submit_verify,
}
use praid.Pciedrv.Write.{AllFit}
use praid.Pciedrv.Read.{made_read, pcievdrv_submit_verify-made_read}

module _ (k : Kernel) (n : ℕ) (bio : Bio) where
  -- The bio that goes to the data disk.
  abbrev pub sole_piece : Bio
  sole_piece = aim k n bio bio.bi_sector

  -- The only call that `vpciedisk_submit_bio` makes for a write inside one chunk.
  abbrev pub verified : ℕ → Call
  verified calls = Call.submit_verify (Verify.read_first (made_read k sole_piece calls) sole_piece)

  pub submit-verified :
      GivesPages k
      → (fuel calls : ℕ) → bio.dir ≡ Direction.write
      → bio_end_sector bio ≤ chunk_end_sector bio.bi_sector + 1
      → AllFit bio.segs
      → length bio.segs ≤ bio.bi_vcnt
      → vpciedisk_submit_bio k n (suc fuel) bio calls
        ≡ some (verified calls ∷ [], calls + length bio.segs)
  unfolding vpciedisk_submit_bio dispatch aim
  submit-verified pages_left fuel calls writes inside fits entries =
      let test : leb (bio_end_sector bio) (chunk_end_sector bio.bi_sector + 1) ≡ true =
        ground (arith, inside) in
      let made = pcievdrv_submit_verify-made_read k pages_left sole_piece calls fits entries in
      let one_round : vpciedisk_submit_bio k n (suc fuel) bio calls
          ≡ some (dispatch k n bio.dir sole_piece calls) =
        rw (test, vpciedisk_submit_bio) refl in
      let read_first : dispatch k n Direction.write sole_piece calls
          ≡ (verified calls ∷ [], calls + length bio.segs) =
        rw (made, dispatch) refl in
      one_round ∙ ap some (ap (λ d. dispatch k n d sole_piece calls) writes ∙ read_first)

module _ (k : Kernel) (n : ℕ) where
  -- `bio_alloc` for no entry gives a bio that takes no page.
  no_entry :
      (bio : Bio) (calls : ℕ) (v : BioVec) (vs : List BioVec)
      → bio.bi_vcnt ≡ 0
      → bio.segs ≡ v ∷ vs
      → v.bv_len ≤ page_size
      → k.alloc_page calls ≡ true
      → pcievdrv_submit_verify k bio calls
        ≡ (Verify.err_ptr, Release.free_page calls ∷ Release.bio_put bio ∷ [], calls + 1)
  unfolding pcievdrv_submit_verify add_pages read_bio finish_verify
  no_entry bio calls v vs none_kept segs fits page =
      let (no_segs, _, _, _) = k.bio_alloc_lem bio.bi_vcnt in
      let no_room : (read_bio k bio).max_vecs ≡ 0 =
        ap (λ (i : ℕ). (k.bio_alloc i).max_vecs) none_kept ∙ k.bio_alloc_none in
      let v' : BioVec = record v { bv_page = calls } in
      let refused : k.bio_add_page (read_bio k bio) v' ≡ none =
        k.bio_add_page_full (read_bio k bio) v' (k.merges_none (read_bio k bio) v' no_segs)
          (omega (arith, no_room)) in
      let small : ltb page_size v.bv_len ≡ false = ground (arith, fits) in
      let loop : add_pages k (read_bio k bio) (v ∷ vs) calls ≡ (Pages.out_page calls, calls + 1) =
        rw (small, page, refused, add_pages) refl in
      let pages = ap (λ (l : List BioVec). add_pages k (read_bio k bio) l calls) segs ∙ loop in
      ap (λ p. ((finish_verify k bio p.0).0, (finish_verify k bio p.0).1, p.1)) pages

  refused_call :
      (bio : Bio) (calls : ℕ) (v : BioVec) (vs : List BioVec)
      → bio.bi_vcnt ≡ 0
      → bio.segs ≡ v ∷ vs
      → v.bv_len ≤ page_size
      → k.alloc_page calls ≡ true
      → dispatch k n Direction.write bio calls ≡ (
        Call.release (Release.free_page calls)
            ∷ Call.release (Release.bio_put bio)
            ∷ Call.submit_verify Verify.err_ptr
            ∷ [],
        calls + 1,
      )
  unfolding dispatch releases
  refused_call bio calls v vs none_kept segs fits page =
      rw (no_entry bio calls v vs none_kept segs fits page, dispatch) refl

  -- A write bio that goes over the end of its chunk, whose front `bio_split` makes as a bio without
  -- entries of its own (`bi_vcnt` 0), over the segments of its sectors, the first of at most a page;
  -- where the first page is granted and the fuel is more than the sectors of the rest: the split
  -- loop ends, and its first call of `submit_bio` takes the error pointer of
  -- `pcievdrv_submit_verify`, which has given the page and the front back.
  pub crossing-err_ptr :
      (bio child rest : Bio) (fuel calls : ℕ) (v : BioVec) (vs : List BioVec)
      → bio.dir ≡ Direction.write
      → chunk_end_sector bio.bi_sector + 1 < bio_end_sector bio
      → k.bio_split bio (chunk_end_sector bio.bi_sector - bio.bi_sector + 1) ≡ some (child, rest)
      → child.bi_vcnt ≡ 0
      → child.segs ≡ v ∷ vs
      → v.bv_len ≤ page_size
      → k.alloc_page calls ≡ true
      → rest.sectors < fuel
      → (later : List Call) × (calls' : ℕ) × (vpciedisk_submit_bio k n (suc fuel) bio calls
          ≡ some (
            Call.bio_chain (aim k n child bio.bi_sector) rest
                ∷ Call.release (Release.free_page calls)
                ∷ Call.release (Release.bio_put (aim k n child bio.bi_sector))
                ∷ Call.submit_verify Verify.err_ptr
                ∷ later,
            calls',
          ))
  unfolding vpciedisk_submit_bio bio_submit aim
  crossing-err_ptr bio child rest fuel calls v vs writes over split none_kept segs fits page
        enough =
      let test : leb (bio_end_sector bio) (chunk_end_sector bio.bi_sector + 1) ≡ false =
        ground (arith, over) in
      let is_split =
        k.bio_split_lem bio (chunk_end_sector bio.bi_sector - bio.bi_sector + 1)
          (omega (arith, over, (chunk_end_lem bio.bi_sector).0)) split in
      let way : child.dir ≡ Direction.write = is_split.child_dir ∙ writes in
      let front : dispatch k n child.dir (aim k n child bio.bi_sector) calls ≡ _ =
        ap (λ d. dispatch k n d (aim k n child bio.bi_sector) calls) way
        ∙ refused_call (aim k n child bio.bi_sector) calls v vs none_kept segs fits page in
      let (later, calls', ends) = vpciedisk_submit_bio-ends k n fuel rest (calls + 1) enough in
      let go : List Call × ℕ → Option (List Call × ℕ) = λ made.
        elim (vpciedisk_submit_bio k n fuel rest made.1) [
          | none ↦ none
          | some after ↦ some (made.0 ++ after.0, after.1)
        ] in
      let one_round : vpciedisk_submit_bio k n (suc fuel) bio calls
          ≡ go (bio_submit k n (some rest) child bio.bi_sector calls) =
        rw (test, split, vpciedisk_submit_bio) refl in
      let piece =
        ap (λ made. (Call.bio_chain (aim k n child bio.bi_sector) rest ∷ made.0, made.1)) front in
      (later, calls', one_round ∙ ap go piece ∙ rw ends refl)
