-- ===== src/Block/Cover.antt =====
-- Which sectors of the data disks the calls of `vpciedisk_submit_bio` cover.
use praid.Common.{ℕ, zero, suc, ◌+◌, ◌≤◌, ◌≡◌, refl, sym, ap₂, ◌∙◌, arith}
use praid.Common.{Option, none, some, List, [], ◌∷◌, ◌++◌, map}
use praid.Geometry.{chunk_end_sector}
use praid.Geometry.Locate.{Place, locate, locate_in_chunk}
use praid.Bio.{Bio, Disk, Direction, Kernel}
use praid.Pciedrv.{
  Verify, Release, Pages, pcievdrv_submit_verify, finish_verify, add_pages, read_bio,
}
use praid.Block.{Call, aim, dispatch, releases, bio_submit}
use mathlib.Core.List.{append_assoc, append-nil}

abbrev pub sector_range : ℕ → ℕ → List ℕ
sector_range s zero = []
sector_range s (suc n) = s ∷ sector_range (s + 1) n

-- The `n` sectors of one disk from a place on.
abbrev pub run_of : Place → ℕ → List Place
run_of p zero = []
run_of p (suc n) = p ∷ run_of (record p { sector = p.sector + 1 }) n

-- The disk sectors that a bio covers; only bios of data disks have any.
abbrev pub places_of : Bio → List Place
places_of b = elim b.bi_bdev [
  | Disk.array ↦ []
  | Disk.verify ↦ []
  | Disk.nvme d ↦ run_of (record { dev = d; sector = b.bi_sector }) b.sectors
]

-- The data sectors that a call reads or writes: for a write, those of the write bio, which the
-- completion of the read bio submits.
abbrev pub covered : List Call → List Place
covered [] = []
covered (Call.bio_chain c p ∷ cs) = covered cs
covered (Call.submit b ∷ cs) = places_of b ++ covered cs
covered (Call.submit_verify (Verify.read_first n b) ∷ cs) = places_of b ++ covered cs
covered (Call.submit_verify Verify.err_ptr ∷ cs) = covered cs
covered (Call.submit_verify Verify.bug ∷ cs) = covered cs
covered (Call.bio_io_error b ∷ cs) = covered cs
covered (Call.release r ∷ cs) = covered cs

-- No call of the list reports a failure.
abbrev pub IsClean : List Call → Type 0
IsClean [] = Unit
IsClean (Call.submit_verify Verify.err_ptr ∷ cs) = ⊥
IsClean (Call.submit_verify Verify.bug ∷ cs) = ⊥
IsClean (Call.bio_io_error b ∷ cs) = ⊥
IsClean (_ ∷ cs) = IsClean cs

pub covered-append : (cs ds : List Call) → covered (cs ++ ds) ≡ covered cs ++ covered ds
covered-append [] ds = refl
covered-append (Call.bio_chain c p ∷ cs) ds = covered-append cs ds
covered-append (Call.submit b ∷ cs) ds = simp (covered-append cs ds, append_assoc)
covered-append (Call.submit_verify (Verify.read_first n b) ∷ cs) ds =
    simp (covered-append cs ds, append_assoc)
covered-append (Call.submit_verify Verify.err_ptr ∷ cs) ds = covered-append cs ds
covered-append (Call.submit_verify Verify.bug ∷ cs) ds = covered-append cs ds
covered-append (Call.bio_io_error b ∷ cs) ds = covered-append cs ds
covered-append (Call.release r ∷ cs) ds = covered-append cs ds

pub IsClean-append : (cs ds : List Call) → IsClean (cs ++ ds) → IsClean cs × IsClean ds
IsClean-append [] ds h = (tt, h)
IsClean-append (Call.submit_verify Verify.err_ptr ∷ cs) ds h = elim h [ ]
IsClean-append (Call.submit_verify Verify.bug ∷ cs) ds h = elim h [ ]
IsClean-append (Call.bio_io_error b ∷ cs) ds h = elim h [ ]
IsClean-append (Call.submit_verify (Verify.read_first n b) ∷ cs) ds h = IsClean-append cs ds h
IsClean-append (Call.bio_chain c p ∷ cs) ds h = IsClean-append cs ds h
IsClean-append (Call.submit b ∷ cs) ds h = IsClean-append cs ds h
IsClean-append (Call.release r ∷ cs) ds h = IsClean-append cs ds h

covered-releases : (rs : List Release) (cs : List Call) → covered (releases rs ++ cs) ≡ covered cs
unfolding releases
covered-releases [] cs = refl
covered-releases (r ∷ rs) cs = covered-releases rs cs

IsClean-releases : (rs : List Release) (cs : List Call) → IsClean (releases rs ++ cs) → IsClean cs
unfolding releases
IsClean-releases [] cs h = h
IsClean-releases (r ∷ rs) cs h = IsClean-releases rs cs h

pub range-append : (s m n : ℕ) → sector_range s (m + n) ≡ sector_range s m ++ sector_range (s + m) n
range-append s zero n = ap₂ sector_range (omega arith) (omega arith)
range-append s (suc m) n =
    let count : suc m + n ≡ suc (m + n) = omega arith in
    let start : s + suc m ≡ s + 1 + m = omega arith in rw (count, start, range-append (s + 1) m n)

-- Inside one chunk the places follow one another on one disk.
range-in_chunk :
    (n s j m : ℕ)
    → s + (j + m) ≤ chunk_end_sector s + 1
    → map (locate n) (sector_range (s + j) m)
      ≡ run_of (record { dev = (locate n s).dev; sector = (locate n s).sector + j }) m
range-in_chunk n s j zero h = refl
range-in_chunk n s j (suc m) h =
    let next : s + j + 1 ≡ s + (j + 1) = omega arith in
    let step : (locate n s).sector + j + 1 ≡ (locate n s).sector + (j + 1) = omega arith in
    rw (next, step)
      (ap₂ ◌∷◌ (locate_in_chunk n s j (omega arith)) (range-in_chunk n s (j + 1) m (omega arith)))

module _ (k : Kernel) (n : ℕ) where
  finish-covered :
      (b : Bio) (p : Pages)
      → let r = finish_verify k b p in
        IsClean (releases r.1 ++ Call.submit_verify r.0 ∷ [])
        → covered (releases r.1 ++ Call.submit_verify r.0 ∷ []) ≡ places_of b
  unfolding finish_verify releases
  finish-covered b (Pages.added m) h = append-nil _
  finish-covered b Pages.out_bio h = elim h [ ]
  finish-covered b (Pages.out_page p) h = elim h [ ]
  finish-covered b Pages.too_long h = elim h [ ]

  dispatch-covered :
      (d : Direction) (b : Bio) (calls : ℕ)
      → IsClean (dispatch k n d b calls).0
      → covered (dispatch k n d b calls).0 ≡ places_of b
  unfolding dispatch pcievdrv_submit_verify
  dispatch-covered Direction.read b calls h = append-nil _
  dispatch-covered Direction.write b calls h =
      finish-covered b (add_pages k (read_bio k b) b.segs calls).0 h

  places_of-aim :
      (b : Bio) (sta : ℕ)
      → sta + b.sectors ≤ chunk_end_sector sta + 1
      → places_of (aim k n b sta) ≡ map (locate n) (sector_range sta b.sectors)
  unfolding aim locate
  places_of-aim b sta h =
      let base : sta + 0 ≡ sta = omega arith in
      let base' : (locate n sta).sector + 0 ≡ (locate n sta).sector = omega arith in
      sym (rw (base, base') at (range-in_chunk n sta 0 b.sectors (omega arith)))

  -- A round that reports no failure covers the sectors of its bio.
  pub bio_submit-covered :
      (parent : Option Bio) (b : Bio) (sta calls : ℕ)
      → sta + b.sectors ≤ chunk_end_sector sta + 1
      → IsClean (bio_submit k n parent b sta calls).0
      → covered (bio_submit k n parent b sta calls).0 ≡ map (locate n) (sector_range sta b.sectors)
  unfolding bio_submit
  bio_submit-covered none b sta calls fits clean =
      dispatch-covered b.dir (aim k n b sta) calls clean ∙ places_of-aim b sta fits
  bio_submit-covered (some p) b sta calls fits clean =
      dispatch-covered b.dir (aim k n b sta) calls clean ∙ places_of-aim b sta fits
