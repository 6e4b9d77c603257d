-- ===== src/Block/View.antt =====
-- The array as one disk: what a bio of the array does to the sectors of the data disks is what it
-- says of the sectors of the array.
use praid.Common.{
  ℕ, zero, suc, ◌+◌, ◌-◌, ◌<◌, ◌≡◌, sym, ap, ap₂, ◌∙◌, arith, Bool-cases, inl, inr, some, List, [],
  ◌∷◌, map, leb, ltb, ◌&&◌, ◌==◌, if◌then◌else◌,
}
use praid.Geometry.Locate.{Place, locate, array_sector, array_sector-locate}
use praid.Bio.{Bio, Kernel}
use praid.Block.{Call, vpciedisk_submit_bio}
use praid.Block.Cover.{sector_range, covered, IsClean}
use mathlib.Core.List.{map-map}
use praid.Block.Submit.{vpciedisk_submit_bio-covers}

pub locate_injective :
    (n s t : ℕ)
    → (locate n t).dev ≡ (locate n s).dev
    → (locate n t).sector ≡ (locate n s).sector
    → t ≡ s
locate_injective n s t e e' =
    sym (array_sector-locate n t)
    ∙ ap₂ (λ d x. array_sector n (record { dev = d; sector = x })) e e'
    ∙ array_sector-locate n s

module _ {A : Type 0} where
  -- The data disks, each a function from its sectors to what they hold, as one disk.
  abbrev pub view : ℕ → (ℕ → ℕ → A) → ℕ → A
  view n disks s = disks (locate n s).dev (locate n s).sector

  abbrev put : (ℕ → ℕ → A) → Place → A → ℕ → ℕ → A
  put disks p v dev s = if dev == p.dev && s == p.sector then v else disks dev s

  -- The sectors at a list of places are written one after the other, from `data j` on.
  abbrev pub write_places : (ℕ → ℕ → A) → List Place → (ℕ → A) → ℕ → ℕ → ℕ → A
  write_places disks [] data_ j = disks
  write_places disks (p ∷ ps) data_ j = write_places (put disks p (data_ j)) ps data_ (j + 1)

  -- One disk with the sectors from `s` on written.
  abbrev pub write_sectors : (ℕ → A) → ℕ → ℕ → (ℕ → A) → ℕ → A
  write_sectors disk s m data_ t = if leb s t && ltb t (s + m) then data_ (t - s) else disk t

  view-put :
      (n : ℕ) (disks : ℕ → ℕ → A) (s t : ℕ) (v : A)
      → view n (put disks (locate n s) v) t ≡ (if s == t then v else view n disks t)
  view-put n disks s t v = elim (Bool-cases (s == t)) [
    | inl same ↦ let same' : s ≡ t = ground (arith, same) in rw (same, ← same') (ground arith)
    | inr other ↦ ground (arith, other, locate_injective n s t)
  ]

  view-write_places :
      (n : ℕ) (disks : ℕ → ℕ → A) (s m j t : ℕ) (data_ : ℕ → A)
      → view n (write_places disks (map (locate n) (sector_range s m)) data_ j) t
        ≡ write_sectors (view n disks) s m (λ x. data_ (j + x)) t
  view-write_places n disks s zero j t data_ = ground arith
  view-write_places n disks s (suc m) j t data_ =
      view-write_places n (put disks (locate n s) (data_ j)) (s + 1) m (j + 1) t data_
      ∙ elim (Bool-cases (s == t)) [
        | inl same ↦
            let first : j + (t - s) ≡ j = ground (arith, same) in
            ground (arith, same, view-put n disks s t (data_ j), ap data_ first)
        | inr other ↦
            let later : s < t → j + 1 + (t - (s + 1)) ≡ j + (t - s) = λ h. omega (arith, h) in
            ground
              (arith, other, view-put n disks s t (data_ j), (λ (h : s < t). ap data_ (later h)))
      ]

module _ {A : Type 0} (k : Kernel) (n : ℕ) (disks : ℕ → ℕ → A) where
  -- Where the loop ends with calls that report no failure, the array is one disk: writing data to
  -- the sectors that these calls cover, in order, writes them to the sectors of the bio and leaves
  -- all others, and reading the sectors that they cover reads the sectors of the bio, in order.
  pub vpciedisk_submit_bio-view :
      (fuel : ℕ) (bio : Bio) (calls : ℕ) {made : List Call} {calls' : ℕ}
      → vpciedisk_submit_bio k n fuel bio calls ≡ some (made, calls')
      → IsClean made
      → ((data_ : ℕ → A) (s : ℕ)
          → view n (write_places disks (covered made) data_ 0) s
            ≡ write_sectors (view n disks) bio.bi_sector bio.sectors data_ s)
        × (map (λ p. disks p.dev p.sector) (covered made)
            ≡ map (view n disks) (sector_range bio.bi_sector bio.sectors))
  vpciedisk_submit_bio-view fuel bio calls e clean =
      let same = vpciedisk_submit_bio-covers k n fuel bio calls e clean in
      (
        λ data_ s.
            let base : 0 + (s - bio.bi_sector) ≡ s - bio.bi_sector = omega arith in
            rw same (
              view-write_places n disks bio.bi_sector bio.sectors 0 s data_
              ∙ ground (arith, ap data_ base)),
        rw same (map-map _ _ _),
      )
