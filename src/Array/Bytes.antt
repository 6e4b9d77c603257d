-- ===== src/Array/Bytes.antt =====
-- What the segments of a write bio put on the disks, byte by byte, and what the array then holds.
use praid.Common.{
  ℕ, ◌+◌, ◌-◌, ◌*◌, ◌/◌, ◌≤◌, ◌<◌, ◌≡◌, ap, ◌∙◌, arith, Bool-cases, inl, inr, false, List, [], ◌∷◌,
  leb, ltb, ◌&&◌, ◌==◌, if◌then◌else◌,
}
use praid.Bio.{BioVec}
use praid.Geometry.{chunk_end_sector}
use praid.Geometry.Locate.{locate, locate_in_chunk}
use praid.Block.View.{view, write_sectors, locate_injective}
use praid.Pciedrv.Completion.{Page}
use praid.Pciedrv.Tasks.{WholeSectors}
use praid.Device.Word.{Memory}
use praid.Parity.{write_disk}
use praid.Array.Queue.{write_segments}

-- The number of bytes of a bio, and its i-th byte.
abbrev pub bytes_in : List BioVec → ℕ
bytes_in [] = 0
bytes_in (v ∷ vs) = v.bv_len + bytes_in vs

abbrev pub byte_at : (ℕ → Page) → List BioVec → ℕ → ℕ
byte_at pages [] i = 0
byte_at pages (v ∷ vs) i =
    if ltb i v.bv_len then pages v.bv_page (v.bv_offset + i) else byte_at pages vs (i - v.bv_len)

-- The sectors of the disks.
abbrev pub sectors_of : (ℕ → Memory) → ℕ → ℕ → ℕ → ℕ
sectors_of disks dev s x = disks dev (s * 512 + x)

-- The data of a bio as sectors.
abbrev pub sectors_in : (ℕ → Page) → List BioVec → ℕ → ℕ → ℕ
sectors_in pages vs j x = byte_at pages vs (j * 512 + x)

pub write_segments-byte :
    (disks : ℕ → Memory) (dev : ℕ) (pages : ℕ → Page) (pos : ℕ) (vs : List BioVec)
    → WholeSectors vs
    → (d a : ℕ)
    → write_segments disks dev pages pos vs d a ≡ (
        if (d == dev) && (leb (pos * 512) a && ltb a (pos * 512 + bytes_in vs))
        then byte_at pages vs (a - pos * 512)
        else disks d a)
write_segments-byte disks dev pages pos [] w d a = ground arith
write_segments-byte disks dev pages pos (v ∷ vs) (whole, w) d a =
    let next : (pos + v.bv_len / 512) * 512 ≡ pos * 512 + v.bv_len = omega (arith, whole) in
    let rest =
      write_segments-byte (write_disk disks dev (pos * 512) (pages v.bv_page) v.bv_offset v.bv_len)
        dev pages (pos + v.bv_len / 512) vs w d a in
    let place : a - (pos * 512 + v.bv_len) ≡ a - pos * 512 - v.bv_len = omega arith in
    (rw next at rest) ∙ ground (arith, ap (byte_at pages vs) place)

-- A sector of the array behind or in front of those of the bio lies elsewhere.
locate_elsewhere :
    (n s t m : ℕ)
    → s + m ≤ chunk_end_sector s + 1
    → (leb s t && ltb t (s + m)) ≡ false
    → ((locate n t).dev == (locate n s).dev
        && (leb (locate n s).sector (locate n t).sector
            && ltb (locate n t).sector ((locate n s).sector + m)))
      ≡ false
locate_elsewhere n s t m fits outside =
    let j : ℕ = (locate n t).sector - (locate n s).sector in
    elim (Bool-cases (
      (locate n t).dev == (locate n s).dev
      && (leb (locate n s).sector (locate n t).sector
          && ltb (locate n t).sector ((locate n s).sector + m)))) [
            | inr apart ↦ apart
            | inl there ↦
                let place = locate_in_chunk n s j (ground (arith, there, fits)) in
                let dev = ap (λ p. p.dev) place in
                let sector = ap (λ p. p.sector) place in
                let same =
                  locate_injective n (s + j) t (ground (arith, there, dev))
                    (ground (arith, there, sector)) in
                absurd (ground (arith, there, outside, same))
          ]

-- A bio of `m` sectors inside the chunk of sector `s` writes these sectors of the array.
pub view-write_segments :
    (n : ℕ) (disks : ℕ → Memory) (pages : ℕ → Page) (s m : ℕ) (vs : List BioVec)
    → s + m ≤ chunk_end_sector s + 1
    → WholeSectors vs
    → bytes_in vs ≡ m * 512
    → (t x : ℕ) → x < 512
    → view n (sectors_of (write_segments disks (locate n s).dev pages (locate n s).sector vs)) t x
      ≡ write_sectors (view n (sectors_of disks)) s m (sectors_in pages vs) t x
view-write_segments n disks pages s m vs fits whole size t x lt =
    let written =
      write_segments-byte disks (locate n s).dev pages (locate n s).sector vs whole (locate n t).dev
        ((locate n t).sector * 512 + x) in
    elim (Bool-cases (leb s t && ltb t (s + m))) [
      | inl inside ↦
          let j : ℕ = t - s in
          let at_t : s + j ≡ t = ground (arith, inside) in
          let place = rw at_t at (locate_in_chunk n s j (ground (arith, inside, fits))) in
          let dev = ap (λ p. p.dev) place in
          let sector = ap (λ p. p.sector) place in
          let index : (locate n t).sector * 512 + x - (locate n s).sector * 512 ≡ j * 512 + x =
            omega (arith, sector) in
          rw inside
            (written ∙ ground (arith, inside, size, dev, sector, ap (byte_at pages vs) index))
      | inr outside ↦
          rw outside
            (written ∙ ground (arith, outside, size, locate_elsewhere n s t m fits outside))
    ]
