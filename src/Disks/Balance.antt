-- ===== src/Disks/Balance.antt =====
-- How often each disk is open, before and after main.c opens or closes them.
use praid.Common.{
  ℕ, zero, suc, ◌+◌, ◌-◌, ◌≡◌, refl, ◌∙◌, arith, Bool, true, false, Bool-cases, inl, inr,
}
use praid.Common.{ltb, leb, ◌&&◌, if◌then◌else◌}
use praid.Disks.{
  Refs, get_nvme, put_nvme, close_below, open_verify, open_from, nvme_blkdev_init, close_from,
  nvme_blkdev_final,
}

close_below_lem :
    (i : ℕ) (r : Refs)
    → ((close_below i r).verify ≡ r.verify)
      × ((j : ℕ) → (close_below i r).nvme j ≡ (if ltb j i then r.nvme j - 1 else r.nvme j))
unfolding close_below
close_below_lem zero r = (refl, λ j. ground arith)
close_below_lem (suc i) r =
    let (same, below) = close_below_lem i (put_nvme i r) in (same, λ j. ground (arith, below j))

close_from_lem :
    (left i : ℕ) (r : Refs)
    → ((close_from left i r).verify ≡ r.verify)
      × ((j : ℕ)
          → (close_from left i r).nvme j
            ≡ (if leb i j && ltb j (i + left) then r.nvme j - 1 else r.nvme j))
unfolding close_from
close_from_lem zero i r = (refl, λ j. ground arith)
close_from_lem (suc left) i r =
    let (same, above) = close_from_lem left (i + 1) (put_nvme i r) in
    (same, λ j. ground (arith, above j))

-- Each of the first `n` data disks, and the verify disk, is held once more.
pub record IsOpen (n : ℕ) (before after : Refs) : Type 0 where
  pub verify : after.verify ≡ before.verify + 1
  pub nvme : (j : ℕ) → after.nvme j ≡ (if ltb j n then before.nvme j + 1 else before.nvme j)

abbrev pub Same : Refs → Refs → Type 0
Same r r' = (r'.verify ≡ r.verify) × ((j : ℕ) → r'.nvme j ≡ r.nvme j)

-- What the outcome of `nvme_blkdev_init` says of the disks.
abbrev pub Opened : ℕ → Refs → Bool × Refs → Type 0
Opened n r (true, r') = IsOpen n r r'
Opened n r (false, r') = Same r r'

closed-Same :
    (i : ℕ) (r r' : Refs)
    → r'.verify ≡ r.verify
    → ((j : ℕ) → r'.nvme j ≡ (if ltb j i then r.nvme j + 1 else r.nvme j))
    → Same r (close_below i r')
closed-Same i r r' e h =
    let (same, below) = close_below_lem i r' in (same ∙ e, λ j. ground (arith, below j, h j))

open_verify-Opened :
    (b : Bool) (i n : ℕ) (r r' : Refs)
    → i ≡ n
    → r'.verify ≡ r.verify
    → ((j : ℕ) → r'.nvme j ≡ (if ltb j i then r.nvme j + 1 else r.nvme j))
    → Opened n r (open_verify b i r')
unfolding open_verify
open_verify-Opened true i n r r' q e h = record {
  verify = omega (arith, e);
  nvme = λ j. ground (arith, h j);
}
open_verify-Opened false i n r r' q e h = closed-Same i r r' e h

module _ (opens : ℕ → Bool) (opens_verify : Bool) where
  open_from-Opened :
      (left i : ℕ) (r r' : Refs)
      → r'.verify ≡ r.verify
      → ((j : ℕ) → r'.nvme j ≡ (if ltb j i then r.nvme j + 1 else r.nvme j))
      → Opened (i + left) r (open_from opens opens_verify left i r')
  unfolding open_from
  open_from-Opened zero i r r' e h =
      open_verify-Opened opens_verify i (i + 0) r r' (omega arith) e h
  open_from-Opened (suc left) i r r' e h = elim (Bool-cases (opens i)) [
    | inl opened ↦
        rw (opened, open_from)
          (let count : i + suc left ≡ i + 1 + left = omega arith in
            rw count (open_from-Opened left (i + 1) r (get_nvme i r') e (λ j. ground (arith, h j))))
    | inr failed ↦ rw (failed, open_from) (closed-Same i r r' e h)
  ]

  -- `nvme_blkdev_init` reports success and has opened each data disk and the verify disk one time
  -- more, or reports failure and leaves every disk as it was, wherever an open fails.
  pub nvme_blkdev_init-Opened :
      (n : ℕ) (r : Refs) → Opened n r (nvme_blkdev_init opens opens_verify n r)
  unfolding nvme_blkdev_init
  nvme_blkdev_init-Opened n r =
      let none' : 0 + n ≡ n = omega arith in
      rw none' at (open_from-Opened n 0 r r refl (λ j. ground arith))

-- Where each data disk and the verify disk have been opened one time more than in `r`,
-- `nvme_blkdev_final` leaves every disk as it is in `r`.
pub nvme_blkdev_final-Same : (n : ℕ) (r r' : Refs) → IsOpen n r r' → Same r (nvme_blkdev_final n r')
unfolding nvme_blkdev_final
nvme_blkdev_final-Same n r r' h =
    let (same, closed) = close_from_lem n 0 (record r' { verify = r'.verify - 1 }) in
    (omega (arith, same, h.verify), λ j. ground (arith, closed j, h.nvme j))
