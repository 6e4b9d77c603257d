-- ===== src/Parity.antt =====
-- The array as a whole: what the verify disk has to hold for the README's "raid4", and what the
-- job which pciedrv.c gives the device for a write does to it.
use praid.Common.{ℕ, zero, suc, ◌+◌, ◌-◌, ◌*◌, ◌<◌, ◌≡◌, refl, sym, ap, ◌∙◌, arith}
use praid.Common.{leb, ltb, ◌==◌, ◌&&◌, if◌then◌else◌, some, Bool-cases, inl, inr}
use praid.Common.Bits.{bit_xor_comm, bit_xor_assoc, bit_xor_self, bit_xor-zero}
use praid.Device.Word.{Memory}
use praid.Device.Request.{Services, memcpy}
use praid.Device.Dispatcher.{PcievDev, pciev_dispatcher_clac_xor_single}
use praid.Device.Dispatcher.Computed.{IsGood, IsJob, new_parity, with_parity}
use praid.Device.Dispatcher.Job.{clac_xor_single-IsDone}
use Prim.Native.Nat.{bit_xor}
use native.Mathlib.Decide.{dec_lt}

-- The exclusive or of the first `n` values.
unfoldable pub xor_all : ℕ → (ℕ → ℕ) → ℕ
xor_all zero f = 0
xor_all (suc n) f = bit_xor (xor_all n f) (f n)

abbrev pub replace : (ℕ → ℕ) → ℕ → ℕ → ℕ → ℕ
replace f k v j = if j == k then v else f j

-- Every byte of the verify disk is the exclusive or of the bytes at that place of the data disks.
abbrev pub IsParity : ℕ → (ℕ → Memory) → Memory → Type 0
IsParity n disks parity = (a : ℕ) → parity a ≡ xor_all n (λ i. disks i a)

-- The data disks after a write of `size` bytes from `page` at `src` to disk `dev` at `dst`.
abbrev pub write_disk : (ℕ → Memory) → ℕ → ℕ → Memory → ℕ → ℕ → ℕ → Memory
write_disk disks dev dst page src size i =
    if i == dev then memcpy (disks i) dst page src size else disks i

pub xor_swap : (x y z : ℕ) → bit_xor (bit_xor x y) z ≡ bit_xor (bit_xor x z) y
xor_swap x y z = bit_xor_assoc x y z ∙ ap (bit_xor x) (bit_xor_comm y z) ∙ sym (bit_xor_assoc x z y)

pub xor_cancel : (x y : ℕ) → bit_xor (bit_xor x y) y ≡ x
xor_cancel x y = bit_xor_assoc x y y ∙ ap (bit_xor x) (bit_xor_self y) ∙ bit_xor-zero x

pub xor_cancel_left : (x y : ℕ) → bit_xor x (bit_xor x y) ≡ y
xor_cancel_left x y =
    sym (bit_xor_assoc x x y)
    ∙ ap (λ (t : ℕ). bit_xor t y) (bit_xor_self x)
    ∙ bit_xor_comm 0 y
    ∙ bit_xor-zero y

pub xor_all-ext : (n : ℕ) (f g : ℕ → ℕ) → ((i : ℕ) → i < n → f i ≡ g i) → xor_all n f ≡ xor_all n g
unfolding xor_all
xor_all-ext zero f g h = refl
xor_all-ext (suc n) f g h = rw (xor_all-ext n f g (λ i lt. h i (omega arith)), h n (omega arith))

-- XORing out one value and XORing in another replaces it.
pub xor_all-replace :
    (n k v : ℕ) (f : ℕ → ℕ)
    → k < n
    → bit_xor (bit_xor (xor_all n f) (f k)) v ≡ xor_all n (replace f k v)
unfolding xor_all
xor_all-replace zero k v f h = absurd (omega arith)
xor_all-replace (suc n) k v f h = elim (dec_lt k n) [
  | yes below ↦ ground (
    arith,
    xor_all-replace n k v f below,
    xor_swap (xor_all n f) (f n) (f k),
    xor_swap (bit_xor (xor_all n f) (f k)) (f n) v,
  )
  | no last ↦ ground (
    arith,
    xor_cancel (xor_all n f) (f n),
    xor_all-ext n f (replace f k v) (λ i lt. ground arith),
  )
]

-- A lost data disk can be rebuilt, byte by byte, from the verify disk and the other data disks.
pub IsParity-rebuild :
    (n dev : ℕ) (disks : ℕ → Memory) (parity : Memory)
    → dev < n
    → IsParity n disks parity
    → (a : ℕ) → bit_xor (parity a) (xor_all n (replace (λ i. disks i a) dev 0)) ≡ disks dev a
IsParity-rebuild n dev disks parity h p a =
    let others = xor_all-replace n dev 0 (λ i. disks i a) h in
    let all : ℕ = xor_all n (λ i. disks i a) in
    rw (p a, ← others, bit_xor-zero (bit_xor all (disks dev a))) (xor_cancel_left all (disks dev a))

module _ (n dev : ℕ) (disks : ℕ → Memory) (d : PcievDev) (h : dev < n)
    (p : IsParity n disks d.verify_blk)
    (old : (i : ℕ)
      → i < d.bar.size
      → d.storage_mapped (d.bar.offset + i) ≡ disks dev (d.bar.sector_sta * 512 + i)) where
  -- The data disks once the write is done.
  abbrev written : ℕ → Memory
  written =
      write_disk disks dev (d.bar.sector_sta * 512) d.storage_mapped (4096 + d.bar.offset)
        d.bar.size

  new_parity-IsParity :
      (i : ℕ)
      → i < d.bar.size
      → new_parity d i ≡ xor_all n (λ j. written j (d.bar.sector_sta * 512 + i))
  new_parity-IsParity i lt =
      let a : ℕ = d.bar.sector_sta * 512 + i in
      let v : ℕ = d.storage_mapped (4096 + (d.bar.offset + i)) in
      rw (p a, old i lt)
        (xor_all-replace n dev v (λ j. disks j a) h
          ∙ xor_all-ext n (replace (λ j. disks j a) dev v) (λ j. written j a) (λ j _. ground arith))

  with_parity-IsParity : (a : ℕ) → with_parity d a ≡ xor_all n (λ i. written i a)
  with_parity-IsParity a =
      elim (Bool-cases
        (leb (d.bar.sector_sta * 512) a && ltb a (d.bar.sector_sta * 512 + d.bar.size))) [
          | inl inside ↦
              let i : ℕ = a - d.bar.sector_sta * 512 in
              let lt : i < d.bar.size = ground (arith, inside) in
              let at_i : d.bar.sector_sta * 512 + i ≡ a = ground (arith, inside) in
              ground (arith, inside, rw at_i at (new_parity-IsParity i lt))
          | inr outside ↦ ground (
            arith,
            outside,
            p a,
            xor_all-ext n (λ j. disks j a) (λ j. written j a) (λ j _. ground (arith, outside)),
          )
        ]

-- A waiting job of whole words of bytes inside a page, whose two transfers the kernel serves: where
-- the storage holds the old data of disk `dev` at the sector of the job and the verify disk is the
-- parity of the `n` data disks, the round ends, and the verify disk is the parity of the data disks
-- with the new data of the job written to disk `dev`.
pub clac_xor_single-IsParity :
    (n dev : ℕ) (disks : ℕ → Memory) (r w : Services) (d : PcievDev)
    → dev < n
    → IsJob d
    → IsGood r d.bar.size
    → IsGood w d.bar.size
    → IsParity n disks d.verify_blk
    → ((i : ℕ)
        → i < d.bar.size
        → d.storage_mapped (d.bar.offset + i) ≡ disks dev (d.bar.sector_sta * 512 + i))
    → (d' : PcievDev) × (pciev_dispatcher_clac_xor_single r w d ≡ some d')
      × IsParity n
          (write_disk disks dev
            (d.bar.sector_sta * 512)
            d.storage_mapped
            (4096 + d.bar.offset)
            d.bar.size)
          d'.verify_blk
clac_xor_single-IsParity n dev disks r w d h job good_r good_w p old =
    let (d', ends, done) = clac_xor_single-IsDone r w d job good_r good_w in
    (d', ends, λ a. done.parity a ∙ with_parity-IsParity n dev disks d h p old a)
