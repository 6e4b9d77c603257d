-- ===== src/Work/Outcome.antt =====
-- `do_verify_work` on all its branches: what a copy that fails does to the verify disk.
use praid.Common.{
  ℕ, ◌+◌, ◌-◌, ◌*◌, ◌≤◌, ◌<◌, ◌≡◌, ◌↔◌, sym, ap, ap₂, ◌∙◌, arith, Bool, true, false, Bool-cases,
  inl, inr, some, leb, ltb, ◌&&◌,
}
use praid.Pciedrv.Completion.{VerifyWorkParam}
use praid.Device.Word.{Memory, IsBytes}
use praid.Device.Request.{Services, memcpy}
use praid.Device.Dispatcher.{PcievDev, pciev_dispatcher_clac_xor_single}
use praid.Device.Dispatcher.Computed.{IsGood, IsJob, with_parity}
use praid.Device.Dispatcher.Job.{clac_xor_single-IsDone}
use praid.Parity.{
  IsParity, write_disk, replace, xor_all, xor_all-ext, xor_all-replace, xor_cancel_left,
}
use praid.Common.Bits.{bit_xor_assoc}
use praid.Work.{copy_pages, do_verify_work, IsTask, memcpy-inside, memcpy-below, memcpy-IsBytes}
use Prim.Native.Nat.{bit_xor}

-- When the verify disk comes out right: always if both copies succeed; if the second one fails,
-- where the buffer for the new data happens to hold them; if the first one fails, where the two
-- buffers happen to differ as the old and the new data do.
unfoldable pub Harmless : Bool → Bool → VerifyWorkParam → Memory → Type 0
Harmless true true param mem = Unit
Harmless true false param mem =
    (x : ℕ) → x < param.size → mem (4096 + (param.offset + x)) ≡ param.page_new (param.offset + x)
Harmless false kmap_new param mem =
    (x : ℕ)
    → x < param.size
    → bit_xor (mem (param.offset + x)) (mem (4096 + (param.offset + x)))
      ≡ bit_xor (param.page_old (param.offset + x)) (param.page_new (param.offset + x))

-- The two buffers differ as the old and the new data do.
abbrev AreCopied : VerifyWorkParam → Memory → Type 0
AreCopied param mem =
    (x : ℕ)
    → x < param.size
    → bit_xor (mem (param.offset + x)) (mem (4096 + (param.offset + x)))
      ≡ bit_xor (param.page_old (param.offset + x)) (param.page_new (param.offset + x))

copy_pages-IsBytes :
    (kmap_old kmap_new : Bool) (param : VerifyWorkParam) (mem : Memory)
    → IsBytes mem
    → IsBytes param.page_old
    → IsBytes param.page_new
    → IsBytes (copy_pages kmap_old kmap_new param mem)
unfolding copy_pages
copy_pages-IsBytes false kmap_new param mem h o n = h
copy_pages-IsBytes true false param mem h o n =
    memcpy-IsBytes mem param.page_old (0 + param.offset) param.offset param.size h o
copy_pages-IsBytes true true param mem h o n =
    memcpy-IsBytes (memcpy mem (0 + param.offset) param.page_old param.offset param.size)
      param.page_new (4096 + param.offset) param.offset param.size
      (memcpy-IsBytes mem param.page_old (0 + param.offset) param.offset param.size h o) n

bit_xor-left : (x y z : ℕ) → bit_xor x y ≡ bit_xor x z → y ≡ z
bit_xor-left x y z e = sym (xor_cancel_left x y) ∙ ap (bit_xor x) e ∙ xor_cancel_left x z

-- The buffer for the old data behind the first copy.
first-old :
    (param : VerifyWorkParam) (mem : Memory) (x : ℕ)
    → x < param.size
    → memcpy mem (0 + param.offset) param.page_old param.offset param.size (param.offset + x)
      ≡ param.page_old (param.offset + x)
first-old param mem x lt =
    let start : 0 + param.offset ≡ param.offset = omega arith in
    rw start (memcpy-inside mem param.page_old param.offset param.offset param.size x lt)

copy_pages-Harmless :
    (kmap_old kmap_new : Bool) (param : VerifyWorkParam) (mem : Memory)
    → param.offset + param.size ≤ 4096
    → AreCopied param (copy_pages kmap_old kmap_new param mem)
      ↔ Harmless kmap_old kmap_new param mem
unfolding copy_pages Harmless
copy_pages-Harmless false kmap_new param mem fits = (λ h. h, λ h. h)
copy_pages-Harmless true false param mem fits =
    let first : Memory = memcpy mem (0 + param.offset) param.page_old param.offset param.size in
    let kept : (x : ℕ)
        → x < param.size
        → first (4096 + (param.offset + x)) ≡ mem (4096 + (param.offset + x)) =
      λ x lt. ground arith in
    let both =
      λ (x : ℕ) (lt : x < param.size). ap₂ bit_xor (first-old param mem x lt) (kept x lt) in
    (
      λ h x lt. bit_xor-left (param.page_old (param.offset + x)) _ _ (sym (both x lt) ∙ h x lt),
      λ h x lt. both x lt ∙ ap (bit_xor (param.page_old (param.offset + x))) (h x lt),
    )
copy_pages-Harmless true true param mem fits =
    let first : Memory = memcpy mem (0 + param.offset) param.page_old param.offset param.size in
    (
      λ h. tt,
      λ h x lt.
          let place : 4096 + (param.offset + x) ≡ 4096 + param.offset + x = omega arith in
          ap₂ bit_xor
            (memcpy-below first param.page_new (4096 + param.offset) param.offset param.size
                (param.offset + x) (omega (arith, fits, lt))
              ∙ first-old param mem x lt)
            (rw place (
              memcpy-inside first param.page_new (4096 + param.offset) param.offset param.size x
                lt)),
    )

xor_both :
    (x a b c d : ℕ) → bit_xor (bit_xor x a) b ≡ bit_xor (bit_xor x c) d ↔ bit_xor a b ≡ bit_xor c d
xor_both x a b c d = (
  λ e. bit_xor-left x _ _ (sym (bit_xor_assoc x a b) ∙ e ∙ bit_xor_assoc x c d),
  λ e. bit_xor_assoc x a b ∙ ap (bit_xor x) e ∙ sym (bit_xor_assoc x c d),
)

module _ (param : VerifyWorkParam) (d : PcievDev) (n dev : ℕ) (disks : ℕ → Memory) (lt : dev < n)
    (kept : IsParity n disks d.verify_blk)
    (old : (x : ℕ)
      → x < param.size
      → param.page_old (param.offset + x) ≡ disks dev (param.num_sector * 512 + x))
    (kmap_old kmap_new : Bool) where
  abbrev job : PcievDev
  job = do_verify_work kmap_old kmap_new param d

  abbrev written : ℕ → Memory
  written = write_disk disks dev (param.num_sector * 512) param.page_new param.offset param.size

  -- What the verify disk has to hold inside the write.
  written-xor :
      (x : ℕ)
      → x < param.size
      → xor_all n (λ j. written j (param.num_sector * 512 + x))
        ≡ bit_xor
            (bit_xor
              (xor_all n (λ j. disks j (param.num_sector * 512 + x)))
              (param.page_old (param.offset + x)))
            (param.page_new (param.offset + x))
  written-xor x h =
      let a : ℕ = param.num_sector * 512 + x in
      let v : ℕ = param.page_new (param.offset + x) in
      rw (old x h) (
        xor_all-ext n (λ j. written j a) (replace (λ j. disks j a) dev v) (λ j _. ground arith)
        ∙ sym (xor_all-replace n dev v (λ j. disks j a) lt))

  with_parity-inside :
      (x : ℕ)
      → x < param.size
      → with_parity job (param.num_sector * 512 + x)
        ≡ bit_xor
            (bit_xor
              (xor_all n (λ j. disks j (param.num_sector * 512 + x)))
              (job.storage_mapped (param.offset + x)))
            (job.storage_mapped (4096 + (param.offset + x)))
  unfolding do_verify_work
  with_parity-inside x h =
      let place : param.num_sector * 512 + x - param.num_sector * 512 ≡ x = omega arith in
      ground (arith, place, kept (param.num_sector * 512 + x), h)

  job-IsParity_iff : IsParity n written (with_parity job) ↔ AreCopied param job.storage_mapped
  unfolding do_verify_work
  job-IsParity_iff = (
    λ p x h.
        (xor_both _ _ _ _ _).0
          (sym (with_parity-inside x h) ∙ p (param.num_sector * 512 + x) ∙ written-xor x h),
    λ c a.
        elim (Bool-cases
          (leb (param.num_sector * 512) a && ltb a (param.num_sector * 512 + param.size))) [
            | inl inside ↦
                let x : ℕ = a - param.num_sector * 512 in
                let h : x < param.size = ground (arith, inside) in
                let at_x : param.num_sector * 512 + x ≡ a = ground (arith, inside) in
                rw at_x at
                  (with_parity-inside x h ∙ (xor_both _ _ _ _ _).1 (c x h) ∙ sym (written-xor x h))
            | inr outside ↦ ground (
              arith,
              outside,
              kept a,
              xor_all-ext n (λ j. disks j a) (λ j. written j a) (λ j _. ground (arith, outside)),
            )
          ],
  )

do_verify_work-IsJob :
    (kmap_old kmap_new : Bool) (param : VerifyWorkParam) (d : PcievDev)
    → IsTask param d
    → IsJob (do_verify_work kmap_old kmap_new param d)
unfolding do_verify_work
do_verify_work-IsJob kmap_old kmap_new param d task = record {
  waits = omega (arith, task.no_job, task.no_wrap);
  words = task.words;
  fits = task.fits;
  storage =
      copy_pages-IsBytes kmap_old kmap_new param d.storage_mapped task.storage task.old_bytes
        task.new_bytes;
  parity = task.parity;
}

-- A worker without another beside it, with a task of whole words of bytes inside a page, and a
-- device that has no job and whose counter does not wrap, whichever of its copies succeed: where the old page holds the data of disk
-- `dev` at the sector of the task, the verify disk is the parity of the `n` data disks and the
-- kernel serves the two transfers, the round of the device ends, raises one interrupt, and leaves
-- the verify disk the parity of the data disks with the new page written to disk `dev` exactly when
-- both copies succeed; or the second fails, and the buffer held the new data before; or the first
-- fails, and the two buffers differed before as the old and the new data do.
pub do_verify_work-IsParity_iff :
    (kmap_old kmap_new : Bool) (param : VerifyWorkParam) (d : PcievDev)
    → IsTask param d
    → (n dev : ℕ) (disks : ℕ → Memory) (r w : Services) → dev < n
    → IsGood r param.size
    → IsGood w param.size
    → IsParity n disks d.verify_blk
    → ((x : ℕ)
        → x < param.size
        → param.page_old (param.offset + x) ≡ disks dev (param.num_sector * 512 + x))
    → (d' : PcievDev) × (pciev_dispatcher_clac_xor_single r w
          (do_verify_work kmap_old kmap_new param d)
        ≡ some d')
      × (d'.irqs ≡ d.irqs + 1)
      × (IsParity n
            (write_disk disks dev (param.num_sector * 512) param.page_new param.offset param.size)
            d'.verify_blk
          ↔ Harmless kmap_old kmap_new param d.storage_mapped)
unfolding do_verify_work
do_verify_work-IsParity_iff kmap_old kmap_new param d task n dev disks r w lt good_r good_w kept
      old =
    let (d', runs, done) =
      clac_xor_single-IsDone r w (do_verify_work kmap_old kmap_new param d)
        (do_verify_work-IsJob kmap_old kmap_new param d task) good_r good_w in
    let right = job-IsParity_iff param d n dev disks lt kept old kmap_old kmap_new in
    let copied = copy_pages-Harmless kmap_old kmap_new param d.storage_mapped task.fits in
    (
      d',
      runs,
      done.raised,
      (
        λ p. copied.0 (right.0 (λ a. sym (done.parity a) ∙ p a)),
        λ h a. done.parity a ∙ right.1 (copied.1 h) a,
      ),
    )

-- The same for a worker whose copies succeed.
pub do_verify_work-IsParity :
    (param : VerifyWorkParam) (d : PcievDev)
    → IsTask param d
    → (n dev : ℕ) (disks : ℕ → Memory) (r w : Services) → dev < n
    → IsGood r param.size
    → IsGood w param.size
    → IsParity n disks d.verify_blk
    → ((x : ℕ)
        → x < param.size
        → param.page_old (param.offset + x) ≡ disks dev (param.num_sector * 512 + x))
    → (d' : PcievDev) × (pciev_dispatcher_clac_xor_single r w (do_verify_work true true param d)
        ≡ some d')
      × IsParity n
          (write_disk disks dev (param.num_sector * 512) param.page_new param.offset param.size)
          d'.verify_blk
unfolding Harmless
do_verify_work-IsParity param d task n dev disks r w lt good_r good_w kept old =
    let (d', runs, raised, right) =
      do_verify_work-IsParity_iff true true param d task n dev disks r w lt good_r good_w kept
        old in
    (d', runs, right.1 tt)
