-- ===== src/Array/Stale.antt =====
-- Two writes of one place on their way at once, both with the data that was there before either:
-- pciedrv.c reads the old data before a write without looking at the writes that are under way.
use praid.Common.{ℕ, ◌+◌, ◌-◌, ◌*◌, ◌<◌, ◌≡◌, ◌↔◌, refl, sym, ap, ◌∙◌, arith, [], ◌∷◌}
use praid.Pciedrv.Completion.{VerifyWorkParam}
use praid.Device.Word.{Memory, IsBytes}
use praid.Parity.{IsParity, write_disk, xor_cancel, xor_cancel_left}
use praid.Device.Start.{started_device}
use praid.Protocol.{finished}
use praid.System.{System, SystemReach}
use praid.System.Parity.{Served}
use praid.System.Pays.{IsWordTask, pays}
use praid.Array.{disks_after}
use praid.Array.Parity.{Served-order}
use praid.Array.Order.{pays-IsParity}
use Prim.Native.Nat.{bit_xor}
use mathlib.Core.List.{Mem}

-- The second task is about the place of the first, and has the same old data.
pub record IsStale (p q : VerifyWorkParam) (disk : Memory) : Type 0 where
  pub sector : q.num_sector ≡ p.num_sector
  pub size : q.size ≡ p.size
  pub first : (x : ℕ) → x < p.size → p.page_old (p.offset + x) ≡ disk (p.num_sector * 512 + x)
  pub second : (x : ℕ) → x < p.size → q.page_old (q.offset + x) ≡ disk (p.num_sector * 512 + x)

-- The first write leaves the data as they were.
abbrev pub IsIdle : VerifyWorkParam → Memory → Type 0
IsIdle p disk = (x : ℕ) → x < p.size → p.page_new (p.offset + x) ≡ disk (p.num_sector * 512 + x)

xor_cancel_both : (x y z v : ℕ) → bit_xor (bit_xor x y) v ≡ bit_xor (bit_xor x z) v → y ≡ z
xor_cancel_both x y z v e =
    let front : bit_xor x y ≡ bit_xor x z =
      sym (xor_cancel (bit_xor x y) v)
      ∙ ap (λ (t : ℕ). bit_xor t v) e
      ∙ xor_cancel (bit_xor x z) v in
    sym (xor_cancel_left x y) ∙ ap (λ (t : ℕ). bit_xor x t) front ∙ xor_cancel_left x z

-- A task's place holds its data behind its write.
write_disk-at :
    (disks : ℕ → Memory) (dev dst src size x : ℕ) (page : Memory)
    → x < size
    → write_disk disks dev dst page src size dev (dst + x) ≡ page (src + x)
write_disk-at disks dev dst src size x page lt =
    let place : dst + x - dst ≡ x = omega arith in ground (arith, place, lt)

pays-at :
    (p : VerifyWorkParam) (m : Memory) (x : ℕ)
    → x < p.size
    → pays p m (p.num_sector * 512 + x)
      ≡ bit_xor
          (bit_xor (m (p.num_sector * 512 + x)) (p.page_old (p.offset + x)))
          (p.page_new (p.offset + x))
pays-at p m x lt =
    let place : p.num_sector * 512 + x - p.num_sector * 512 ≡ x = omega arith in
    ground (arith, place, lt)

module _ (n dev : ℕ) (disks : ℕ → Memory) (m : Memory) (p q : VerifyWorkParam) (h : dev < n)
    (kept : IsParity n disks m) (stale : IsStale p q (disks dev)) where
  abbrev both_written : ℕ → Memory
  both_written =
      write_disk (write_disk disks dev (p.num_sector * 512) p.page_new p.offset p.size) dev
        (q.num_sector * 512) q.page_new q.offset q.size

  IsIdle-IsParity : IsIdle p (disks dev) → IsParity n both_written (pays q (pays p m))
  IsIdle-IsParity idle =
      pays-IsParity n dev (write_disk disks dev (p.num_sector * 512) p.page_new p.offset p.size)
        (pays p m) q h (pays-IsParity n dev disks m p h kept stale.first)
        (λ x lt.
          let lt' : x < p.size = omega (arith, lt, stale.size) in
          rw
            (
              stale.sector,
              stale.second x lt',
              write_disk-at disks dev (p.num_sector * 512) p.offset p.size x p.page_new lt',
            )
            (sym (idle x lt')))

  IsParity-IsIdle : IsParity n both_written (pays q (pays p m)) → IsIdle p (disks dev)
  IsParity-IsIdle parity x lt =
      let once : ℕ → Memory =
        write_disk disks dev (p.num_sector * 512) p.page_new p.offset p.size in
      let q' : VerifyWorkParam = record q {
        page_old = λ y. once dev (q.num_sector * 512 + (y - q.offset));
      } in
      let fresh : IsParity n both_written (pays q' (pays p m)) =
        pays-IsParity n dev once (pays p m) q' h (pays-IsParity n dev disks m p h kept stale.first)
          (λ y lt'. let place : q.offset + y - q.offset ≡ y = omega arith in rw place refl) in
      let lt' : x < q.size = omega (arith, lt, stale.size) in
      let a : ℕ = q.num_sector * 512 + x in
      let same =
        sym (pays-at q' (pays p m) x lt') ∙ fresh a ∙ sym (parity a) ∙ pays-at q (pays p m) x lt' in
      let place : p.num_sector * 512 + x ≡ q.num_sector * 512 + (q.offset + x - q.offset) =
        omega (arith, stale.sector) in
      sym (write_disk-at disks dev (p.num_sector * 512) p.offset p.size x p.page_new lt)
      ∙ ap (once dev) place
      ∙ xor_cancel_both (pays p m a) _ _ (q.page_new (q.offset + x)) same
      ∙ stale.second x lt

  stale_iff : IsParity n both_written (pays q (pays p m)) ↔ IsIdle p (disks dev)
  stale_iff = (IsParity-IsIdle, IsIdle-IsParity)

-- From a device that has just been started, over bytes and with the parity of the `n` data disks on
-- the verify disk, with the transfers of every job that ended served and with tasks of whole words
-- of bytes inside a page: workers 0 and 1 have tasks about the same sectors of disk `dev`, from the
-- same sector on and of the same size, both with the old data that the disk has there before either
-- write. In every state in which only these two are at
-- their ends and two interrupts are raised, the verify disk is the parity of the data disks behind
-- both writes exactly when the first write leaves the data as they were.
pub Served-stale_iff :
    (tasks : ℕ → VerifyWorkParam)
    → ((i : ℕ) → IsWordTask (tasks i))
    → (cnt_disk n dev : ℕ) (storage parity : Memory) (disks : ℕ → Memory) → dev < n
    → IsBytes storage
    → IsBytes parity
    → IsParity n disks parity
    → IsStale (tasks 0) (tasks 1) (disks dev)
    → {c : System} (run : SystemReach tasks (started_device cnt_disk storage parity) c)
    → Served tasks run
    → ((i : ℕ) → c.pc i ≡ finished → Mem i (1 ∷ 0 ∷ []))
    → c.dev.irqs ≡ 2
    → IsParity n (disks_after tasks (λ _. dev) disks (1 ∷ 0 ∷ [])) c.dev.verify_blk
      ↔ IsIdle (tasks 0) (disks dev)
Served-stale_iff tasks fine cnt_disk n dev storage parity disks lt bytes bytes' kept stale run
      served only raised =
    let pays =
      Served-order tasks fine cnt_disk storage parity bytes bytes' run served (1 ∷ 0 ∷ []) only
        raised in
    let both = stale_iff n dev disks parity (tasks 0) (tasks 1) lt kept stale in
    (λ is a. both.0 (λ b. sym (pays b) ∙ is b) a, λ idle a. pays a ∙ both.1 idle a)
