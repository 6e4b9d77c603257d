-- ===== src/Array/Progress.antt =====
-- Writes on their way can always be brought to an end that keeps the parity.
use praid.Common.{ℕ, ◌^◌, ◌<◌, ◌≡◌, refl, arith, List, length}
use praid.Pciedrv.Completion.{VerifyWorkParam}
use praid.Device.Word.{Memory, IsBytes}
use praid.Device.Request.{Services}
use praid.Device.Dispatcher.Computed.{IsGood}
use praid.Device.Start.{started_device}
use praid.Parity.{IsParity}
use praid.System.{System, SystemReach}
use praid.System.Ledger.{Distinct}
use praid.System.Pays.{IsWordTask}
use praid.System.Progress.{IsQuiet, serve_all}
use praid.Array.{disks_after, IsInOrder}
use praid.Array.Parity.{Served-IsParity}

-- From a device that has just been started, over bytes and with the parity of the `n` data disks on
-- the verify disk, with tasks of whole words of bytes inside a page and a kernel that serves the
-- transfers of their sizes: for every list of fewer than 2 ^ 32 workers without repetition, in the
-- order in which their writes reach the disks, each with the old data that its write finds there,
-- there is a run to a state in which the verify disk is the parity of the data disks behind all the
-- writes, one interrupt is raised for each, no job waits or runs, and the semaphore is free.
pub writes-IsParity :
    (tasks : ℕ → VerifyWorkParam)
    → ((i : ℕ) → IsWordTask (tasks i))
    → (r w : ℕ → Services) → ((i : ℕ) → IsGood (r i) (tasks i).size)
    → ((i : ℕ) → IsGood (w i) (tasks i).size)
    → (cnt_disk n : ℕ) (storage parity : Memory) (disks : ℕ → Memory) (dev : ℕ → ℕ)
    → IsBytes storage
    → IsBytes parity
    → IsParity n disks parity
    → (order : List ℕ) → Distinct order
    → length order < 2 ^ 32
    → IsInOrder tasks dev disks n order
    → (c : System) × SystemReach tasks (started_device cnt_disk storage parity) c
      × IsParity n (disks_after tasks dev disks order) c.dev.verify_blk
      × (c.dev.irqs ≡ length order)
      × IsQuiet c
unfolding started_device
writes-IsParity tasks fine r w good_r good_w cnt_disk n storage parity disks dev bytes bytes' kept
      order distinct few in_order =
    let d = started_device cnt_disk storage parity in
    let (c, run, v) =
      serve_all tasks fine d refl refl bytes bytes' r w good_r good_w order distinct few in
    let raised : c.dev.irqs ≡ length order = omega (arith, v.raised) in
    (
      c,
      run.0,
      Served-IsParity tasks fine cnt_disk n storage parity disks dev bytes bytes' kept run.0 run.1
          order in_order v.only raised,
      raised,
      v.quiet,
    )
