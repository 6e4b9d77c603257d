-- ===== src/Array/Parity.antt =====
-- The parity of the array behind several writes, whatever the order of the steps and of the jobs.
use praid.Common.{ℕ, ◌≡◌, refl, ◌∙◌, arith, List, length}
use praid.Pciedrv.Completion.{VerifyWorkParam}
use praid.Device.Word.{Memory, IsBytes}
use praid.Device.Start.{started_device}
use praid.Parity.{IsParity}
use praid.Protocol.{finished}
use praid.System.{System, SystemReach}
use praid.System.Pays.{IsWordTask, pays_all}
use praid.System.Parity.{Served, Served-pays_all}
use praid.Array.{disks_after, IsInOrder}
use praid.Array.Order.{pays_all-Perm, pays_all-IsParity}
use praid.Array.Ledger.{Distinct-Perm, AllFinished-AllIn}
use mathlib.Core.List.{Mem}

-- From a device that has just been started: in a state in which only the workers of a list are at
-- their ends, with one interrupt for each of them, the verify disk owes just the tasks of the list.
pub Served-order :
    (tasks : ℕ → VerifyWorkParam)
    → ((i : ℕ) → IsWordTask (tasks i))
    → (cnt_disk : ℕ) (storage parity : Memory) → IsBytes storage
    → IsBytes parity
    → {c : System} (run : SystemReach tasks (started_device cnt_disk storage parity) c)
    → Served tasks run
    → (order : List ℕ) → ((i : ℕ) → c.pc i ≡ finished → Mem i order)
    → c.dev.irqs ≡ length order
    → (a : ℕ) → c.dev.verify_blk a ≡ pays_all tasks order parity a
unfolding started_device
Served-order tasks fine cnt_disk storage parity bytes bytes' {c} run served order only raised a =
    let d = started_device cnt_disk storage parity in
    let (is, pays, ended, distinct, counted) =
      Served-pays_all tasks fine d refl refl run served bytes bytes' in
    let same =
      Distinct-Perm is order distinct (AllFinished-AllIn c.pc is order only ended)
        (omega (arith, counted, raised)) in
    pays a ∙ pays_all-Perm tasks parity a same

-- From a device that has just been started, over bytes and with the parity of the `n` data disks on
-- the verify disk, with the transfers of every job that ended served: take a list of tasks, each of
-- whole words of bytes inside a page, in the order in which their writes reach the disks, each with
-- the old data that its write finds there. In every state that is reached, by any order of the
-- steps and of the jobs, in which no other worker is at its end and as many interrupts are raised
-- as the list has tasks, the verify disk is the parity of the data disks with all these writes.
pub Served-IsParity :
    (tasks : ℕ → VerifyWorkParam)
    → ((i : ℕ) → IsWordTask (tasks i))
    → (cnt_disk n : ℕ) (storage parity : Memory) (disks : ℕ → Memory) (dev : ℕ → ℕ)
    → IsBytes storage
    → IsBytes parity
    → IsParity n disks parity
    → {c : System} (run : SystemReach tasks (started_device cnt_disk storage parity) c)
    → Served tasks run
    → (order : List ℕ) → IsInOrder tasks dev disks n order
    → ((i : ℕ) → c.pc i ≡ finished → Mem i order)
    → c.dev.irqs ≡ length order
    → IsParity n (disks_after tasks dev disks order) c.dev.verify_blk
Served-IsParity tasks fine cnt_disk n storage parity disks dev bytes bytes' kept run served order
      in_order only raised a =
    Served-order tasks fine cnt_disk storage parity bytes bytes' run served order only raised a
    ∙ pays_all-IsParity n tasks dev disks parity kept order in_order a
