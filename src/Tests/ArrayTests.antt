-- ===== src/Tests/ArrayTests.antt =====
-- Two workers write ones and twos over zeros at sector 3, beside disks in memory.
use praid.Common.{ℕ, zero, suc, ◌≡◌, ◌↔◌, refl, arith, List, [], ◌∷◌, length}
use praid.Pciedrv.Completion.{VerifyWorkParam}
use praid.Device.Dispatcher.Computed.{IsGood}
use praid.Device.Start.{started_device}
use praid.Parity.{IsParity}
use praid.Protocol.{finished}
use praid.System.{System, SystemReach}
use praid.System.Pays.{IsWordTask}
use praid.System.Ledger.{Distinct}
use praid.System.Progress.{Runs, IsServed, IsQuiet, serve_all}
use praid.Array.{disks_after, IsInOrder}
use praid.Array.Parity.{Served-IsParity}
use praid.Array.Progress.{writes-IsParity}
use praid.Array.Stale.{IsStale, IsIdle, Served-stale_iff}
use praid.Tests.DeviceTests.{blank, ram, ram-IsGood, task, two_blank, two_blank-IsParity}
use praid.Tests.SystemTests.{task-IsWordTask}
use mathlib.Core.List.{Mem}

abbrev twos : VerifyWorkParam
twos = record task { page_new = λ _. 2 }

twos-IsWordTask : IsWordTask twos
twos-IsWordTask = record {
  words = refl;
  fits = omega arith;
  old = λ a. omega arith;
  new = λ a. omega arith;
}

-- Worker 0 writes ones, every other worker twos.
abbrev writes : ℕ → VerifyWorkParam
writes i = elim i [ zero ↦ task | suc j ↦ twos ]

writes-IsWordTask : (i : ℕ) → IsWordTask (writes i)
writes-IsWordTask zero = task-IsWordTask
writes-IsWordTask (suc i) = twos-IsWordTask

good : (i : ℕ) → IsGood (ram 1024) (writes i).size
good zero = ram-IsGood 1024
good (suc i) = ram-IsGood 1024

abbrev order : List ℕ
order = 1 ∷ 0 ∷ []

order-Distinct : Distinct order
order-Distinct = ((λ e. absurd (omega (arith, e)), tt), (tt, tt))

-- Worker 0 writes to disk 0, worker 1 to disk 1.
order-IsInOrder : IsInOrder writes (λ i. i) two_blank 2 order
order-IsInOrder = (omega arith, λ x lt. refl, (omega arith, λ x lt. refl, tt))

served :
    (c : System) × Runs writes (started_device 2 blank blank) c
    × IsServed (started_device 2 blank blank) order c
unfolding started_device
served =
    serve_all writes writes-IsWordTask (started_device 2 blank blank) refl refl (λ a. omega arith)
      (λ a. omega arith) (λ _. ram 1024) (λ _. ram 1024) good good order order-Distinct
      (omega arith)

served-finished : (i : ℕ) → served.0.pc i ≡ finished → Mem i order
served-finished = served.2.only

served-irqs : served.0.dev.irqs ≡ 2
unfolding started_device
served-irqs = served.2.raised

Served-IsParity_example :
    IsParity 2 (disks_after writes (λ i. i) two_blank order) served.0.dev.verify_blk
Served-IsParity_example =
    Served-IsParity writes writes-IsWordTask 2 2 blank blank two_blank (λ i. i) (λ a. omega arith)
      (λ a. omega arith) two_blank-IsParity served.1.0 served.1.1 order order-IsInOrder
      served-finished served-irqs

writes-IsParity_example :
    (c : System) × SystemReach writes (started_device 2 blank blank) c
    × IsParity 2 (disks_after writes (λ i. i) two_blank order) c.dev.verify_blk
    × (c.dev.irqs ≡ length order)
    × IsQuiet c
writes-IsParity_example =
    writes-IsParity writes writes-IsWordTask (λ _. ram 1024) (λ _. ram 1024) good good 2 2 blank
      blank two_blank (λ i. i) (λ a. omega arith) (λ a. omega arith) two_blank-IsParity order
      order-Distinct (omega arith) order-IsInOrder

-- Both on disk 1, each with zeros as its old data.
writes-IsStale : IsStale (writes 0) (writes 1) (two_blank 1)
writes-IsStale = record { sector = refl; size = refl; first = λ x lt. refl; second = λ x lt. refl }

Served-stale_iff_example :
    IsParity 2 (disks_after writes (λ _. 1) two_blank order) served.0.dev.verify_blk
    ↔ IsIdle (writes 0) (two_blank 1)
Served-stale_iff_example =
    Served-stale_iff writes writes-IsWordTask 2 2 1 blank blank two_blank (omega arith)
      (λ a. omega arith) (λ a. omega arith) two_blank-IsParity writes-IsStale served.1.0 served.1.1
      served-finished served-irqs
