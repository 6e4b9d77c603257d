-- ===== src/System/Parity.antt =====
-- The verify disk after any run of the workers and the device.
use praid.Common.{ℕ, ◌+◌, ◌≡◌, refl, ◌∙◌, arith, some, List, [], ◌∷◌, length}
use praid.Pciedrv.Completion.{VerifyWorkParam}
use praid.Device.Word.{IsBytes}
use praid.Device.Request.{Services}
use praid.Device.Dispatcher.{PcievDev, begin_job, finish_job}
use praid.Device.Dispatcher.Computed.{IsGood}
use praid.Device.Dispatcher.Job.{finish_job-IsEnded}
use praid.Protocol.{Pc, idle, busy}
use praid.Work.{memcpy-IsBytes}
use praid.System.{System, fill_area, count_job, SystemStep, SystemReach}
use praid.System.Areas.{HoldsAll}
use praid.System.Ledger.{AllFinished, Distinct}
use praid.System.Refine.{fill_area_counters}
use praid.System.Owned.{Owned}
use praid.System.Jobs.{Grows, step-Owned, at_start-Owned}
use praid.System.Pays.{pays, pays_all, IsWordTask, pays-IsBytes, with_parity-pays}

fill_area_kept :
    (c : ℕ) (p : VerifyWorkParam) (dev : PcievDev)
    → IsWordTask p
    → IsBytes dev.storage_mapped
    → IsBytes (fill_area c p dev).storage_mapped × ((fill_area c p dev).verify_blk ≡ dev.verify_blk)
unfolding fill_area
fill_area_kept c p dev task bytes =
    let old =
      memcpy-IsBytes dev.storage_mapped p.page_old (0 + p.offset) p.offset p.size bytes task.old in
    let new =
      memcpy-IsBytes dev.storage_mapped p.page_new (4096 + p.offset) p.offset p.size bytes
        task.new in
    (λ a. ground (arith, old a, new a, bytes a), ground arith)

module _ (tasks : ℕ → VerifyWorkParam) where
  -- The kernel serves the two transfers of a job that ends in the step.
  unfoldable pub ServedStep : {b c : System} → SystemStep tasks b c → Type 0
  ServedStep {b} (SystemStep.ends r w dev' e q) = IsGood r b.dev.bar.size × IsGood w b.dev.bar.size
  ServedStep (SystemStep.takes i e h) = Unit
  ServedStep (SystemStep.interrupted i e) = Unit
  ServedStep (SystemStep.stores i a e h) = Unit
  ServedStep (SystemStep.posts i e) = Unit
  ServedStep (SystemStep.begins e h) = Unit
  ServedStep (SystemStep.handles h) = Unit

  -- The same for every job of a run.
  unfoldable pub Served : {d : PcievDev} {c : System} → SystemReach tasks d c → Type 0
  Served SystemReach.start = Unit
  Served (SystemReach.later run step) = ServedStep step × Served run

  module _ (fine : (i : ℕ) → IsWordTask (tasks i)) (d : PcievDev) where
    pub record Settled (c : System) (is : List ℕ) : Type 0 where
      pub parity : (a : ℕ) → c.dev.verify_blk a ≡ pays_all tasks is d.verify_blk a
      pub storage : IsBytes c.dev.storage_mapped
      pub disk : IsBytes c.dev.verify_blk
      pub raised : c.dev.irqs ≡ d.irqs + length is

    counted-Settled :
        {b : System} {pc : ℕ → Pc} (is : List ℕ)
        → Settled b is
        → Settled (record b { dev = count_job b.dev; pc = pc }) is
    unfolding count_job
    counted-Settled is v = record {
      parity = v.parity;
      storage = v.storage;
      disk = v.disk;
      raised = v.raised;
    }

    begun-Settled :
        {b : System} (is : List ℕ)
        → Settled b is
        → Settled (record b { dev = begin_job b.dev; phase = busy }) is
    unfolding begin_job
    begun-Settled is v = record {
      parity = v.parity;
      storage = v.storage;
      disk = v.disk;
      raised = v.raised;
    }

    ends-Settled :
        {b : System} (r w : Services) (dev' : PcievDev) (i : ℕ) (is : List ℕ)
        → finish_job r w b.dev ≡ some dev'
        → IsGood r b.dev.bar.size
        → IsGood w b.dev.bar.size
        → HoldsAll (tasks i) b.dev
        → Settled b is
        → Settled (record b { dev = dev'; phase = idle }) (i ∷ is)
    ends-Settled {b} r w dev' i is q good_r good_w holds v =
        let at : b.dev.bar.offset ≡ (tasks i).offset = holds 2 (omega arith) in
        let long : b.dev.bar.size ≡ (tasks i).size = holds 3 (omega arith) in
        let (d', runs, ended) =
          finish_job-IsEnded r w b.dev
            (record {
              words = omega (arith, long, (fine i).words);
              fits = omega (arith, at, long, (fine i).fits);
              storage = v.storage;
              parity = v.disk;
            })
            good_r good_w in
        let same : d' ≡ dev' = cc (runs, q) in
        let ended' = rw same at ended in
        let pay : (a : ℕ) → dev'.verify_blk a ≡ pays (tasks i) b.dev.verify_blk a =
          λ a. ended'.parity a ∙ with_parity-pays (tasks i) b.dev holds a in
        record {
          parity = λ a. pay a ∙ ground (arith, v.parity a);
          storage = ended'.bytes;
          disk = λ a. rw (pay a) (pays-IsBytes (tasks i) b.dev.verify_blk (fine i) v.disk a);
          raised = omega (arith, ended'.raised, v.raised);
        }

    module _ (num : d.bar.io_num ≡ 0) (done : d.bar.io_done ≡ 0) where
      step-Settled :
          {b c : System} (is js : List ℕ) (step : SystemStep tasks b c)
          → ServedStep step
          → Grows tasks (λ i. (fine i).fits) d num done step is js
          → Settled b is
          → Settled c js
      unfolding Grows ServedStep
      step-Settled is js (SystemStep.takes i e h) served same v =
          rw same
            (record { parity = v.parity; storage = v.storage; disk = v.disk; raised = v.raised })
      step-Settled is js (SystemStep.interrupted i e) served same v =
          rw same
            (record { parity = v.parity; storage = v.storage; disk = v.disk; raised = v.raised })
      step-Settled {b} is js (SystemStep.stores i a e h) served same v =
          let (bytes, disk) = fill_area_kept a (tasks i) b.dev (fine i) v.storage in
          let (_, _, irqs) = fill_area_counters a (tasks i) b.dev in
          rw same (record {
            parity = λ x. rw disk (v.parity x);
            storage = bytes;
            disk = λ x. rw disk (v.disk x);
            raised = irqs ∙ v.raised;
          })
      step-Settled is js (SystemStep.posts i e) served same v = rw same (counted-Settled is v)
      step-Settled is js (SystemStep.begins e h) served same v = rw same (begun-Settled is v)
      step-Settled is js (SystemStep.ends r w dev' e q) (good_r, good_w) (i, holds, same) v =
          rw same (ends-Settled r w dev' i is q good_r good_w holds v)
      step-Settled is js (SystemStep.handles h) served same v =
          rw same
            (record { parity = v.parity; storage = v.storage; disk = v.disk; raised = v.raised })

      pub settled :
          {c : System} (run : SystemReach tasks d c)
          → Served run
          → IsBytes d.storage_mapped
          → IsBytes d.verify_blk
          → (is : List ℕ) × Owned tasks (λ i. (fine i).fits) d num done c is × Settled c is
      unfolding Served
      settled SystemReach.start served storage disk = (
        [],
        at_start-Owned tasks (λ i. (fine i).fits) d num done,
        record { parity = λ a. refl; storage = storage; disk = disk; raised = omega arith },
      )
      settled (SystemReach.later run step) (now, before) storage disk =
          let (is, o, v) = settled run before storage disk in
          let (js, o', grows) = step-Owned tasks (λ i. (fine i).fits) d num done is run step o in
          (js, o', step-Settled is js step now grows v)

      -- Where every task is of whole words of bytes inside a page, the storage and the verify disk
      -- start with bytes, both counters start at 0, and the kernel serves the transfers of every job
      -- that ended: in every state that is reached, by any order of the steps, the verify disk is
      -- the one at the start with the old and the new data of the tasks of some workers XORed in;
      -- these workers are at their ends, none is counted twice, and there is one for each interrupt
      -- that the device has raised since the start.
      pub Served-pays_all :
          {c : System} (run : SystemReach tasks d c)
          → Served run
          → IsBytes d.storage_mapped
          → IsBytes d.verify_blk
          → (is : List ℕ) × ((a : ℕ) → c.dev.verify_blk a ≡ pays_all tasks is d.verify_blk a)
            × AllFinished c.pc is
            × Distinct is
            × (c.dev.irqs ≡ d.irqs + length is)
      Served-pays_all run served storage disk =
          let (is, o, v) = settled run served storage disk in
          (is, v.parity, o.closed, o.distinct, v.raised)
