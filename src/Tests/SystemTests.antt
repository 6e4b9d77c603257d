-- ===== src/Tests/SystemTests.antt =====
-- Worker 0 writes ones over zeros at sector 3, beside a disk in memory.
use praid.Common.{ℕ, ◌+◌, ◌≡◌, refl, arith, false, some, List, length}
use praid.Pciedrv.Completion.{VerifyWorkParam}
use praid.Device.Word.{IsBytes}
use praid.Device.Start.{started_device, init_pciev_bar}
use praid.Device.Dispatcher.{PcievDev, begin_job, finish_job}
use praid.Device.Dispatcher.Computed.{IsRunning}
use praid.Device.Dispatcher.Job.{IsEnded, finish_job-IsEnded}
use praid.Work.{memcpy-IsBytes}
use praid.Protocol.{Shared, Reach, finished, idle, busy, filling, at_key}
use praid.System.{
  System, at_start, fill_area, count_job, SystemReach, start, later, takes, stores, posts, begins,
  ends,
}
use praid.System.Areas.{HoldsAll}
use praid.System.Ledger.{AllFinished, Distinct}
use praid.System.Refine.{Refines, SystemReach-Refines}
use praid.System.Jobs.{running-HoldsAll}
use praid.System.Pays.{IsWordTask, pays_all}
use praid.System.Parity.{ServedStep, Served, Served-pays_all}
use praid.Tests.DeviceTests.{blank, ram, ram-IsGood, task}

abbrev started : PcievDev
started = started_device 2 blank blank

abbrev tasks : ℕ → VerifyWorkParam
tasks _ = task

abbrev to_area : System → ℕ → System
to_area c a = record c { dev = fill_area a task c.dev; pc = at_key c.pc 0 (filling (a + 1)) }

abbrev taken : System
taken = record (at_start started) { sem = 0; pc = at_key (at_start started).pc 0 (filling 0) }

abbrev filled : System
filled = to_area (to_area (to_area (to_area (to_area taken 0) 1) 2) 3) 4

abbrev posted : System
posted = record filled { dev = count_job filled.dev; pc = at_key filled.pc 0 finished }

abbrev at_work : System
at_work = record posted { dev = begin_job posted.dev; phase = busy }

at_work_run : SystemReach tasks started at_work
unfolding fill_area count_job begin_job started_device init_pciev_bar
at_work_run =
    let t₀ : SystemReach tasks started taken = later start (takes 0 refl (omega arith)) in
    let t₁ : SystemReach tasks started (to_area taken 0) =
      later t₀ (stores 0 0 refl (omega arith)) in
    let t₂ : SystemReach tasks started (to_area (to_area taken 0) 1) =
      later t₁ (stores 0 1 refl (omega arith)) in
    let t₃ : SystemReach tasks started (to_area (to_area (to_area taken 0) 1) 2) =
      later t₂ (stores 0 2 refl (omega arith)) in
    let t₄ : SystemReach tasks started (to_area (to_area (to_area (to_area taken 0) 1) 2) 3) =
      later t₃ (stores 0 3 refl (omega arith)) in
    let t₅ : SystemReach tasks started filled = later t₄ (stores 0 4 refl (omega arith)) in
    later (later t₅ (posts 0 refl)) (begins refl (omega arith))

SystemReach-Refines_example : (s : Shared) × Reach false s × Refines at_work s
unfolding started_device
SystemReach-Refines_example = SystemReach-Refines tasks started refl refl at_work_run

running-HoldsAll_example : (i : ℕ) × HoldsAll (tasks i) at_work.dev × (at_work.pc i ≡ finished)
unfolding started_device
running-HoldsAll_example =
    running-HoldsAll tasks (λ i. omega arith) started refl refl at_work_run refl

at_work-IsRunning : IsRunning at_work.dev
unfolding fill_area count_job begin_job started_device init_pciev_bar
at_work-IsRunning =
    let bytes : IsBytes (λ _. 0) = λ a. omega arith in
    let old = memcpy-IsBytes (λ _. 0) (λ _. 0) 512 512 1024 bytes bytes in
    record {
      words = refl;
      fits = omega arith;
      storage = memcpy-IsBytes _ (λ _. 1) 4608 512 1024 old (λ a. omega arith);
      parity = bytes;
    }

job :
    (d' : PcievDev) × (finish_job (ram 1024) (ram 1024) at_work.dev ≡ some d')
    × IsEnded at_work.dev d'
unfolding fill_area count_job begin_job started_device init_pciev_bar
job =
    finish_job-IsEnded (ram 1024) (ram 1024) at_work.dev at_work-IsRunning (ram-IsGood 1024)
      (ram-IsGood 1024)

abbrev ended : System
ended = record at_work { dev = job.0; phase = idle }

ended_run : SystemReach tasks started ended
ended_run = later at_work_run (ends (ram 1024) (ram 1024) job.0 refl job.1)

ended_run-Served : Served tasks ended_run
unfolding at_work_run ended_run Served ServedStep fill_area count_job begin_job started_device
    init_pciev_bar
ended_run-Served =
    ((ram-IsGood 1024, ram-IsGood 1024), (tt, (tt, (tt, (tt, (tt, (tt, (tt, (tt, tt)))))))))

pub task-IsWordTask : IsWordTask task
task-IsWordTask = record {
  words = refl;
  fits = omega arith;
  old = λ a. omega arith;
  new = λ a. omega arith;
}

Served-pays_all_example :
    (is : List ℕ) × ((a : ℕ) → ended.dev.verify_blk a ≡ pays_all tasks is started.verify_blk a)
    × AllFinished ended.pc is
    × Distinct is
    × (ended.dev.irqs ≡ 0 + length is)
unfolding started_device
Served-pays_all_example =
    Served-pays_all tasks (λ _. task-IsWordTask) started refl refl ended_run ended_run-Served
      (λ a. omega arith) (λ a. omega arith)
