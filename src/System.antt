-- ===== src/System.antt =====
-- pciedrv.c and the device together, with the bytes that they share: the kworkers, the semaphore,
-- the interrupt handler and the dispatcher thread of Protocol, where each step moves the data that
-- the code moves. `kmap` does not fail here, and the two transfers of a job are one step with the
-- end of the job: no worker is at the BAR then.
pub mod Refine
pub mod Areas
pub mod Ledger
pub mod Owned
pub mod Jobs
pub mod Pays
pub mod Parity
pub mod Progress
use praid.Common.{ℕ, ◌+◌, ◌-◌, ◌%◌, ◌^◌, ◌<◌, ◌≡◌, some, ◌==◌, if◌then◌else◌}
use praid.Geometry.{chunk_size}
use praid.Pciedrv.Completion.{VerifyWorkParam}
use praid.Device.Request.{Services, memcpy}
use praid.Device.Dispatcher.{PcievDev, begin_job, finish_job}
use praid.Protocol.{Pc, waiting, filling, finished, Phase, idle, busy, at_key}

-- `dev.irqs` counts the interrupts that the device has raised, `handled` those that the handler
-- has seen.
pub record System : Type 0 where
  pub sem : ℕ
  pub handled : ℕ
  pub phase : Phase
  pub dev : PcievDev
  pub pc : ℕ → Pc

-- `probed`, with the device as it is then.
abbrev pub at_start : PcievDev → System
at_start d = record { sem = 1; handled = d.irqs; phase = idle; dev = d; pc = λ _. waiting }

-- What the worker writes in one step: one of the two copies, or one of the three registers.
unfoldable pub fill_area : ℕ → VerifyWorkParam → PcievDev → PcievDev
fill_area c param d =
    if c == 0
    then record d {
      storage_mapped =
          memcpy d.storage_mapped (0 + param.offset) param.page_old param.offset param.size;
    }
    else if c == 1
    then record d {
      storage_mapped =
          memcpy d.storage_mapped (chunk_size + param.offset) param.page_new param.offset
            param.size;
    }
    else if c == 2
    then record d { bar = record d.bar { offset = param.offset } }
    else if c == 3
    then record d { bar = record d.bar { size = param.size } }
    else record d { bar = record d.bar { sector_sta = param.num_sector } }

unfoldable pub count_job : PcievDev → PcievDev
count_job d = record d { bar = record d.bar { io_num = (d.bar.io_num + 1) % 2 ^ 32 } }

-- `tasks i` is the task of worker `i`; `d` is the device at the start.
module _ (tasks : ℕ → VerifyWorkParam) where
  pub data SystemStep (c : System) : System → Type 0 where
    takes :
        (i : ℕ)
        → c.pc i ≡ waiting
        → 0 < c.sem
        → SystemStep c (record c { sem = c.sem - 1; pc = at_key c.pc i (filling 0) })
    interrupted :
        (i : ℕ) → c.pc i ≡ waiting → SystemStep c (record c { pc = at_key c.pc i finished })
    stores :
        (i a : ℕ)
        → c.pc i ≡ filling a
        → a < 5
        → SystemStep c
            (record c { dev = fill_area a (tasks i) c.dev; pc = at_key c.pc i (filling (a + 1)) })
    posts :
        (i : ℕ)
        → c.pc i ≡ filling 5
        → SystemStep c (record c { dev = count_job c.dev; pc = at_key c.pc i finished })
    begins :
        c.phase ≡ idle
        → c.dev.bar.io_done < c.dev.bar.io_num
        → SystemStep c (record c { dev = begin_job c.dev; phase = busy })
    -- The job ends with an interrupt, or without one.
    ends :
        (r w : Services) (dev' : PcievDev)
        → c.phase ≡ busy
        → finish_job r w c.dev ≡ some dev'
        → SystemStep c (record c { dev = dev'; phase = idle })
    handles :
        c.handled < c.dev.irqs
        → SystemStep c (record c { sem = c.sem + 1; handled = c.handled + 1 })

  pub data SystemReach (d : PcievDev) : System → Type 0 where
    start : SystemReach d (at_start d)
    later : {b c : System} → SystemReach d b → SystemStep b c → SystemReach d c
