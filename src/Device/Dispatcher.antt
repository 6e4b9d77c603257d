-- ===== src/Device/Dispatcher.antt =====
-- pci.c and device.c: the registers of the parity device, and one round of its dispatcher.
pub mod Computed
pub mod Job
pub mod Outcome
use praid.Common.{ℕ, ◌+◌, ◌%◌, ◌/◌, ◌^◌, Bool, Option, none, some, leb, ◌==◌, if◌then◌else◌}
use praid.Bio.{read, write}
use praid.Device.Word.{Memory}
use praid.Device.Xor.{xor_loop, res}
use praid.Device.Request.{Services, Result, Ret, pciev_submit_bio}

-- `struct pciev_bar`, with the fields of `io_property`.
pub record PcievBar : Type 0 where
  pub dev_cnt : ℕ
  pub offset : ℕ
  pub size : ℕ
  pub sector_sta : ℕ
  pub io_num : ℕ
  pub io_done : ℕ

-- The parts of `struct pciev_dev` that the dispatcher works on, with the verify disk behind
-- `verify_blk` and the number of interrupts raised so far.
pub record PcievDev : Type 0 where
  pub bar : PcievBar
  pub old_bar : PcievBar
  pub storage_mapped : Memory
  pub verify_blk : Memory
  pub msix_enabled : Bool
  pub sts_is : ℕ
  pub irqs : ℕ

-- `dev_cnt` is read only: a value that the host wrote is replaced.
unfoldable pub pciev_proc_bars : PcievDev → PcievDev
pciev_proc_bars d =
    if d.old_bar.dev_cnt == d.bar.dev_cnt
    then d
    else record d { bar = record d.bar { dev_cnt = d.old_bar.dev_cnt } }

unfoldable pub pciev_signal_irq : PcievDev → PcievDev
pciev_signal_irq d =
    if d.msix_enabled
    then record d { irqs = d.irqs + 1 }
    else record d { sts_is = 1; irqs = d.irqs + 1 }

-- The device after a transfer, which changes the mapped storage and the verify disk.
abbrev pub after : PcievDev → Result → PcievDev
after d r = record d { storage_mapped = r.mem; verify_blk = r.disk }

-- Behind the second transfer: the interrupt, unless it failed.
unfoldable pub finish_write : PcievDev → Ret → PcievDev
unfolding pciev_signal_irq
finish_write d Ret.ok = pciev_signal_irq d
finish_write d Ret.einval = d
finish_write d Ret.eio = d

unfoldable pub write_parity : Services → PcievDev → PcievDev
unfolding finish_write
write_parity s d =
    let r =
      pciev_submit_bio s res d.bar.offset d.bar.size d.bar.sector_sta write d.storage_mapped
        d.verify_blk in
    finish_write (after d r) r.ret

-- Behind the first transfer. The loop gets fuel for one round more than the words of the job.
unfoldable pub compute_parity : Services → PcievDev → Ret → Option PcievDev
unfolding write_parity
compute_parity s d Ret.ok =
    elim (xor_loop (d.bar.size / 8 + 2) d.bar.offset d.bar.size 0 d.storage_mapped) [
      | none ↦ none
      | some mem ↦ some (write_parity s (record d { storage_mapped = mem }))
    ]
compute_parity s d Ret.einval = some d
compute_parity s d Ret.eio = some d

-- The job is counted as done before it is begun; `io_done` is a `uint32_t`.
unfoldable pub begin_job : PcievDev → PcievDev
begin_job d = record d { bar = record d.bar { io_done = (d.bar.io_done + 1) % 2 ^ 32 } }

-- The job behind `io_done ++`; `r` and `w` are the kernel's answers for the two transfers.
unfoldable pub finish_job : Services → Services → PcievDev → Option PcievDev
unfolding compute_parity
finish_job r w d =
    let got =
      pciev_submit_bio r res d.bar.offset d.bar.size d.bar.sector_sta read d.storage_mapped
        d.verify_blk in
    compute_parity w (after d got) got.ret

unfoldable pub pciev_dispatcher_clac_xor_single : Services → Services → PcievDev → Option PcievDev
unfolding finish_job begin_job
pciev_dispatcher_clac_xor_single r w d =
    if leb d.bar.io_num d.bar.io_done then some d else finish_job r w (begin_job d)

-- The body of the loop of `pciev_dispatcher`.
unfoldable pub dispatcher_round : Services → Services → PcievDev → Option PcievDev
unfolding pciev_proc_bars pciev_dispatcher_clac_xor_single
dispatcher_round r w d = pciev_dispatcher_clac_xor_single r w (pciev_proc_bars d)
