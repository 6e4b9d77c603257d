-- ===== src/Device/Dispatcher/Job.antt =====
-- A job of the device, from the registers to the verify disk.
use praid.Common.{ℕ, ◌+◌, ◌/◌, ◌%◌, ◌^◌, ◌<◌, ◌≡◌, ◌∙◌, arith, ap}
use praid.Common.{leb, some, false}
use praid.Bio.{read, write}
use praid.Device.Word.{Memory, IsBytes}
use praid.Device.Xor.{xor_loop}
use praid.Device.XorLoop.{xor_loop_lem}
use praid.Device.Request.{Services, ok, memcpy}
use praid.Device.Request.Laws.{IsReady, read_lem, write_lem}
use praid.Device.Dispatcher.{
  PcievDev, write_parity, compute_parity, pciev_signal_irq, begin_job, finish_job,
  pciev_dispatcher_clac_xor_single,
}
use praid.Device.Dispatcher.Computed.{
  IsGood, IsRunning, IsJob, with_parity, fetched, fetched-IsBytes, computed-low, computed-IsBytes,
  stored,
}

write_parity_lem :
    (s : Services) (d : PcievDev) (disk' : Memory)
    → IsReady s d.bar.size
    → (page' : Memory)
    → s.submit_bio_wait write d.bar.sector_sta d.bar.size d.bar.offset
        (memcpy s.page d.bar.offset d.storage_mapped (8192 + d.bar.offset) d.bar.size)
        d.verify_blk
      ≡ some (page', disk')
    → write_parity s d ≡ pciev_signal_irq (record d { verify_blk = disk' })
unfolding write_parity
write_parity_lem s d disk' ready page' e = rw (
    write_lem s 8192 d.bar.offset d.bar.size d.bar.sector_sta d.storage_mapped d.verify_blk ready
      page' disk' e)

pciev_signal_irq_lem :
    (d : PcievDev)
    → ((pciev_signal_irq d).irqs ≡ d.irqs + 1)
      × ((pciev_signal_irq d).bar ≡ d.bar)
      × ((pciev_signal_irq d).storage_mapped ≡ d.storage_mapped)
      × ((pciev_signal_irq d).verify_blk ≡ d.verify_blk)
unfolding pciev_signal_irq
pciev_signal_irq_lem d = ground arith

-- What a job leaves at its end: its parity on the verify disk, the old and the new data and the
-- registers as they were, bytes in the storage, and one interrupt more.
pub record IsEnded (d d' : PcievDev) : Type 0 where
  pub parity : (a : ℕ) → d'.verify_blk a ≡ with_parity d a
  pub data_kept : (a : ℕ) → a < 8192 → d'.storage_mapped a ≡ d.storage_mapped a
  pub bytes : IsBytes d'.storage_mapped
  pub kept : d'.bar ≡ d.bar
  pub raised : d'.irqs ≡ d.irqs + 1

-- The same for a whole round, which counts the job as done.
pub record IsDone (d d' : PcievDev) : Type 0 where
  pub parity : (a : ℕ) → d'.verify_blk a ≡ with_parity d a
  pub data_kept : (a : ℕ) → a < 8192 → d'.storage_mapped a ≡ d.storage_mapped a
  pub counted : d'.bar ≡ record d.bar { io_done = (d.bar.io_done + 1) % 2 ^ 32 }
  pub raised : d'.irqs ≡ d.irqs + 1

compute_parity_lem :
    (s : Services) (d : PcievDev) (m : Memory)
    → xor_loop (d.bar.size / 8 + 2) d.bar.offset d.bar.size 0 d.storage_mapped ≡ some m
    → compute_parity s d ok ≡ some (write_parity s (record d { storage_mapped = m }))
unfolding compute_parity
compute_parity_lem s d m e = rw (e, compute_parity)

-- A job, put together from its two transfers and the loop between them.
finish_job-runs :
    (r w : Services) (d : PcievDev) (page₁ disk₁ m₂ page₂ disk₂ : Memory)
    → IsReady r d.bar.size
    → IsReady w d.bar.size
    → r.submit_bio_wait read d.bar.sector_sta d.bar.size d.bar.offset r.page d.verify_blk
      ≡ some (page₁, disk₁)
    → xor_loop
        (d.bar.size / 8 + 2)
        d.bar.offset
        d.bar.size
        0
        (memcpy d.storage_mapped (8192 + d.bar.offset) page₁ d.bar.offset d.bar.size)
      ≡ some m₂
    → w.submit_bio_wait write d.bar.sector_sta d.bar.size d.bar.offset
        (memcpy w.page d.bar.offset m₂ (8192 + d.bar.offset) d.bar.size)
        disk₁
      ≡ some (page₂, disk₂)
    → finish_job r w d
      ≡ some (pciev_signal_irq (record d { storage_mapped = m₂; verify_blk = disk₂ }))
unfolding finish_job
finish_job-runs r w d page₁ disk₁ m₂ page₂ disk₂ ready_r ready_w e₁ ends e₂ =
    rw
      (read_lem r 8192 d.bar.offset d.bar.size d.bar.sector_sta d.storage_mapped d.verify_blk
        ready_r page₁ disk₁ e₁)
      (compute_parity_lem w
          (record d {
            storage_mapped =
                memcpy d.storage_mapped (8192 + d.bar.offset) page₁ d.bar.offset d.bar.size;
            verify_blk = disk₁;
          })
          m₂ ends
        ∙ ap some (
            write_parity_lem w (record d { storage_mapped = m₂; verify_blk = disk₁ }) disk₂ ready_w
              page₂ e₂))

signalled-IsEnded :
    (d : PcievDev) (m disk : Memory)
    → ((a : ℕ) → disk a ≡ with_parity d a)
    → ((a : ℕ) → a < 8192 → m a ≡ d.storage_mapped a)
    → IsBytes m
    → IsEnded d (pciev_signal_irq (record d { storage_mapped = m; verify_blk = disk }))
unfolding pciev_signal_irq
signalled-IsEnded d m disk put low bytes = record {
  parity = λ a. ground (arith, put a);
  data_kept = λ a h. ground (arith, low a h);
  bytes = λ a. ground (arith, bytes a);
  kept = ground arith;
  raised = ground arith;
}

pub finish_job-IsEnded :
    (r w : Services) (d : PcievDev)
    → IsRunning d
    → IsGood r d.bar.size
    → IsGood w d.bar.size
    → (d' : PcievDev) × (finish_job r w d ≡ some d') × IsEnded d d'
finish_job-IsEnded r w d job good_r good_w =
    let ((page₁, disk₁), e₁) =
      good_r.done read d.bar.sector_sta d.bar.size d.bar.offset r.page d.verify_blk in
    let (got, same) = good_r.disk.reads _ _ _ _ _ _ _ e₁ in
    let (m₂, ends, computed) =
      xor_loop_lem (d.bar.size / 8 + 2) (d.bar.size / 8) d.bar.offset d.bar.size 0
        (fetched d job page₁ got) (omega arith) (omega (arith, job.words)) job.fits
        (fetched-IsBytes d job page₁ got) in
    let from : d.bar.offset + 0 ≡ d.bar.offset = omega arith in
    let computed' = rw from at computed in
    let ((page₂, disk₂), e₂) =
      good_w.done write d.bar.sector_sta d.bar.size d.bar.offset
        (memcpy w.page d.bar.offset m₂ (8192 + d.bar.offset) d.bar.size) disk₁ in
    (
      _,
      finish_job-runs r w d page₁ disk₁ m₂ page₂ disk₂ good_r.ready good_w.ready e₁ ends e₂,
      signalled-IsEnded d m₂ disk₂
          (stored d job page₁ got m₂ computed' disk₁ w.page disk₂ same
            (good_w.disk.writes _ _ _ _ _ _ _ e₂))
          (computed-low d job page₁ got m₂ computed')
          (computed-IsBytes d job page₁ got m₂ computed'),
    )

-- A waiting job of whole words of bytes inside a page, whose two transfers the kernel serves, is
-- carried out in one round: the stretch of the verify disk that the job names takes old parity XOR
-- old data XOR new data and the rest of that disk stays, as do the old and the new data; the job is
-- counted, and one interrupt is raised.
pub clac_xor_single-IsDone :
    (r w : Services) (d : PcievDev)
    → IsJob d
    → IsGood r d.bar.size
    → IsGood w d.bar.size
    → (d' : PcievDev) × (pciev_dispatcher_clac_xor_single r w d ≡ some d') × IsDone d d'
unfolding pciev_dispatcher_clac_xor_single
clac_xor_single-IsDone r w d job good_r good_w =
    let busy : leb d.bar.io_num d.bar.io_done ≡ false = ground (arith, job.waits) in
    let running : IsRunning (begin_job d) = record {
      words = job.words;
      fits = job.fits;
      storage = job.storage;
      parity = job.parity;
    } in
    let (d', runs, e) = finish_job-IsEnded r w (begin_job d) running good_r good_w in
    (
      d',
      rw busy runs,
      record { parity = e.parity; data_kept = e.data_kept; counted = e.kept; raised = e.raised },
    )
