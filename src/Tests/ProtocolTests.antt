-- ===== src/Tests/ProtocolTests.antt =====
-- One worker's way through a job.
use praid.Common.{ℕ, ◌≡◌, ◌≢◌, refl, arith, true, false}
use praid.Protocol.{
  Shared, probed, Reach, Run, here, start, later, takes, stores, posts, begins, idle, busy, filling,
  waiting, down, store, post, begin_job, abort_job,
}
use praid.Protocol.Exclusion.{filling-alone, abort-blocks, copy_failed-overlaps}

abbrev taken : Shared
taken = down probed 0

abbrev filled : Shared
filled = store (store (store (store (store taken 0 0) 0 1) 0 2) 0 3) 0 4

abbrev at_work : Shared
at_work = begin_job (post filled 0)

Reach-taken : Reach false taken
Reach-taken = later start (takes 0 refl (omega arith))

Reach-filled : Reach false filled
unfolding down store
Reach-filled =
    later
      (later
        (later
          (later (later Reach-taken (stores 0 0 refl (omega arith)))
            (stores 0 1 refl (omega arith)))
          (stores 0 2 refl (omega arith)))
        (stores 0 3 refl (omega arith)))
      (stores 0 4 refl (omega arith))

Reach-at_work : Reach false at_work
unfolding down store post
Reach-at_work = later (later Reach-filled (posts 0 refl)) (begins refl (omega arith))

taken_filling : taken.pc 0 ≡ filling 0
unfolding down
taken_filling = refl

taken_waiting : taken.pc 1 ≡ waiting
unfolding down
taken_waiting = refl

at_work_busy : at_work.phase ≡ busy
unfolding begin_job
at_work_busy = refl

filling-alone_example :
    ((j l : ℕ) → taken.pc j ≡ filling l → j ≡ 0)
    × (taken.phase ≡ idle)
    × (taken.io_num ≡ taken.io_done)
filling-alone_example = filling-alone 0 0 Reach-taken taken_filling

abort-blocks_example :
    ((abort_job at_work).sem ≡ 0) × ((i k : ℕ) → (abort_job at_work).pc i ≢ filling k)
abort-blocks_example = abort-blocks Reach-at_work at_work_busy here

copy_failed-overlaps_example :
    (t : Shared) × Run true taken t × (t.pc 0 ≡ filling 2) × (t.pc 1 ≡ filling 0)
copy_failed-overlaps_example =
    copy_failed-overlaps taken 0 1 0 taken_filling (omega arith) taken_waiting
