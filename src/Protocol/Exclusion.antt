-- ===== src/Protocol/Exclusion.antt =====
-- What the hand-over of jobs guarantees, and what its two error paths break.
use praid.Common.{ℕ, ◌<◌, ◌≡◌, ◌≢◌, refl, arith, true, false}
use praid.Protocol.{
  waiting, filling, idle, busy, Shared, Step, Reach, Run, here, next, takes, interrupted, stores,
  fails, posts, begins, ends, aborts, handles, down, copy_failed, abort_job,
}
use praid.Protocol.Safety.{Permit, Inv, Reach-Inv, aborts-Inv, interrupted-Inv}

-- In every state that is reached without a failed `kmap`: a worker that is filling the BAR is the
-- only one, and the device is not at work and has no job waiting.
pub filling-alone :
    {s : Shared} (i k : ℕ)
    → Reach false s
    → s.pc i ≡ filling k
    → ((j l : ℕ) → s.pc j ≡ filling l → j ≡ i) × (s.phase ≡ idle) × (s.io_num ≡ s.io_done)
filling-alone {s} i k r e = from (Reach-Inv r).0 (Reach-Inv r).1
  where
    from :
        (p : Permit)
        → Inv p s
        → ((j l : ℕ) → s.pc j ≡ filling l → j ≡ i) × (s.phase ≡ idle) × (s.io_num ≡ s.io_done)
    from (Permit.held w) v = (λ j l q. cc (v.alone i k e, v.alone j l q), v.phase, v.jobs)
    from _ v = absurd (cc (v.alone i k e))

-- A running job is counted: no other one waits.
pub busy-counted : {s : Shared} → Reach false s → s.phase ≡ busy → s.io_num ≡ s.io_done
busy-counted {s} r e = from (Reach-Inv r).0 (Reach-Inv r).1
  where
    from : (p : Permit) → Inv p s → s.io_num ≡ s.io_done
    from (Permit.running w) v = v.jobs
    from _ v = absurd (ground (arith, v.phase))

-- In every state that is reached without a failed `kmap`: while the device is at work, the five
-- areas of the BAR hold the values of one worker.
pub busy-unmixed :
    {s : Shared} → Reach false s → s.phase ≡ busy → (w : ℕ) × ((c : ℕ) → c < 5 → s.cell c ≡ w)
busy-unmixed {s} r e = from (Reach-Inv r).0 (Reach-Inv r).1
  where
    from : (p : Permit) → Inv p s → (w : ℕ) × ((c : ℕ) → c < 5 → s.cell c ≡ w)
    from (Permit.running w) v = (w, v.filled)
    from _ v = absurd (ground (arith, v.phase))

lost-Step : {s t : Shared} → Step false s t → Inv Permit.lost s → Inv Permit.lost t
lost-Step {s} (takes i e h) v = absurd (omega (arith, v.sem))
lost-Step {s} (interrupted i e) v = interrupted-Inv s Permit.lost i e v
lost-Step {s} (stores i c e h) v = absurd (cc (v.alone i c e))
lost-Step (fails i c never e h) v = absurd (cc never)
lost-Step (posts i e) v = absurd (cc (v.alone i 5 e))
lost-Step (begins e h) v = absurd (omega (arith, v.jobs))
lost-Step (ends e) v = absurd (ground (arith, v.phase))
lost-Step (aborts e) v = absurd (ground (arith, v.phase))
lost-Step (handles h) v = absurd (omega (arith, v.irqs))

lost-Run : {s t : Shared} → Inv Permit.lost s → Run false s t → Inv Permit.lost t
lost-Run v here = v
lost-Run v (next r st) = lost-Step st (lost-Run v r)

-- Where the device aborts a job, in a state that is reached without a failed `kmap`: in every later
-- state that needs no failed `kmap` either, the semaphore is 0 and no worker is filling the BAR.
pub abort-blocks :
    {s t : Shared}
    → Reach false s
    → s.phase ≡ busy
    → Run false (abort_job s) t
    → (t.sem ≡ 0) × ((i k : ℕ) → t.pc i ≢ filling k)
abort-blocks {s} r e run =
    let v = lost-Run (aborts-Inv s (Reach-Inv r).0 e (Reach-Inv r).1) run in
    (v.sem, λ i k q. cc (v.alone i k q))

-- Where `kmap` may fail: from every state in which one worker is at one of its two copies and
-- another one waits, a run leads to a state in which both fill the BAR.
pub copy_failed-overlaps :
    (s : Shared) (i j c : ℕ)
    → s.pc i ≡ filling c
    → c < 2
    → s.pc j ≡ waiting
    → (t : Shared) × Run true s t × (t.pc i ≡ filling 2) × (t.pc j ≡ filling 0)
unfolding copy_failed down
copy_failed-overlaps s i j c e h w = (
  down (copy_failed s i) j,
  next (next here (fails i c refl e h)) (takes j (ground arith) (omega arith)),
  ground arith,
  ground arith,
)
