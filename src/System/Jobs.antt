-- ===== src/System/Jobs.antt =====
-- Whose data the device works on, whatever the order of the steps.
use praid.Common.{ℕ, ◌+◌, ◌≤◌, ◌≡◌, inl, inr, refl, arith, List, [], ◌∷◌}
use praid.Pciedrv.Completion.{VerifyWorkParam}
use praid.Device.Dispatcher.{PcievDev}
use praid.Device.Dispatcher.Outcome.{finish_job-Keeps}
use praid.Protocol.{finished, busy}
use praid.System.{System, at_start, SystemStep, SystemReach}
use praid.System.Areas.{HoldsAll}
use praid.System.Owned.{
  Owned, takes-Owned, interrupted-Owned, stores-Owned, posts-Owned, begins-Owned, ends-Owned,
}

module _ (tasks : ℕ → VerifyWorkParam) (fits : (i : ℕ) → (tasks i).offset + (tasks i).size ≤ 4096)
    (d : PcievDev) (num : d.bar.io_num ≡ 0) (done : d.bar.io_done ≡ 0) where
  -- How the list of the ended jobs grows in a step: by a worker whose task the areas held.
  unfoldable pub Grows : {b c : System} → SystemStep tasks b c → List ℕ → List ℕ → Type 0
  Grows {b} (SystemStep.ends r w dev' e q) is js =
      (i : ℕ) × HoldsAll (tasks i) b.dev × (js ≡ i ∷ is)
  Grows (SystemStep.takes i e h) is js = js ≡ is
  Grows (SystemStep.interrupted i e) is js = js ≡ is
  Grows (SystemStep.stores i a e h) is js = js ≡ is
  Grows (SystemStep.posts i e) is js = js ≡ is
  Grows (SystemStep.begins e h) is js = js ≡ is
  Grows (SystemStep.handles h) is js = js ≡ is

  pub step-Owned :
      {b c : System} (is : List ℕ)
      → SystemReach tasks d b
      → (step : SystemStep tasks b c) → Owned tasks fits d num done b is
      → (js : List ℕ) × Owned tasks fits d num done c js × Grows step is js
  unfolding Grows
  step-Owned is run (SystemStep.takes i e h) o =
      (is, takes-Owned tasks fits d num done i is e o, refl)
  step-Owned is run (SystemStep.interrupted i e) o =
      (is, interrupted-Owned tasks fits d num done i is e o, refl)
  step-Owned is run (SystemStep.stores i a e h) o =
      (is, stores-Owned tasks fits d num done i a is run e h o, refl)
  step-Owned is run (SystemStep.posts i e) o =
      (is, posts-Owned tasks fits d num done i is run e o, refl)
  step-Owned is run (SystemStep.begins e h) o =
      (is, begins-Owned tasks fits d num done is run h o, refl)
  step-Owned {b} is run (SystemStep.ends r w dev' e q) o =
      let (i, holds, at_end, new) = o.pending (inl e) in
      let kept = (finish_job-Keeps r w b.dev q).bar in
      (
        i ∷ is,
        ends-Owned tasks fits d num done dev' i is run e kept (at_end, new) o,
        (i, holds, refl),
      )
  step-Owned is run (SystemStep.handles h) o = (
    is,
    record { filled = o.filled; pending = o.pending; closed = o.closed; distinct = o.distinct },
    refl,
  )

  pub at_start-Owned : Owned tasks fits d num done (at_start d) []
  at_start-Owned = record {
    filled = λ i k e. absurd (cc e);
    pending = λ busy_or.
        absurd
          (elim busy_or [ inl at_work ↦ cc at_work | inr waits ↦ omega (arith, waits, num, done) ]);
    closed = tt;
    distinct = tt;
  }

  owned : {c : System} → SystemReach tasks d c → (is : List ℕ) × Owned tasks fits d num done c is
  owned SystemReach.start = ([], at_start-Owned)
  owned (SystemReach.later run step) =
      let (is, o) = owned run in let (js, o', _) = step-Owned is run step o in (js, o')

  -- Where every task lies inside a page and both counters are 0 at the start: in every state that
  -- is reached, while the device works on a job, the BAR and its storage hold all five areas of the
  -- task of one worker, which is at its end.
  pub running-HoldsAll :
      {c : System}
      → SystemReach tasks d c
      → c.phase ≡ busy
      → (i : ℕ) × HoldsAll (tasks i) c.dev × (c.pc i ≡ finished)
  running-HoldsAll run e =
      let (_, o) = owned run in let (i, holds, at_end, _) = o.pending (inl e) in (i, holds, at_end)
