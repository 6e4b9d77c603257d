-- ===== src/System/Progress.antt =====
-- A worker that waits can always be served: its job can be run to its end from a quiet state.
use praid.Common.{
  ℕ, zero, suc, ◌+◌, ◌-◌, ◌^◌, ◌≤◌, ◌<◌, ◌≡◌, refl, sym, ap, subst, ◌∙◌, arith, Bool-cases, inl,
  inr, ◌==◌, List, [], ◌∷◌, length,
}
use praid.Pciedrv.Completion.{VerifyWorkParam}
use praid.Device.Word.{IsBytes}
use praid.Device.Request.{Services}
use praid.Device.Dispatcher.{PcievDev, begin_job}
use praid.Device.Dispatcher.Computed.{IsGood}
use praid.Device.Dispatcher.Job.{finish_job-IsEnded}
use praid.Protocol.{Pc, waiting, filling, finished, idle, busy, at_key}
use praid.System.{System, at_start, fill_area, count_job, SystemStep, SystemReach}
use praid.System.Refine.{fill_area_counters}
use praid.System.Ledger.{NotIn, Distinct, at_key-cases}
use mathlib.Core.List.{Mem, mem-cons_self, mem-cons_of_mem}
use praid.System.Pays.{IsWordTask}
use mathlib.Core.Path.{fun_ext}
use praid.System.Parity.{ServedStep, Served, settled}

at_key-at_key : (f : ℕ → Pc) (i : ℕ) (v w : Pc) → at_key (at_key f i v) i w ≡ at_key f i w
at_key-at_key f i v w = fun_ext (λ j. ground arith)

at_key-same : (f : ℕ → Pc) (i : ℕ) (v : Pc) → f i ≡ v → at_key f i v ≡ f
at_key-same f i v e = fun_ext (λ j. elim (Bool-cases (i == j)) [
  | inl same ↦ let same' : i ≡ j = ground (arith, same) in rw (same, ← e, same') refl
  | inr other ↦ rw other refl
])

-- The first `a` areas of a task, filled one after the other.
fill_upto : ℕ → VerifyWorkParam → PcievDev → PcievDev
fill_upto zero p d = d
fill_upto (suc a) p d = fill_area a p (fill_upto a p d)

module _ (p : VerifyWorkParam) (d : PcievDev) where
  fill_upto_counters :
      (a : ℕ)
      → ((fill_upto a p d).bar.io_num ≡ d.bar.io_num)
        × ((fill_upto a p d).bar.io_done ≡ d.bar.io_done)
        × ((fill_upto a p d).irqs ≡ d.irqs)
  unfolding fill_upto
  fill_upto_counters zero = (refl, refl, refl)
  fill_upto_counters (suc a) =
      let (num, done, irqs) = fill_area_counters a p (fill_upto a p d) in
      let (num', done', irqs') = fill_upto_counters a in (num ∙ num', done ∙ done', irqs ∙ irqs')

  filled_registers :
      ((fill_upto 5 p d).bar.offset ≡ p.offset) × ((fill_upto 5 p d).bar.size ≡ p.size)
  unfolding fill_upto fill_area
  filled_registers = (refl, refl)

module _ (tasks : ℕ → VerifyWorkParam) (d : PcievDev) where
  -- A run to a state, with the transfers of every job served.
  abbrev pub Runs : System → Type 0
  Runs c = (run : SystemReach tasks d c) × Served tasks run

  onward : {b c : System} → Runs b → (step : SystemStep tasks b c) → ServedStep tasks step → Runs c
  unfolding Served
  onward (run, before) step now = (SystemReach.later run step, (now, before))

  fills :
      (b : System) (i : ℕ)
      → Runs b
      → b.pc i ≡ filling 0
      → (a : ℕ) → a ≤ 5
      → Runs (record b { dev = fill_upto a (tasks i) b.dev; pc = at_key b.pc i (filling a) })
  unfolding fill_upto ServedStep
  fills b i run e zero h =
      subst (λ f. Runs (record b { pc = f })) (sym (at_key-same b.pc i (filling 0) e)) run
  fills b i run e (suc a) h =
      let c : System = record b {
        dev = fill_upto a (tasks i) b.dev;
        pc = at_key b.pc i (filling a);
      } in
      let next : a + 1 ≡ suc a = omega arith in
      let stored =
        onward (fills b i run e a (omega arith))
          (SystemStep.stores i a (ground arith) (omega arith)) tt in
      subst (λ f. Runs (record c { dev = fill_area a (tasks i) c.dev; pc = f }))
        (at_key-at_key b.pc i (filling a) (filling (a + 1))
          ∙ ap (λ k. at_key b.pc i (filling k)) next)
        stored

-- No worker is at the BAR, no job waits or runs, and every interrupt has been handled.
pub record IsQuiet (c : System) : Type 0 where
  pub sem : c.sem ≡ 1
  pub phase : c.phase ≡ idle
  pub jobs : c.dev.bar.io_num ≡ c.dev.bar.io_done
  pub handled : c.handled ≡ c.dev.irqs

-- The state behind the job of worker `i`, which leaves the device `dev'`.
abbrev pub behind : System → ℕ → PcievDev → System
behind b i dev' = record b {
  sem = b.sem - 1 + 1;
  handled = b.handled + 1;
  phase = idle;
  dev = dev';
  pc = at_key b.pc i finished;
}

-- The workers of the list have ended, each with an interrupt, and the others wait.
pub record IsServed (d : PcievDev) (is : List ℕ) (c : System) : Type 0 where
  pub quiet : IsQuiet c
  pub raised : c.dev.irqs ≡ d.irqs + length is
  pub io_num : c.dev.bar.io_num ≡ length is
  pub others : (j : ℕ) → NotIn j is → c.pc j ≡ waiting
  pub only : (j : ℕ) → c.pc j ≡ finished → Mem j is

module _ (tasks : ℕ → VerifyWorkParam) (fine : (i : ℕ) → IsWordTask (tasks i)) (d : PcievDev)
    (num : d.bar.io_num ≡ 0) (done : d.bar.io_done ≡ 0) (storage : IsBytes d.storage_mapped)
    (disk : IsBytes d.verify_blk) where
  -- The device works on the job of worker `i`.
  abbrev at_work : System → ℕ → System
  at_work b i = record b {
    sem = b.sem - 1;
    dev = begin_job (count_job (fill_upto 5 (tasks i) b.dev));
    phase = busy;
    pc = at_key b.pc i finished;
  }

  at_work-Runs :
      (b : System) (i : ℕ)
      → Runs tasks d b
      → IsQuiet b
      → b.pc i ≡ waiting
      → b.dev.bar.io_num + 1 < 2 ^ 32
      → Runs tasks d (at_work b i)
  unfolding ServedStep count_job
  at_work-Runs b i run quiet w small =
      let s₁ : System = record b { sem = b.sem - 1; pc = at_key b.pc i (filling 0) } in
      let run₁ : Runs tasks d s₁ =
        onward tasks d run (SystemStep.takes i w (omega (arith, quiet.sem))) tt in
      let run₂ = fills tasks d s₁ i run₁ (ground arith) 5 (omega arith) in
      let s₂ : System = record s₁ {
        dev = fill_upto 5 (tasks i) b.dev;
        pc = at_key s₁.pc i (filling 5);
      } in
      let run₃ = onward tasks d run₂ (SystemStep.posts i (ground arith)) tt in
      let (num', done', _) = fill_upto_counters (tasks i) b.dev 5 in
      let s₃ : System = record s₂ { dev = count_job s₂.dev; pc = at_key s₂.pc i finished } in
      let run₄ =
        onward tasks d run₃
          (SystemStep.begins quiet.phase (omega (arith, num', done', quiet.jobs, small))) tt in
      subst (λ f. Runs tasks d (record s₃ { dev = begin_job s₃.dev; phase = busy; pc = f }))
        (at_key-at_key s₁.pc i (filling 5) finished ∙ at_key-at_key b.pc i (filling 0) finished)
        run₄

  serve :
      (b : System) (i : ℕ) (r w : Services)
      → Runs tasks d b
      → IsQuiet b
      → b.pc i ≡ waiting
      → b.dev.bar.io_num + 1 < 2 ^ 32
      → IsGood r (tasks i).size
      → IsGood w (tasks i).size
      → (dev' : PcievDev) × Runs tasks d (behind b i dev')
        × IsQuiet (behind b i dev')
        × (dev'.irqs ≡ b.dev.irqs + 1)
        × (dev'.bar.io_num ≡ b.dev.bar.io_num + 1)
  unfolding ServedStep count_job begin_job
  serve b i r w run quiet waits small good_r good_w =
      let run' = at_work-Runs b i run quiet waits small in
      let (at, long) = filled_registers (tasks i) b.dev in
      let (num', done', irqs') = fill_upto_counters (tasks i) b.dev 5 in
      let (_, _, v) = settled tasks fine d num done run'.0 run'.1 storage disk in
      let (dev', runs, ended) =
        finish_job-IsEnded r w (at_work b i).dev
          (record {
            words = omega (arith, long, (fine i).words);
            fits = omega (arith, at, long, (fine i).fits);
            storage = v.storage;
            parity = v.disk;
          })
          (rw long good_r) (rw long good_w) in
      let run₅ =
        onward tasks d run' (SystemStep.ends r w dev' refl runs) (rw long good_r, rw long good_w) in
      let run₆ =
        onward tasks d run₅ (SystemStep.handles (omega (arith, ended.raised, irqs', quiet.handled)))
          tt in
      let counted : dev'.bar.io_num ≡ b.dev.bar.io_num + 1 =
        omega (arith, ap (λ x. x.io_num) ended.kept, num', small) in
      let closed : dev'.bar.io_done ≡ b.dev.bar.io_num + 1 =
        omega (arith, ap (λ x. x.io_done) ended.kept, done', quiet.jobs, small) in
      (
        dev',
        run₆,
        record {
          sem = omega (arith, quiet.sem);
          phase = refl;
          jobs = counted ∙ sym closed;
          handled = omega (arith, ended.raised, irqs', quiet.handled);
        },
        omega (arith, ended.raised, irqs'),
        counted,
      )

  served_none : IsServed d [] (at_start d)
  served_none = record {
    quiet = record { sem = refl; phase = refl; jobs = num ∙ sym done; handled = refl };
    raised = omega arith;
    io_num = num;
    others = λ j new. refl;
    only = λ j e. absurd (cc e);
  }

  module _ (r w : ℕ → Services) (good_r : (i : ℕ) → IsGood (r i) (tasks i).size)
      (good_w : (i : ℕ) → IsGood (w i) (tasks i).size) where
    -- The workers of a list without repetition can be served one after the other, the last first.
    pub serve_all :
        (is : List ℕ)
        → Distinct is
        → length is < 2 ^ 32
        → (c : System) × Runs tasks d c × IsServed d is c
    unfolding Served
    serve_all [] distinct few = (at_start d, (SystemReach.start, tt), served_none)
    serve_all (i ∷ is) (new, distinct) few =
        let (b, run, v) = serve_all is distinct (omega (arith, few)) in
        let (dev', run', quiet, raised, counted) =
          serve b i (r i) (w i) run v.quiet (v.others i new) (omega (arith, few, v.io_num))
            (good_r i) (good_w i) in
        (
          behind b i dev',
          run',
          record {
            quiet = quiet;
            raised = omega (arith, raised, v.raised);
            io_num = omega (arith, counted, v.io_num);
            others = λ j (ne, rest). elim (Bool-cases (i == j)) [
              | inl same ↦ absurd (ground (arith, same, ne))
              | inr other ↦ rw other (v.others j rest)
            ];
            only = λ j e. elim (at_key-cases b.pc i j finished finished e) [
              | inl (same, _) ↦ rw same mem-cons_self
              | inr (_, e') ↦ mem-cons_of_mem i (v.only j e')
            ];
          },
        )
