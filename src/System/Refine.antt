-- ===== src/System/Refine.antt =====
-- The driver and the device with their data keep to the hand-over of jobs of Protocol.
use praid.Common.{ℕ, ◌+◌, ◌≡◌, inl, inr, refl, sym, ◌∙◌, ap, arith, false}
use praid.Pciedrv.Completion.{VerifyWorkParam}
use praid.Device.Dispatcher.{PcievDev, begin_job}
use praid.Device.Dispatcher.Outcome.{Keeps, finish_job-Keeps}
use praid.Protocol.{
  Pc, waiting, filling, finished, Phase, idle, busy, Shared, at_key, probed, Step, Reach, down,
  store, post, end_job, abort_job, pcievdrv_interrupt,
}
use praid.Protocol
use praid.System.{System, fill_area, count_job, SystemStep, SystemReach}

-- The state of Protocol that a state of the system stands for: the same semaphore, counters, phase
-- and workers, and the interrupts that are raised and not yet handled. Protocol names the worker
-- behind each area of the BAR, where the system has the data.
pub record Refines (c : System) (s : Shared) : Type 0 where
  pub sem : c.sem ≡ s.sem
  pub irqs : c.dev.irqs ≡ c.handled + s.irqs
  pub io_num : c.dev.bar.io_num ≡ s.io_num
  pub io_done : c.dev.bar.io_done ≡ s.io_done
  pub phase : c.phase ≡ s.phase
  pub pc : (i : ℕ) → c.pc i ≡ s.pc i

pub fill_area_counters :
    (a : ℕ) (param : VerifyWorkParam) (d : PcievDev)
    → ((fill_area a param d).bar.io_num ≡ d.bar.io_num)
      × ((fill_area a param d).bar.io_done ≡ d.bar.io_done)
      × ((fill_area a param d).irqs ≡ d.irqs)
unfolding fill_area
fill_area_counters a param d = ground arith

-- The end of a job, with an interrupt or without one.
simulate_ends :
    {b : System} {s : Shared} (dev' : PcievDev)
    → b.phase ≡ busy
    → Keeps b.dev dev'
    → Refines b s
    → (t : Shared) × Step false s t × Refines (record b { dev = dev'; phase = idle }) t
unfolding end_job abort_job
simulate_ends {b} {s} dev' e k r =
    let num : dev'.bar.io_num ≡ s.io_num = ap (λ x. x.io_num) k.bar ∙ r.io_num in
    let done : dev'.bar.io_done ≡ s.io_done = ap (λ x. x.io_done) k.bar ∙ r.io_done in
    elim k.irqs [
      | inl raised ↦ (
        end_job s,
        Step.ends (sym r.phase ∙ e),
        record {
          sem = r.sem;
          irqs = omega (arith, raised, r.irqs);
          io_num = num;
          io_done = done;
          phase = refl;
          pc = r.pc;
        },
      )
      | inr silent ↦ (
        abort_job s,
        Step.aborts (sym r.phase ∙ e),
        record {
          sem = r.sem;
          irqs = omega (arith, silent, r.irqs);
          io_num = num;
          io_done = done;
          phase = refl;
          pc = r.pc;
        },
      )
    ]

module _ (tasks : ℕ → VerifyWorkParam) where
  -- Each step of the system is a step of Protocol.
  simulate :
      {b c : System} {s : Shared}
      → SystemStep tasks b c
      → Refines b s
      → (t : Shared) × Step false s t × Refines c t
  unfolding count_job begin_job down store post Protocol.begin_job end_job abort_job
      pcievdrv_interrupt
  simulate {b} {s = s} (SystemStep.takes i e h) r = (
    down s i,
    Step.takes i (sym (r.pc i) ∙ e) (omega (arith, r.sem)),
    record {
      sem = omega (arith, r.sem);
      irqs = r.irqs;
      io_num = r.io_num;
      io_done = r.io_done;
      phase = r.phase;
      pc = λ j. ground (arith, r.pc j);
    },
  )
  simulate {b} {s = s} (SystemStep.interrupted i e) r = (
    record s { pc = at_key s.pc i finished },
    Step.interrupted i (sym (r.pc i) ∙ e),
    record {
      sem = r.sem;
      irqs = r.irqs;
      io_num = r.io_num;
      io_done = r.io_done;
      phase = r.phase;
      pc = λ j. ground (arith, r.pc j);
    },
  )
  simulate {b} {s = s} (SystemStep.stores i a e h) r =
      let (num, done, irqs) = fill_area_counters a (tasks i) b.dev in
      (
        store s i a,
        Step.stores i a (sym (r.pc i) ∙ e) h,
        record {
          sem = r.sem;
          irqs = irqs ∙ r.irqs;
          io_num = num ∙ r.io_num;
          io_done = done ∙ r.io_done;
          phase = r.phase;
          pc = λ j. ground (arith, r.pc j);
        },
      )
  simulate {b} {s = s} (SystemStep.posts i e) r = (
    post s i,
    Step.posts i (sym (r.pc i) ∙ e),
    record {
      sem = r.sem;
      irqs = r.irqs;
      io_num = omega (arith, r.io_num);
      io_done = r.io_done;
      phase = r.phase;
      pc = λ j. ground (arith, r.pc j);
    },
  )
  simulate {b} {s = s} (SystemStep.begins e h) r = (
    Protocol.begin_job s,
    Step.begins (sym r.phase ∙ e) (omega (arith, r.io_num, r.io_done)),
    record {
      sem = r.sem;
      irqs = r.irqs;
      io_num = r.io_num;
      io_done = omega (arith, r.io_done);
      phase = refl;
      pc = r.pc;
    },
  )
  simulate {b} {s = s} (SystemStep.ends r' w dev' e run) r =
      simulate_ends dev' e (finish_job-Keeps r' w b.dev run) r
  simulate {b} {s = s} (SystemStep.handles h) r = (
    pcievdrv_interrupt s,
    Step.handles (omega (arith, r.irqs)),
    record {
      sem = omega (arith, r.sem);
      irqs = omega (arith, r.irqs);
      io_num = r.io_num;
      io_done = r.io_done;
      phase = r.phase;
      pc = r.pc;
    },
  )

  -- Each state that the system reaches, from a device whose counters are 0, stands for a state
  -- that Protocol reaches.
  pub SystemReach-Refines :
      (d : PcievDev)
      → d.bar.io_num ≡ 0
      → d.bar.io_done ≡ 0
      → {c : System} → SystemReach tasks d c
      → (s : Shared) × Reach false s × Refines c s
  SystemReach-Refines d num done SystemReach.start = (
    probed,
    Reach.start,
    record {
      sem = refl;
      irqs = omega arith;
      io_num = num;
      io_done = done;
      phase = refl;
      pc = λ i. refl;
    },
  )
  SystemReach-Refines d num done (SystemReach.later run step) =
      let (s, reach, r) = SystemReach-Refines d num done run in
      let (t, step', r') = simulate step r in (t, Reach.later reach step', r')
