-- ===== src/Protocol/Safety.antt =====
-- One job at a time: who may touch the BAR, in every reachable state.
use praid.Common.{ℕ, ◌+◌, ◌%◌, ◌^◌, ◌<◌, ◌≡◌, refl, arith, false}
use praid.Protocol.{
  waiting, filling, finished, Phase, idle, busy, Shared, at_key, probed, Step, Reach, start, later,
  takes, interrupted, stores, fails, posts, begins, ends, aborts, handles, down, store, post,
  begin_job, end_job, abort_job, pcievdrv_interrupt,
}

-- Where the one permit is: in the semaphore, with a worker, in a posted job, in a running one, in
-- a raised interrupt, or gone with a job that was aborted.
pub data Permit : Type 0 where
  free raised lost : Permit
  held posted running : (worker : ℕ) → Permit

abbrev in_sem : Permit → ℕ
in_sem Permit.free = 1
in_sem _ = 0

abbrev in_irq : Permit → ℕ
in_irq Permit.raised = 1
in_irq _ = 0

abbrev next_io : Permit → ℕ → ℕ
next_io (Permit.posted _) n = (n + 1) % 2 ^ 32
next_io _ n = n

abbrev phase_of : Permit → Phase
phase_of (Permit.running _) = busy
phase_of _ = idle

-- What the areas of the BAR hold.
abbrev Filled : Permit → Shared → Type 0
Filled (Permit.held i) s = (k : ℕ) → s.pc i ≡ filling k → (c : ℕ) → c < k → s.cell c ≡ i
Filled (Permit.posted i) s = (c : ℕ) → c < 5 → s.cell c ≡ i
Filled (Permit.running i) s = (c : ℕ) → c < 5 → s.cell c ≡ i
Filled _ s = Unit

pub record Inv (p : Permit) (s : Shared) : Type 0 where
  pub sem : s.sem ≡ in_sem p
  pub irqs : s.irqs ≡ in_irq p
  pub jobs : s.io_num ≡ next_io p s.io_done
  pub phase : s.phase ≡ phase_of p
  pub alone : (j k : ℕ) → s.pc j ≡ filling k → p ≡ Permit.held j
  pub filled : Filled p s

Inv-probed : Inv Permit.free probed
Inv-probed = record {
  sem = refl;
  irqs = refl;
  jobs = refl;
  phase = refl;
  alone = λ j k e. cc;
  filled = tt;
}

module _ (s : Shared) where
  takes-Inv :
      (p : Permit) (i : ℕ) → s.pc i ≡ waiting → 0 < s.sem → Inv p s → Inv (Permit.held i) (down s i)
  unfolding down
  takes-Inv Permit.free i e h v = record {
    sem = omega (arith, v.sem);
    irqs = v.irqs;
    jobs = v.jobs;
    phase = v.phase;
    alone = λ j k q. ground (arith, v.alone j k);
    filled = λ k q c lt. ground arith;
  }
  takes-Inv _ i e h v = absurd (omega (arith, v.sem))

  pub interrupted-Inv :
      (p : Permit) (i : ℕ)
      → s.pc i ≡ waiting
      → Inv p s
      → Inv p (record s { pc = at_key s.pc i finished })
  interrupted-Inv p i e v = record {
    sem = v.sem;
    irqs = v.irqs;
    jobs = v.jobs;
    phase = v.phase;
    alone = λ j k q. ground (arith, v.alone j k);
    filled = still p v.filled;
  }
    where
      still : (p : Permit) → Filled p s → Filled p (record s { pc = at_key s.pc i finished })
      still (Permit.held w) f = λ k q c lt. f k (ground arith) c lt
      still (Permit.posted w) f = f
      still (Permit.running w) f = f
      still _ f = tt

  stores-Inv : (p : Permit) (i c : ℕ) → s.pc i ≡ filling c → Inv p s → Inv p (store s i c)
  unfolding store
  stores-Inv (Permit.held w) i c e v =
      let same : w ≡ i = cc (v.alone i c e) in
      record {
        sem = v.sem;
        irqs = v.irqs;
        jobs = v.jobs;
        phase = v.phase;
        alone = λ j k q. ground (arith, v.alone j k, v.alone i c);
        filled = λ k q a lt. ground (arith, same, v.filled c (ground (arith, same)) a);
      }
  stores-Inv _ i c e v = absurd (cc (v.alone i c e))

  posts-Inv : (p : Permit) (i : ℕ) → s.pc i ≡ filling 5 → Inv p s → Inv (Permit.posted i) (post s i)
  unfolding post
  posts-Inv (Permit.held w) i e v =
      let same : w ≡ i = cc (v.alone i 5 e) in
      record {
        sem = v.sem;
        irqs = v.irqs;
        jobs = ground (arith, v.jobs);
        phase = v.phase;
        alone = λ j k q. ground (arith, v.alone j k, v.alone i 5);
        filled = λ c lt. ground (arith, same, v.filled 5 (ground (arith, same)) c lt);
      }
  posts-Inv _ i e v = absurd (cc (v.alone i 5 e))

  begins-Inv :
      (p : Permit)
      → s.phase ≡ idle
      → s.io_done < s.io_num
      → Inv p s
      → (i : ℕ) × (p ≡ Permit.posted i) × Inv (Permit.running i) (begin_job s)
  unfolding begin_job
  begins-Inv (Permit.posted i) e h v = (
    i,
    refl,
    record {
      sem = v.sem;
      irqs = v.irqs;
      jobs = v.jobs;
      phase = refl;
      alone = λ j k q. cc (v.alone j k q);
      filled = v.filled;
    },
  )
  begins-Inv _ e h v = absurd (omega (arith, v.jobs))

  ends-Inv : (p : Permit) → s.phase ≡ busy → Inv p s → Inv Permit.raised (end_job s)
  unfolding end_job
  ends-Inv (Permit.running i) e v = record {
    sem = v.sem;
    irqs = omega (arith, v.irqs);
    jobs = v.jobs;
    phase = refl;
    alone = λ j k q. cc (v.alone j k q);
    filled = tt;
  }
  ends-Inv _ e v = absurd (ground (arith, v.phase))

  pub aborts-Inv : (p : Permit) → s.phase ≡ busy → Inv p s → Inv Permit.lost (abort_job s)
  unfolding abort_job
  aborts-Inv (Permit.running i) e v = record {
    sem = v.sem;
    irqs = v.irqs;
    jobs = v.jobs;
    phase = refl;
    alone = λ j k q. cc (v.alone j k q);
    filled = tt;
  }
  aborts-Inv _ e v = absurd (ground (arith, v.phase))

  handles-Inv : (p : Permit) → 0 < s.irqs → Inv p s → Inv Permit.free (pcievdrv_interrupt s)
  unfolding pcievdrv_interrupt
  handles-Inv Permit.raised h v = record {
    sem = omega (arith, v.sem);
    irqs = omega (arith, v.irqs);
    jobs = v.jobs;
    phase = v.phase;
    alone = λ j k q. cc (v.alone j k q);
    filled = tt;
  }
  handles-Inv _ h v = absurd (omega (arith, v.irqs))

-- A step hands the permit on, or leaves it where it is.
Step-Inv : {s t : Shared} {p : Permit} → Step false s t → Inv p s → (q : Permit) × Inv q t
Step-Inv {s} {p = p} (takes i e h) v = (_, takes-Inv s p i e h v)
Step-Inv {s} {p = p} (interrupted i e) v = (_, interrupted-Inv s p i e v)
Step-Inv {s} {p = p} (stores i c e h) v = (_, stores-Inv s p i c e v)
Step-Inv (fails i c never e h) v = absurd (cc never)
Step-Inv {s} {p = p} (posts i e) v = (_, posts-Inv s p i e v)
Step-Inv {s} {p = p} (begins e h) v = (_, (begins-Inv s p e h v).2)
Step-Inv {s} {p = p} (ends e) v = (_, ends-Inv s p e v)
Step-Inv {s} {p = p} (aborts e) v = (_, aborts-Inv s p e v)
Step-Inv {s} {p = p} (handles h) v = (_, handles-Inv s p h v)

pub Reach-Inv : {s : Shared} → Reach false s → (p : Permit) × Inv p s
Reach-Inv start = (_, Inv-probed)
Reach-Inv (later r st) = Step-Inv st (Reach-Inv r).1
