-- ===== src/System/Owned.antt =====
-- Whose data the areas hold: each step of the workers and of the device keeps it.
use praid.Common.{
  ℕ, ◌+◌, ◌-◌, ◌≤◌, ◌<◌, ◌≡◌, ◌≢◌, ◌⊎◌, inl, inr, Bool-cases, sym, ◌∙◌, ap, arith, ◌==◌, List, ◌∷◌,
}
use praid.Pciedrv.Completion.{VerifyWorkParam}
use praid.Device.Dispatcher.{PcievDev, begin_job}
use praid.Protocol.{Pc, waiting, filling, finished, idle, busy, at_key}
use praid.Protocol.Exclusion.{filling-alone, busy-counted}
use praid.System.{System, fill_area, count_job, SystemReach}
use praid.System.Areas.{Holds, HoldsAll, fill_area-Holds, fill_area-Holds_earlier, Holds-counters}
use praid.System.Ledger.{
  NotIn, AllFinished, Distinct, at_key-cases, at_key-finished, AllFinished-at_key,
  NotIn-AllFinished,
}
use praid.System.Refine.{SystemReach-Refines, fill_area_counters}

module _ (tasks : ℕ → VerifyWorkParam) (fits : (i : ℕ) → (tasks i).offset + (tasks i).size ≤ 4096)
    (d : PcievDev) (num : d.bar.io_num ≡ 0) (done : d.bar.io_done ≡ 0) where
  -- Each worker at the BAR has filled its areas so far; a job that waits or runs is one task, of a
  -- worker that is at its end; and the jobs that have ended are those of the workers `is`, which
  -- are at their ends, each once.
  pub record Owned (c : System) (is : List ℕ) : Type 0 where
    pub filled : (i k : ℕ) → c.pc i ≡ filling k → (a : ℕ) → a < k → a < 5 → Holds a (tasks i) c.dev
    pub pending :
        (c.phase ≡ busy) ⊎ (c.dev.bar.io_done < c.dev.bar.io_num)
        → (i : ℕ) × HoldsAll (tasks i) c.dev × (c.pc i ≡ finished) × NotIn i is
    pub closed : AllFinished c.pc is
    pub distinct : Distinct is

  at_end-at_key :
      {P : ℕ → Type 0} (f : ℕ → Pc) (i : ℕ)
      → f i ≢ finished
      → (v : Pc) (is : List ℕ) → (j : ℕ) × P j × (f j ≡ finished) × NotIn j is
      → (j : ℕ) × P j × (at_key f i v j ≡ finished) × NotIn j is
  at_end-at_key f i un v is (j, p, e, new) = (j, p, at_key-finished f i un j v e, new)

  alone :
      {c : System} (i k : ℕ)
      → SystemReach tasks d c
      → c.pc i ≡ filling k
      → ((j l : ℕ) → c.pc j ≡ filling l → j ≡ i)
        × (c.phase ≡ idle)
        × (c.dev.bar.io_num ≡ c.dev.bar.io_done)
  alone i k run e =
      let (s, reach, r) = SystemReach-Refines tasks d num done run in
      let (others, rests, counted) = filling-alone i k reach (sym (r.pc i) ∙ e) in
      (λ j l q. others j l (sym (r.pc j) ∙ q), r.phase ∙ rests, r.io_num ∙ counted ∙ sym r.io_done)

  counted :
      {c : System} → SystemReach tasks d c → c.phase ≡ busy → c.dev.bar.io_num ≡ c.dev.bar.io_done
  counted run e =
      let (s, reach, r) = SystemReach-Refines tasks d num done run in
      r.io_num ∙ busy-counted reach (sym r.phase ∙ e) ∙ sym r.io_done

  pub takes-Owned :
      {b : System} (i : ℕ) (is : List ℕ)
      → b.pc i ≡ waiting
      → Owned b is
      → Owned (record b { sem = b.sem - 1; pc = at_key b.pc i (filling 0) }) is
  takes-Owned {b} i is w o = record {
    filled = λ j k e a lt few. elim (at_key-cases b.pc i j (filling 0) (filling k) e) [
      | inl (same, here) ↦ absurd (ground (arith, here, lt))
      | inr (other, e') ↦ o.filled j k e' a lt few
    ];
    pending = λ busy_or. at_end-at_key b.pc i (λ q. cc (w, q)) _ is (o.pending busy_or);
    closed = AllFinished-at_key b.pc i (λ q. cc (w, q)) is _ o.closed;
    distinct = o.distinct;
  }

  pub interrupted-Owned :
      {b : System} (i : ℕ) (is : List ℕ)
      → b.pc i ≡ waiting
      → Owned b is
      → Owned (record b { pc = at_key b.pc i finished }) is
  interrupted-Owned {b} i is w o = record {
    filled = λ j k e a lt few. elim (at_key-cases b.pc i j finished (filling k) e) [
      | inl (same, here) ↦ absurd (cc here)
      | inr (other, e') ↦ o.filled j k e' a lt few
    ];
    pending = λ busy_or. at_end-at_key b.pc i (λ q. cc (w, q)) _ is (o.pending busy_or);
    closed = AllFinished-at_key b.pc i (λ q. cc (w, q)) is _ o.closed;
    distinct = o.distinct;
  }

  stored :
      {b : System} (i c : ℕ) (is : List ℕ)
      → b.pc i ≡ filling c
      → c < 5
      → Owned b is
      → (a : ℕ) → a < c + 1
      → Holds a (tasks i) (fill_area c (tasks i) b.dev)
  stored {b} i c is e h o a lt = elim (Bool-cases (a == c)) [
    | inl last ↦
        let last' : a ≡ c = ground (arith, last) in
        rw last' (fill_area-Holds (tasks i) b.dev (fits i) c)
    | inr earlier ↦
        let before : a < c = ground (arith, earlier, lt) in
        fill_area-Holds_earlier (tasks i) b.dev (fits i) c a before h
          (o.filled i c e a before (omega (arith, before, h)))
  ]

  pub stores-Owned :
      {b : System} (i c : ℕ) (is : List ℕ)
      → SystemReach tasks d b
      → b.pc i ≡ filling c
      → c < 5
      → Owned b is
      → Owned
          (record b { dev = fill_area c (tasks i) b.dev; pc = at_key b.pc i (filling (c + 1)) })
          is
  stores-Owned {b} i c is run e h o =
      let (others, rests, same_counts) = alone i c run e in
      let (num', done', _) = fill_area_counters c (tasks i) b.dev in
      record {
        filled = λ j k q a lt few. elim (at_key-cases b.pc i j (filling (c + 1)) (filling k) q) [
          | inl (same, here) ↦
              let k' : k ≡ c + 1 = ground (arith, here) in
              rw (← same) (stored i c is e h o a (omega (arith, k', lt)))
          | inr (other, e') ↦ absurd (other (sym (others j k e')))
        ];
        pending = λ busy_or. absurd (elim busy_or [
          | inl at_work ↦ cc (rests, at_work)
          | inr waits ↦ omega (arith, waits, num', done', same_counts)
        ]);
        closed = AllFinished-at_key b.pc i (λ q. cc (e, q)) is _ o.closed;
        distinct = o.distinct;
      }

  pub posts-Owned :
      {b : System} (i : ℕ) (is : List ℕ)
      → SystemReach tasks d b
      → b.pc i ≡ filling 5
      → Owned b is
      → Owned (record b { dev = count_job b.dev; pc = at_key b.pc i finished }) is
  posts-Owned {b} i is run e o = record {
    filled = λ j k q a lt few. elim (at_key-cases b.pc i j finished (filling k) q) [
      | inl (same, here) ↦ absurd (cc here)
      | inr (other, e') ↦ absurd (other (sym ((alone i 5 run e).0 j k e')))
    ];
    pending = λ _. (
      i,
      λ a few. (Holds-counters a (tasks i) b.dev (o.filled i 5 e a few few)).0,
      ground arith,
      NotIn-AllFinished b.pc i (λ q. cc (e, q)) is o.closed,
    );
    closed = AllFinished-at_key b.pc i (λ q. cc (e, q)) is _ o.closed;
    distinct = o.distinct;
  }

  pub begins-Owned :
      {b : System} (is : List ℕ)
      → SystemReach tasks d b
      → b.dev.bar.io_done < b.dev.bar.io_num
      → Owned b is
      → Owned (record b { dev = begin_job b.dev; phase = busy }) is
  begins-Owned {b} is run lt o =
      let (i, h, at_end, new) = o.pending (inr lt) in
      record {
        filled = λ j k e. absurd (omega (arith, (alone j k run e).2));
        pending = λ _. (i, λ a few. (Holds-counters a (tasks i) b.dev (h a few)).1, at_end, new);
        closed = o.closed;
        distinct = o.distinct;
      }

  pub ends-Owned :
      {b : System} (dev' : PcievDev) (i : ℕ) (is : List ℕ)
      → SystemReach tasks d b
      → b.phase ≡ busy
      → dev'.bar ≡ b.dev.bar
      → (b.pc i ≡ finished) × NotIn i is
      → Owned b is
      → Owned (record b { dev = dev'; phase = idle }) (i ∷ is)
  ends-Owned {b} dev' i is run e kept (at_end, new) o = record {
    filled = λ j k q. absurd (cc (e, (alone j k run q).1));
    pending = λ busy_or. absurd (elim busy_or [
      | inl at_work ↦ cc at_work
      | inr waits ↦
          omega (arith, waits, counted run e, ap (λ x. x.io_num) kept, ap (λ x. x.io_done) kept)
    ]);
    closed = (at_end, o.closed);
    distinct = (new, o.distinct);
  }
