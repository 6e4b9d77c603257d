-- ===== src/Protocol.antt =====
-- The hand-over of jobs between pciedrv.c and the device: the kworkers that run `do_verify_work`,
-- the semaphore, the interrupt handler and the dispatcher thread, interleaved in any order. One
-- step is one access to what they share.
pub mod Safety
pub mod Exclusion
use praid.Common.{ℕ, ◌+◌, ◌-◌, ◌%◌, ◌^◌, ◌<◌, ◌≡◌, Bool, true, ◌==◌, if◌then◌else◌}

-- Where a kworker stands in `do_verify_work`: before `down_interruptible`; past it, with `stored`
-- of the five areas of the BAR written; or at the end.
pub data Pc : Type 0 where
  waiting : Pc
  filling : (stored : ℕ) → Pc
  finished : Pc

-- The device thread: in its polling loop, or between `io_done ++` and the end of the job.
pub data Phase : Type 0 where
  idle busy : Phase

-- The five areas that a worker fills, in the order of the code: the old data (0), the new data
-- (1), `offset` (2), `size` (3) and `sector_sta` (4). `cell c` names the worker whose value
-- area `c` holds. `irqs` counts interrupts that are raised and not yet handled.
pub record Shared : Type 0 where
  pub sem : ℕ
  pub io_num : ℕ
  pub io_done : ℕ
  pub irqs : ℕ
  pub phase : Phase
  pub cell : ℕ → ℕ
  pub pc : ℕ → Pc

abbrev pub at_key {ℓ} : {A : Type ℓ} → (ℕ → A) → ℕ → A → ℕ → A
at_key f i a j = if i == j then a else f j

-- `sema_init` to 1, and a BAR of zeros; any number of tasks is queued.
abbrev pub probed : Shared
probed = record {
  sem = 1;
  io_num = 0;
  io_done = 0;
  irqs = 0;
  phase = idle;
  cell = λ _. 0;
  pc = λ _. waiting;
}

-- `down_interruptible` that gets the semaphore.
unfoldable pub down : Shared → ℕ → Shared
down s i = record s { sem = s.sem - 1; pc = at_key s.pc i (filling 0) }

-- One copy or one assignment to `io_property`.
unfoldable pub store : Shared → ℕ → ℕ → Shared
store s i c = record s { cell = at_key s.cell c i; pc = at_key s.pc i (filling (c + 1)) }

-- The branch of a failed `kmap`: `up`, and on behind the `if` all the same.
unfoldable pub copy_failed : Shared → ℕ → Shared
copy_failed s i = record s { sem = s.sem + 1; pc = at_key s.pc i (filling 2) }

-- `io_num ++`, a `uint32_t`, and the end of the work.
unfoldable pub post : Shared → ℕ → Shared
post s i = record s { io_num = (s.io_num + 1) % 2 ^ 32; pc = at_key s.pc i finished }

-- The dispatcher passes its test and counts the job.
unfoldable pub begin_job : Shared → Shared
begin_job s = record s { io_done = (s.io_done + 1) % 2 ^ 32; phase = busy }

-- The end of a job with `pciev_signal_irq`, and the early return after a failed transfer.
unfoldable pub end_job : Shared → Shared
end_job s = record s { phase = idle; irqs = s.irqs + 1 }

unfoldable pub abort_job : Shared → Shared
abort_job s = record s { phase = idle }

-- `up` in the interrupt handler.
unfoldable pub pcievdrv_interrupt : Shared → Shared
pcievdrv_interrupt s = record s { sem = s.sem + 1; irqs = s.irqs - 1 }

-- `kmap_fails` tells whether `kmap` may return NULL.
pub data Step (kmap_fails : Bool) (s : Shared) : Shared → Type 0 where
  takes : (i : ℕ) → s.pc i ≡ waiting → 0 < s.sem → Step kmap_fails s (down s i)
  interrupted :
      (i : ℕ) → s.pc i ≡ waiting → Step kmap_fails s (record s { pc = at_key s.pc i finished })
  stores : (i c : ℕ) → s.pc i ≡ filling c → c < 5 → Step kmap_fails s (store s i c)
  fails :
      (i c : ℕ)
      → kmap_fails ≡ true
      → s.pc i ≡ filling c
      → c < 2
      → Step kmap_fails s (copy_failed s i)
  posts : (i : ℕ) → s.pc i ≡ filling 5 → Step kmap_fails s (post s i)
  begins : s.phase ≡ idle → s.io_done < s.io_num → Step kmap_fails s (begin_job s)
  ends : s.phase ≡ busy → Step kmap_fails s (end_job s)
  aborts : s.phase ≡ busy → Step kmap_fails s (abort_job s)
  handles : 0 < s.irqs → Step kmap_fails s (pcievdrv_interrupt s)

pub data Reach (kmap_fails : Bool) : Shared → Type 0 where
  start : Reach kmap_fails probed
  later : {s t : Shared} → Reach kmap_fails s → Step kmap_fails s t → Reach kmap_fails t

-- Any number of steps.
pub data Run (kmap_fails : Bool) (s : Shared) : Shared → Type 0 where
  here : Run kmap_fails s s
  next : {t u : Shared} → Run kmap_fails s t → Step kmap_fails t u → Run kmap_fails s u
