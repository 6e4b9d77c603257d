-- ===== src/Array/Queue.antt =====
-- The tasks that the completion of a read bio queues, as tasks of workers.
use praid.Common.{
  ℕ, zero, suc, ◌+◌, ◌*◌, ◌/◌, ◌≤◌, ◌<◌, ◌≡◌, refl, ap, arith, some, List, [], ◌∷◌, map, length,
}
use praid.Bio.{Bio, BioVec, Direction, Disk}
use praid.Pciedrv.Completion.{Grants, Page, VerifyWorkParam}
use praid.Pciedrv.Write.{Matches, tasks_of}
use praid.Pciedrv.Tasks.{AllGranted, WholeSectors, add_verify_task_granted}
use praid.Device.Word.{Memory, IsBytes}
use praid.Parity.{write_disk}
use praid.System.Pays.{IsWordTask}

-- The task of one segment, and of each segment of the two bios.
abbrev pub param_of : (ℕ → Page) → ℕ → BioVec → BioVec → VerifyWorkParam
param_of pages pos o n = record {
  page_new = pages n.bv_page;
  page_old = pages o.bv_page;
  num_sector = pos;
  offset = n.bv_offset;
  size = n.bv_len;
}

abbrev pub params_of : (ℕ → Page) → ℕ → List BioVec → List BioVec → List VerifyWorkParam
params_of pages pos [] ns = []
params_of pages pos (o ∷ os) [] = []
params_of pages pos (o ∷ os) (n ∷ ns) =
    param_of pages pos o n ∷ params_of pages (pos + n.bv_len / 512) os ns

-- A task without a byte, for the workers that have none.
abbrev no_task : VerifyWorkParam
no_task = record { page_new = λ _. 0; page_old = λ _. 0; num_sector = 0; offset = 0; size = 0 }

-- The task of worker `i`.
abbrev pub task_at : List VerifyWorkParam → ℕ → VerifyWorkParam
task_at [] i = no_task
task_at (p ∷ ps) zero = p
task_at (p ∷ ps) (suc i) = task_at ps i

-- The segments of a bio of disk `dev`, written from sector `pos` on.
abbrev pub write_segments : (ℕ → Memory) → ℕ → (ℕ → Page) → ℕ → List BioVec → ℕ → Memory
write_segments disks dev pages pos [] = disks
write_segments disks dev pages pos (v ∷ vs) =
    write_segments (write_disk disks dev (pos * 512) (pages v.bv_page) v.bv_offset v.bv_len) dev
      pages (pos + v.bv_len / 512) vs

-- The segments of a bio hold what disk `dev` has from sector `pos` on.
abbrev pub AreRead : (ℕ → Memory) → ℕ → (ℕ → Page) → ℕ → List BioVec → Type 0
AreRead disks dev pages pos [] = Unit
AreRead disks dev pages pos (o ∷ os) =
    ((x : ℕ) → x < o.bv_len → pages o.bv_page (o.bv_offset + x) ≡ disks dev (pos * 512 + x))
    × AreRead disks dev pages (pos + o.bv_len / 512) os

-- What the pages of a bio hold once it has come back from the disk that it names: after a read, what
-- that disk has; after a write nothing is known of them.
abbrev pub ReadsFrom :
    (ℕ → Memory) → Memory → (ℕ → Page) → Direction → Disk → ℕ → List BioVec → Type 0
ReadsFrom disks parity pages Direction.read (Disk.nvme dev) pos vs = AreRead disks dev pages pos vs
ReadsFrom disks parity pages Direction.read Disk.verify pos vs =
    AreRead (λ _. parity) 0 pages pos vs
ReadsFrom disks parity pages Direction.read Disk.array pos vs = Unit
ReadsFrom disks parity pages Direction.write disk pos vs = Unit

abbrev pub ReadsBack : (ℕ → Memory) → Memory → (ℕ → Page) → Bio → Type 0
ReadsBack disks parity pages b = ReadsFrom disks parity pages b.dir b.bi_bdev b.bi_sector b.segs

-- The data disks behind a write bio, which reaches the disk that it names.
abbrev pub write_to : (ℕ → Memory) → (ℕ → Page) → Disk → ℕ → List BioVec → ℕ → Memory
write_to disks pages (Disk.nvme dev) pos vs = write_segments disks dev pages pos vs
write_to disks pages Disk.verify pos vs = disks
write_to disks pages Disk.array pos vs = disks

-- Each segment lies inside its page.
abbrev pub AllInPage : List BioVec → Type 0
AllInPage [] = Unit
AllInPage (v ∷ vs) = (v.bv_offset + v.bv_len ≤ 4096) × AllInPage vs

pub tasks_of-params_of :
    (g : ℕ → Grants) (pages : ℕ → Page)
    → AllGranted g
    → (i pos : ℕ) (os ns : List BioVec)
    → tasks_of g pages i pos os ns ≡ map some (params_of pages pos os ns)
tasks_of-params_of g pages granted i pos [] ns = refl
tasks_of-params_of g pages granted i pos (o ∷ os) [] = refl
tasks_of-params_of g pages granted i pos (o ∷ os) (n ∷ ns) =
    let (a, b, c, d) = granted i in
    rw
      (
        add_verify_task_granted (g i) (pages n.bv_page) (pages o.bv_page) pos n.bv_offset n.bv_len a
            b c d,
        tasks_of-params_of g pages granted (i + 1) (pos + n.bv_len / 512) os ns,
      )
      refl

pub length-params_of :
    (pages : ℕ → Page) (pos : ℕ) (os ns : List BioVec)
    → Matches os ns
    → length (params_of pages pos os ns) ≡ length ns
length-params_of pages pos [] [] m = refl
length-params_of pages pos (o ∷ os) (n ∷ ns) (_, _, m) =
    ap suc (length-params_of pages (pos + n.bv_len / 512) os ns m)
length-params_of pages pos [] (n ∷ ns) m = elim m [ ]
length-params_of pages pos (o ∷ os) [] m = elim m [ ]

pub task_at-IsWordTask :
    (pages : ℕ → Page)
    → ((page : ℕ) → IsBytes (pages page))
    → (pos : ℕ) (os ns : List BioVec) → WholeSectors ns
    → AllInPage ns
    → (i : ℕ) → IsWordTask (task_at (params_of pages pos os ns) i)
task_at-IsWordTask pages bytes pos [] ns w f i = record {
  words = refl;
  fits = omega arith;
  old = λ a. omega arith;
  new = λ a. omega arith;
}
task_at-IsWordTask pages bytes pos (o ∷ os) [] w f i = record {
  words = refl;
  fits = omega arith;
  old = λ a. omega arith;
  new = λ a. omega arith;
}
task_at-IsWordTask pages bytes pos (o ∷ os) (n ∷ ns) (whole, w) (fits, f) zero = record {
  words = omega (arith, whole);
  fits = fits;
  old = bytes o.bv_page;
  new = bytes n.bv_page;
}
task_at-IsWordTask pages bytes pos (o ∷ os) (n ∷ ns) (whole, w) (fits, f) (suc i) =
    task_at-IsWordTask pages bytes (pos + n.bv_len / 512) os ns w f i
