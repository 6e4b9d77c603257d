-- ===== src/Array/Sequence.antt =====
-- The tasks of one write bio, in the order of its segments, as writes that follow one another.
use praid.Common.{
  ℕ, suc, ◌+◌, ◌*◌, ◌/◌, ◌≤◌, ◌<◌, ◌≡◌, refl, sym, ap, subst, ◌∙◌, arith, List, [], ◌∷◌, length,
}
use praid.Bio.{BioVec}
use praid.Pciedrv.Completion.{Page, VerifyWorkParam}
use praid.Pciedrv.Write.{Matches}
use praid.Pciedrv.Tasks.{WholeSectors}
use praid.Device.Word.{Memory}
use praid.Parity.{write_disk}
use praid.System.Ledger.{NotIn, Distinct}
use praid.Array.{disks_after, IsInOrder}
use praid.Array.Queue.{param_of, params_of, task_at, write_segments, AreRead}

-- The workers `j`, `j + 1` and so on of a list of tasks, in front of those that are done.
abbrev pub workers_onto : List VerifyWorkParam → ℕ → List ℕ → List ℕ
workers_onto [] j done = done
workers_onto (p ∷ ps) j done = workers_onto ps (j + 1) (j ∷ done)

abbrev AllBelow : ℕ → List ℕ → Type 0
AllBelow j [] = Unit
AllBelow j (i ∷ is) = (i < j) × AllBelow j is

AllBelow-more : (j : ℕ) (is : List ℕ) → AllBelow j is → AllBelow (j + 1) is
AllBelow-more j [] h = tt
AllBelow-more j (i ∷ is) (lt, h) = (omega (arith, lt), AllBelow-more j is h)

AllBelow-NotIn : (j : ℕ) (is : List ℕ) → AllBelow j is → NotIn j is
AllBelow-NotIn j [] h = tt
AllBelow-NotIn j (i ∷ is) (lt, h) = ((λ e. omega (arith, e, lt)), AllBelow-NotIn j is h)

pub workers_onto-Distinct :
    (ps : List VerifyWorkParam) (j : ℕ) (done : List ℕ)
    → AllBelow j done
    → Distinct done
    → Distinct (workers_onto ps j done)
workers_onto-Distinct [] j done below distinct = distinct
workers_onto-Distinct (p ∷ ps) j done below distinct =
    workers_onto-Distinct ps (j + 1) (j ∷ done) (omega arith, AllBelow-more j done below)
      (AllBelow-NotIn j done below, distinct)

pub length-workers_onto :
    (ps : List VerifyWorkParam) (j : ℕ) (done : List ℕ)
    → length (workers_onto ps j done) ≡ length ps + length done
length-workers_onto [] j done = omega arith
length-workers_onto (p ∷ ps) j done = omega (arith, length-workers_onto ps (j + 1) (j ∷ done))

-- Data that lie behind a write stay read.
AreRead-write_disk :
    (disks : ℕ → Memory) (dev : ℕ) (pages : ℕ → Page) (dst src size : ℕ) (page : Memory) (pos : ℕ)
    (os : List BioVec)
    → dst + size ≤ pos * 512
    → AreRead disks dev pages pos os
    → AreRead (write_disk disks dev dst page src size) dev pages pos os
AreRead-write_disk disks dev pages dst src size page pos [] h read = tt
AreRead-write_disk disks dev pages dst src size page pos (o ∷ os) h (same, read) = (
  (λ x lt. ground (arith, same x lt, h)),
  AreRead-write_disk disks dev pages dst src size page (pos + o.bv_len / 512) os (omega (arith, h))
      read,
)

module _ (n dev : ℕ) (lt : dev < n) (disks : ℕ → Memory) (pages : ℕ → Page)
    (tasks : ℕ → VerifyWorkParam) where
  abbrev after : List ℕ → ℕ → Memory
  after = disks_after tasks (λ _. dev) disks

  pub workers_onto-IsInOrder :
      (pos j : ℕ) (done : List ℕ) (os ns : List BioVec)
      → Matches os ns
      → WholeSectors ns
      → ((i : ℕ) → tasks (j + i) ≡ task_at (params_of pages pos os ns) i)
      → IsInOrder tasks (λ _. dev) disks n done
      → AreRead (after done) dev pages pos os
      → IsInOrder tasks (λ _. dev) disks n (workers_onto (params_of pages pos os ns) j done)
        × (after (workers_onto (params_of pages pos os ns) j done)
            ≡ write_segments (after done) dev pages pos ns)
  workers_onto-IsInOrder pos j done [] [] m w mine before read = (before, refl)
  workers_onto-IsInOrder pos j done (o ∷ os) (v ∷ ns) (same_len, same_offset, m) (whole, w) mine
        before (same, read) =
      let first : tasks j ≡ param_of pages pos o v = ap tasks (omega arith) ∙ mine 0 in
      let written : after (j ∷ done)
          ≡ write_disk (after done) dev (pos * 512) (pages v.bv_page) v.bv_offset v.bv_len =
        ap (λ p. write_disk (after done) dev (p.num_sector * 512) p.page_new p.offset p.size)
          first in
      let old =
        subst
          (λ (q : VerifyWorkParam).
            (x : ℕ)
            → x < q.size
            → q.page_old (q.offset + x) ≡ after done dev (q.num_sector * 512 + x))
          (sym first) (λ x h. rw (← same_offset) (same x (omega (arith, h, same_len)))) in
      let rest =
        subst (λ f. AreRead f dev pages (pos + v.bv_len / 512) os) (sym written)
          (AreRead-write_disk (after done) dev pages (pos * 512) v.bv_offset v.bv_len
            (pages v.bv_page) (pos + v.bv_len / 512) os (omega (arith, whole))
            (rw same_len at read)) in
      let (in_order, end) =
        workers_onto-IsInOrder (pos + v.bv_len / 512) (j + 1) (j ∷ done) os ns m w
          (λ i. ap tasks (omega arith) ∙ mine (suc i)) (lt, old, before) rest in
      (in_order, end ∙ ap (λ f. write_segments f dev pages (pos + v.bv_len / 512) ns) written)
  workers_onto-IsInOrder pos j done [] (v ∷ ns) m w mine before read = elim m [ ]
  workers_onto-IsInOrder pos j done (o ∷ os) [] m w mine before read = elim m [ ]
