-- ===== src/Pciedrv/Tasks.antt =====
-- Which bytes of the data disk the tasks of one write bio are about, and with which data.
use praid.Common.{
  ℕ, zero, suc, ◌+◌, ◌*◌, ◌/◌, ◌%◌, ◌≡◌, refl, sym, ap, ap₂, ◌∙◌, arith, true, Option, none, some,
  List, [], ◌∷◌, ◌++◌, map, ◌==◌,
}
use praid.Bio.{Bio, BioVec, total}
use praid.Pciedrv.Completion.{
  Grants, Page, VerifyWorkParam, add_verify_task, Completed, pciev_read_bio_endio, walked,
}
use praid.Pciedrv.Write.{Matches, tasks_of, verify_segments-tasks_of}

-- `n` values of `f` from `a` on.
abbrev pub run_from : (ℕ → ℕ) → ℕ → ℕ → List ℕ
run_from f a zero = []
run_from f a (suc n) = f a ∷ run_from f (a + 1) n

pub run_from-append :
    (f : ℕ → ℕ) (a m n : ℕ) → run_from f a m ++ run_from f (a + m) n ≡ run_from f a (m + n)
run_from-append f a zero n =
    let start : a + 0 ≡ a = omega arith in
    let count : 0 + n ≡ n = omega arith in ap₂ (run_from f) start (sym count)
run_from-append f a (suc m) n =
    let start : a + suc m ≡ a + 1 + m = omega arith in
    let count : suc m + n ≡ suc (m + n) = omega arith in
    rw (start, count) (ap (λ (l : List ℕ). f a ∷ l) (run_from-append f (a + 1) m n))

-- The bytes of the disk that the tasks name, and the old and the new data that they carry.
abbrev pub addresses : List (Option VerifyWorkParam) → List ℕ
addresses [] = []
addresses (none ∷ ts) = addresses ts
addresses (some t ∷ ts) = run_from (λ a. a) (t.num_sector * 512) t.size ++ addresses ts

abbrev pub old_data : List (Option VerifyWorkParam) → List ℕ
old_data [] = []
old_data (none ∷ ts) = old_data ts
old_data (some t ∷ ts) = run_from t.page_old t.offset t.size ++ old_data ts

abbrev pub new_data : List (Option VerifyWorkParam) → List ℕ
new_data [] = []
new_data (none ∷ ts) = new_data ts
new_data (some t ∷ ts) = run_from t.page_new t.offset t.size ++ new_data ts

-- The data in the segments of a bio.
abbrev pub data_of : (ℕ → Page) → List BioVec → List ℕ
data_of pages [] = []
data_of pages (v ∷ vs) = run_from (pages v.bv_page) v.bv_offset v.bv_len ++ data_of pages vs

abbrev pub WholeSectors : List BioVec → Type 0
WholeSectors [] = Unit
WholeSectors (v ∷ vs) = (v.bv_len % 512 ≡ 0) × WholeSectors vs

-- Each call of `add_verify_task` succeeds.
abbrev pub AllGranted : (ℕ → Grants) → Type 0
AllGranted g =
    (i : ℕ)
    → ((g i).kmalloc ≡ true)
      × ((g i).new_page ≡ true)
      × ((g i).old_page ≡ true)
      × ((g i).queue_work ≡ true)

-- The tasks are about `n` bytes of the disk from sector `pos` on, each once and in order, and
-- carry the data of the segments `os` as the old ones and those of `ns` as the new ones.
pub record Carries (pages : ℕ → Page) (pos n : ℕ) (os ns : List BioVec)
    (tasks : List (Option VerifyWorkParam)) : Type 0 where
  pub place : addresses tasks ≡ run_from (λ a. a) (pos * 512) n
  pub old : old_data tasks ≡ data_of pages os
  pub new : new_data tasks ≡ data_of pages ns

pub add_verify_task_granted :
    (g : Grants) (page_new page_old : Page) (num_sector offset size : ℕ)
    → g.kmalloc ≡ true
    → g.new_page ≡ true
    → g.old_page ≡ true
    → g.queue_work ≡ true
    → (add_verify_task g page_new page_old num_sector offset size).0
      ≡ some (record {
        page_new = page_new;
        page_old = page_old;
        num_sector = num_sector;
        offset = offset;
        size = size;
      })
unfolding add_verify_task
add_verify_task_granted g page_new page_old num_sector offset size a b c d = rw (a, b, c, d) refl

module _ (g : ℕ → Grants) (pages : ℕ → Page) (granted : AllGranted g) where
  tasks_of-Carries :
      (i pos : ℕ) (os ns : List BioVec)
      → Matches os ns
      → WholeSectors ns
      → Carries pages pos (total ns) os ns (tasks_of g pages i pos os ns)
  tasks_of-Carries i pos [] [] m w = record { place = refl; old = refl; new = refl }
  tasks_of-Carries i pos (o ∷ os) (n ∷ ns) (same_len, same_offset, m) (whole, w) =
      let later = tasks_of-Carries (i + 1) (pos + n.bv_len / 512) os ns m w in
      let (a, b, c, d) = granted i in
      let start : (pos + n.bv_len / 512) * 512 ≡ pos * 512 + n.bv_len = omega (arith, whole) in
      rw
        (add_verify_task_granted (g i) (pages n.bv_page) (pages o.bv_page) pos n.bv_offset n.bv_len
          a b c d)
        (record {
          place =
              ap (λ (l : List ℕ). run_from (λ a. a) (pos * 512) n.bv_len ++ l)
                (later.place ∙ ap (λ (a : ℕ). run_from (λ a. a) a (total ns)) start)
              ∙ run_from-append (λ a. a) (pos * 512) n.bv_len (total ns);
          old =
              ap₂ (λ (l r : List ℕ). l ++ r)
                (ap₂ (run_from (pages o.bv_page)) (sym same_offset) (sym same_len)) later.old;
          new = ap (λ (l : List ℕ). run_from (pages n.bv_page) n.bv_offset n.bv_len ++ l) later.new;
        })
  tasks_of-Carries i pos [] (n ∷ ns) m w = elim m [ ]
  tasks_of-Carries i pos (o ∷ os) [] m w = elim m [ ]

  -- Where the bios have the same format, what the iterator of the write bio walks through in the
  -- read bio matches the segments of the write bio, the write is of whole sectors and
  -- each call of `add_verify_task` succeeds: the completion of the read bio submits the write bio,
  -- and the tasks are about the bytes of the write, each once and in order, with the data of the
  -- read bio as the old ones and those of the write bio as the new ones.
  pub pciev_read_bio_endio-Carries :
      (bio_old bio_new : Bio) (left : List BioVec)
      → bio_old.bi_vcnt ≡ bio_new.bi_vcnt
      → Matches (walked bio_old bio_new) bio_new.segs
      → WholeSectors bio_new.segs
      → (tasks : List (Option VerifyWorkParam)) × (pciev_read_bio_endio g pages bio_old bio_new left
          ≡ Completed.done tasks (map (λ v. v.bv_page) left) bio_new)
        × Carries pages bio_new.bi_sector
            (total bio_new.segs)
            (walked bio_old bio_new)
            bio_new.segs
            tasks
  unfolding pciev_read_bio_endio
  pciev_read_bio_endio-Carries bio_old bio_new left h m w =
      let same : (bio_old.bi_vcnt == bio_new.bi_vcnt) ≡ true = ground (arith, h) in
      (
        tasks_of g pages 0 bio_new.bi_sector (walked bio_old bio_new) bio_new.segs,
        rw
            (
              same,
              verify_segments-tasks_of g pages 0 bio_new.bi_sector (walked bio_old bio_new)
                  bio_new.segs m,
            )
            refl,
        tasks_of-Carries 0 bio_new.bi_sector (walked bio_old bio_new) bio_new.segs m w,
      )
