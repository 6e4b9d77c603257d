-- ===== src/Array/Write.antt =====
-- A write bio of a data disk from `pcievdrv_submit_verify` to the verify disk: pciedrv.c and pci.c
-- put together.
use praid.Common.{ℕ, ◌^◌, ◌<◌, ◌≡◌, refl, ap, arith, true, some, List, [], ◌∷◌, map, length, ◌==◌}
use praid.Bio.{Bio, BioVec, Disk, Kernel, GivesPages}
use praid.Pciedrv.{Verify, Release, pcievdrv_submit_verify}
use praid.Pciedrv.Completion.{Grants, Page, VerifyWorkParam, Completed, pciev_read_bio_endio}
use praid.Pciedrv.Write.{
  AllFit, IsRead, IsAtStart, walked-Matches, verify_segments-tasks_of,
  pcievdrv_submit_verify-IsRead,
}
use praid.Pciedrv.Tasks.{AllGranted, WholeSectors}
use praid.Device.Word.{Memory, IsBytes}
use praid.Device.Request.{Services}
use praid.Device.Dispatcher.Computed.{IsGood}
use praid.Device.Start.{started_device}
use praid.Parity.{IsParity}
use praid.System.{System, SystemReach}
use praid.System.Progress.{IsQuiet}
use praid.Array.Progress.{writes-IsParity}
use praid.Array.Queue.{
  params_of, task_at, write_segments, ReadsBack, AllInPage, tasks_of-params_of, length-params_of,
  task_at-IsWordTask,
}
use praid.Array.Sequence.{
  workers_onto, workers_onto-Distinct, length-workers_onto, workers_onto-IsInOrder,
}

-- A write bio that has kept all its entries and has its iterator at the start, with segments of whole
-- sectors inside their pages.
pub record IsWholeWrite (bio : Bio) : Type 0 where
  pub at_start : IsAtStart bio
  pub entries : length bio.segs ≡ bio.bi_vcnt
  pub few : length bio.segs < 2 ^ 32
  pub whole : WholeSectors bio.segs
  pub in_page : AllInPage bio.segs

pub AllInPage-AllFit : (vs : List BioVec) → AllInPage vs → AllFit vs
AllInPage-AllFit [] h = tt
AllInPage-AllFit (v ∷ vs) (fits, h) = (omega (arith, fits), AllInPage-AllFit vs h)

module _ (k : Kernel) (pages_left : GivesPages k) (bio n_bio : Bio) (write : IsWholeWrite bio) where
  -- The read bio that is made has the format of the write bio.
  made-IsRead :
      (calls calls' : ℕ) (released : List Release)
      → pcievdrv_submit_verify k bio calls ≡ (Verify.read_first n_bio bio, released, calls')
      → IsRead n_bio bio
  made-IsRead calls calls' released made =
      let (n_bio', made', is_read) =
        pcievdrv_submit_verify-IsRead k pages_left bio calls
          (AllInPage-AllFit bio.segs write.in_page) (omega (arith, write.entries)) in
      let same : n_bio' ≡ n_bio = cc (made, made') in rw same at is_read

  module _ (pages : ℕ → Page) (bytes : (page : ℕ) → IsBytes (pages page))
      (is_read : IsRead n_bio bio) where
    abbrev params : List VerifyWorkParam
    params = params_of pages bio.bi_sector n_bio.segs bio.segs

    completed :
        (g : ℕ → Grants) (left : List BioVec)
        → AllGranted g
        → pciev_read_bio_endio g pages n_bio bio left
          ≡ Completed.done (map some params) (map (λ v. v.bv_page) left) bio
    unfolding pciev_read_bio_endio
    completed g left granted =
        let same : (n_bio.bi_vcnt == bio.bi_vcnt) ≡ true =
          ground (arith, is_read.counted, write.entries) in
        rw
          (
            same,
            walked-Matches n_bio bio is_read.alike write.at_start,
            verify_segments-tasks_of g pages 0 bio.bi_sector n_bio.segs bio.segs is_read.alike,
            tasks_of-params_of g pages granted 0 bio.bi_sector n_bio.segs bio.segs,
          )
          refl

-- A write bio to data disk `dev` that has kept all its entries and has its iterator at the start,
-- with fewer than 2 ^ 32 segments, each of at least a byte, of whole sectors and inside its page; its
-- read bio `n_bio`, made with every page granted and none merged into an entry, which comes back with
-- what the disk that it names has at the sectors that it names, if it is a read; a completion whose every call of `add_verify_task`
-- succeeds, over pages of bytes; a device that has just been started, over bytes and with the
-- parity of the `n` data disks on the verify disk; and a kernel that serves the transfers of the
-- tasks. Then the completion submits the write bio and queues a task for each of its segments, and
-- there is a run of the workers of these tasks to a state in which the verify disk is the parity of
-- the data disks with the bio written to disk `dev`, one interrupt is raised for each segment, no
-- job waits or runs, and the semaphore is free.
pub write-IsParity :
    (k : Kernel)
    → GivesPages k
    → (bio n_bio : Bio) (calls calls' : ℕ) (released : List Release) → IsWholeWrite bio
    → pcievdrv_submit_verify k bio calls ≡ (Verify.read_first n_bio bio, released, calls')
    → (g : ℕ → Grants) → AllGranted g
    → (pages : ℕ → Page) → ((page : ℕ) → IsBytes (pages page))
    → (left : List BioVec) (cnt_disk n dev : ℕ) → dev < n
    → bio.bi_bdev ≡ Disk.nvme dev
    → (storage parity : Memory) (disks : ℕ → Memory) → IsBytes storage
    → IsBytes parity
    → IsParity n disks parity
    → ReadsBack disks parity pages n_bio
    → (r w : ℕ → Services)
    → ((i : ℕ) → IsGood (r i) (task_at (params_of pages bio.bi_sector n_bio.segs bio.segs) i).size)
    → ((i : ℕ) → IsGood (w i) (task_at (params_of pages bio.bi_sector n_bio.segs bio.segs) i).size)
    → (pciev_read_bio_endio g pages n_bio bio left
        ≡ Completed.done
            (map some (params_of pages bio.bi_sector n_bio.segs bio.segs))
            (map (λ v. v.bv_page) left)
            bio)
      × (c : System) × SystemReach
          (task_at (params_of pages bio.bi_sector n_bio.segs bio.segs))
          (started_device cnt_disk storage parity)
          c
      × IsParity n (write_segments disks dev pages bio.bi_sector bio.segs) c.dev.verify_blk
      × (c.dev.irqs ≡ length bio.segs)
      × IsQuiet c
write-IsParity k pages_left bio n_bio calls calls' released write made g granted pages bytes left
      cnt_disk n dev lt on_disk storage parity disks bytes_s bytes_p kept read r w good_r good_w =
    let is_read = made-IsRead k pages_left bio n_bio write calls calls' released made in
    let old_data = rw (is_read.reads, is_read.disk, on_disk, is_read.sector) at read in
    let ps : List VerifyWorkParam = params_of pages bio.bi_sector n_bio.segs bio.segs in
    let count = length-params_of pages bio.bi_sector n_bio.segs bio.segs is_read.alike in
    let long = length-workers_onto ps 0 [] in
    let (in_order, end) =
      workers_onto-IsInOrder n dev lt disks pages (task_at ps) bio.bi_sector 0 [] n_bio.segs
        bio.segs is_read.alike write.whole (λ i. ap (task_at ps) (omega arith)) tt old_data in
    let (c, run, parity', raised, quiet) =
      writes-IsParity (task_at ps)
        (task_at-IsWordTask pages bytes bio.bi_sector n_bio.segs bio.segs write.whole write.in_page)
        r w good_r good_w cnt_disk n storage parity disks (λ _. dev) bytes_s bytes_p kept
        (workers_onto ps 0 []) (workers_onto-Distinct ps 0 [] tt tt)
        (omega (arith, long, count, write.few)) in_order in
    (
      completed k pages_left bio n_bio write pages bytes is_read g left granted,
      c,
      run,
      rw end at parity',
      omega (arith, raised, long, count),
      quiet,
    )
