-- ===== src/Array/Submit.antt =====
-- A write to the array, from `vpciedisk_submit_bio` to the verify disk: block.c, pciedrv.c and pci.c
-- put together.
use praid.Common.{ℕ, suc, ◌+◌, ◌*◌, ◌≤◌, ◌<◌, ◌≡◌, refl, arith, some, List, [], ◌∷◌, map, length}
use praid.Bio.{Bio, BioVec, Direction, Kernel, bio_end_sector, GivesPages}
use praid.Geometry.{chunk_end_sector}
use praid.Geometry.Locate.{locate, locate_dev}
use praid.Block.{aim, vpciedisk_submit_bio}
use praid.Block.InChunk.{sole_piece, verified, submit-verified}
use praid.Block.View.{view, write_sectors}
use praid.Pciedrv.Completion.{Grants, Page, VerifyWorkParam, Completed, pciev_read_bio_endio}
use praid.Pciedrv.Tasks.{AllGranted}
use praid.Pciedrv.{read_bio}
use praid.Pciedrv.Read.{read_segs, made_read, pcievdrv_submit_verify-made_read}
use praid.Device.Word.{Memory, IsBytes}
use praid.Device.Request.{Services}
use praid.Device.Dispatcher.Computed.{IsGood}
use praid.Device.Start.{started_device}
use praid.Parity.{IsParity}
use praid.System.{System, SystemReach}
use praid.System.Progress.{IsQuiet}
use praid.Array.Queue.{params_of, task_at, write_to, ReadsBack}
use praid.Array.Bytes.{bytes_in, sectors_of, sectors_in, view-write_segments}
use praid.Array.Write.{IsWholeWrite, AllInPage-AllFit, write-IsParity}

-- The tasks of the one piece, and the disks with it written.
abbrev pub tasks_of_write : Kernel → ℕ → (ℕ → Page) → Bio → ℕ → List VerifyWorkParam
tasks_of_write k n pages bio calls =
    params_of pages (sole_piece k n bio).bi_sector (read_segs calls bio.segs) bio.segs

abbrev pub disks_of_write : Kernel → ℕ → (ℕ → Memory) → (ℕ → Page) → Bio → ℕ → Memory
disks_of_write k n disks pages bio =
    write_to disks pages (sole_piece k n bio).bi_bdev (sole_piece k n bio).bi_sector
      (sole_piece k n bio).segs

-- A write bio of the array inside one chunk, with all its entries and its iterator at the start, with
-- fewer than 2 ^ 32 segments, each of at least a byte, of whole sectors and inside its page, as many
-- bytes as its sectors have; a kernel that gives each page and merges none into an entry, and that
-- brings into the pages of the read bio, if it is a read, what the disk that it names has at the
-- sectors that it names; a completion whose every call of `add_verify_task` succeeds,
-- over pages of bytes; a device that has just been started, over bytes and with the parity of the
-- `n` data disks on the verify disk; and a kernel that serves the transfers of the tasks. Then
-- `vpciedisk_submit_bio` makes one call, which puts a read in front of the write; its completion
-- submits the write and queues a task for each segment; and there is a run of the workers of these
-- tasks to a state in which the verify disk is the parity of the data disks with the write, one
-- interrupt is raised for each segment, no job waits or runs, and the semaphore is free. The array,
-- as one disk over these data disks, has the data of the bio in the sectors of the bio, and in all
-- others what it had.
pub vpciedisk_submit_bio-IsParity :
    (k : Kernel)
    → GivesPages k
    → (bio : Bio) (fuel calls : ℕ) → bio.dir ≡ Direction.write
    → bio_end_sector bio ≤ chunk_end_sector bio.bi_sector + 1
    → IsWholeWrite bio
    → bytes_in bio.segs ≡ bio.sectors * 512
    → (g : ℕ → Grants) → AllGranted g
    → (pages : ℕ → Page) → ((page : ℕ) → IsBytes (pages page))
    → (left : List BioVec) (cnt_disk n : ℕ) → 0 < n
    → (storage parity : Memory) (disks : ℕ → Memory) → IsBytes storage
    → IsBytes parity
    → IsParity n disks parity
    → ReadsBack disks parity pages (made_read k (sole_piece k n bio) calls)
    → (r w : ℕ → Services)
    → ((i : ℕ) → IsGood (r i) (task_at (tasks_of_write k n pages bio calls) i).size)
    → ((i : ℕ) → IsGood (w i) (task_at (tasks_of_write k n pages bio calls) i).size)
    → (vpciedisk_submit_bio k n (suc fuel) bio calls
        ≡ some (verified k n bio calls ∷ [], calls + length bio.segs))
      × (pciev_read_bio_endio g pages
            (made_read k (sole_piece k n bio) calls)
            (sole_piece k n bio)
            left
          ≡ Completed.done
              (map some (tasks_of_write k n pages bio calls))
              (map (λ v. v.bv_page) left)
              (sole_piece k n bio))
      × (c : System) × SystemReach
          (task_at (tasks_of_write k n pages bio calls))
          (started_device cnt_disk storage parity)
          c
      × IsParity n (disks_of_write k n disks pages bio) c.dev.verify_blk
      × (c.dev.irqs ≡ length bio.segs)
      × IsQuiet c
      × ((s x : ℕ)
          → x < 512
          → view n (sectors_of (disks_of_write k n disks pages bio)) s x
            ≡ write_sectors
                (view n (sectors_of disks))
                bio.bi_sector
                bio.sectors
                (sectors_in pages bio.segs)
                s
                x)
unfolding aim locate read_bio
vpciedisk_submit_bio-IsParity k pages_left bio fuel calls writes inside write size g granted pages
      bytes left cnt_disk n some_disk storage parity disks bytes_s bytes_p kept read r w good_r
      good_w =
    let entries : length bio.segs ≤ bio.bi_vcnt = omega (arith, write.entries) in
    let fit = AllInPage-AllFit bio.segs write.in_page in
    let made =
      pcievdrv_submit_verify-made_read k pages_left (sole_piece k n bio) calls fit entries in
    let whole : IsWholeWrite (sole_piece k n bio) = record {
      at_start = record {
        idx = write.at_start.idx;
        bvec_done = write.at_start.bvec_done;
        some_bytes = write.at_start.some_bytes;
      };
      entries = write.entries;
      few = write.few;
      whole = write.whole;
      in_page = write.in_page;
    } in
    let (done, c, run, parity', raised, quiet) =
      write-IsParity k pages_left (sole_piece k n bio) (made_read k (sole_piece k n bio) calls)
        calls (calls + length bio.segs) [] whole made g granted pages bytes left cnt_disk n
        (locate n bio.bi_sector).dev (locate_dev n bio.bi_sector some_disk) refl storage parity
        disks bytes_s bytes_p kept read r w good_r good_w in
    (
      submit-verified k n bio pages_left fuel calls writes inside fit entries,
      done,
      c,
      run,
      parity',
      raised,
      quiet,
      λ s x lt.
          view-write_segments n disks pages bio.bi_sector bio.sectors bio.segs inside write.whole
            size s x lt,
    )
