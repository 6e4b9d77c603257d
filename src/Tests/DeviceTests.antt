-- ===== src/Tests/DeviceTests.antt =====
-- The parity device over a disk in memory.
use praid.Common.{ℕ, ◌+◌, ◌*◌, ◌≡◌, refl, arith, true, false, none, some, Option, ◌⊎◌, ◌↔◌}
use Prim.Native.Nat.{compare, Ordering}
use praid.Bio.{Direction, read, write}
use praid.Device.Word.{Memory}
use praid.Device.XorLoop.{xored, xor_loop_lem}
use praid.Device.Xor.{xor_loop}
use praid.Device.Request.{Services, IsDisk, memcpy, pciev_submit_bio, fill_page, ok}
use praid.Device.Request.Laws.{held, pciev_submit_bio_exits}
use praid.Device.Dispatcher.{PcievBar, PcievDev, pciev_dispatcher_clac_xor_single}
use praid.Device.Dispatcher.Computed.{IsGood, IsJob}
use praid.Device.Dispatcher.Job.{IsDone, clac_xor_single-IsDone}
use praid.Pciedrv.Completion.{VerifyWorkParam}
use praid.Work.{IsTask, do_verify_work}
use praid.Work.Outcome.{Harmless, do_verify_work-IsParity_iff}
use praid.Parity.{IsParity, write_disk, clac_xor_single-IsParity, xor_all}

abbrev pub blank : Memory
blank _ = 0

abbrev ram_wait : Direction → ℕ → ℕ → ℕ → Memory → Memory → Option (Memory × Memory)
ram_wait read sector size offset page disk =
    some (memcpy page offset disk (sector * 512) size, disk)
ram_wait write sector size offset page disk =
    some (page, memcpy disk (sector * 512) page offset size)

-- A kernel that serves a call for `size` bytes, with the disk in memory.
abbrev pub ram : ℕ → Services
ram size = record {
  bio_alloc = true;
  alloc_page = true;
  kmap = true;
  page = blank;
  bio_add_page = size;
  submit_bio_wait = ram_wait;
  disk_left = λ way sector size offset page disk. disk;
}

ram-IsDisk : (size : ℕ) → IsDisk (ram size)
ram-IsDisk size = record {
  reads = λ sector n offset page disk page' disk' e.
      (λ i lt. ground (arith, e), λ a. ground (arith, e));
  writes = λ sector n offset page disk page' disk' e a. ground (arith, e);
}

ram_done :
    (way : Direction) (sector n offset : ℕ) (page disk : Memory)
    → (r : Memory × Memory) × (ram_wait way sector n offset page disk ≡ some r)
ram_done read sector n offset page disk = (_, refl)
ram_done write sector n offset page disk = (_, refl)

pub ram-IsGood : (size : ℕ) → IsGood (ram size) size
ram-IsGood size = record {
  ready = record { has_bio = refl; has_page = refl; has_map = refl; adds = refl };
  disk = ram-IsDisk size;
  done = ram_done;
}

-- A job of 512 bytes for sector 3: the old data are zeros, the new data ones.
abbrev registers : PcievBar
registers = record { dev_cnt = 2; offset = 0; size = 512; sector_sta = 3; io_num = 1; io_done = 0 }

abbrev area : Memory
area a = elim (compare a 4096) [ Ordering.lt ↦ 0 | _ ↦ 1 ]

abbrev device : PcievDev
device = record {
  bar = registers;
  old_bar = registers;
  storage_mapped = area;
  verify_blk = blank;
  msix_enabled = false;
  sts_is = 0;
  irqs = 0;
}

device-IsJob : IsJob device
device-IsJob = record {
  waits = omega arith;
  words = refl;
  fits = omega arith;
  storage = λ a. ground arith;
  parity = λ a. omega arith;
}

clac_xor_single-IsDone_example :
    (d' : PcievDev) × (pciev_dispatcher_clac_xor_single (ram 512) (ram 512) device ≡ some d')
    × IsDone device d'
clac_xor_single-IsDone_example =
    clac_xor_single-IsDone (ram 512) (ram 512) device device-IsJob (ram-IsGood 512) (ram-IsGood 512)

abbrev pub two_blank : ℕ → Memory
two_blank _ = blank

pub two_blank-IsParity : IsParity 2 two_blank blank
unfolding xor_all
two_blank-IsParity a = refl

clac_xor_single-IsParity_example :
    (d' : PcievDev) × (pciev_dispatcher_clac_xor_single (ram 512) (ram 512) device ≡ some d')
    × IsParity 2 (write_disk two_blank 1 (3 * 512) area (4096 + 0) 512) d'.verify_blk
clac_xor_single-IsParity_example =
    clac_xor_single-IsParity 2 1 two_blank (ram 512) (ram 512) device (omega arith) device-IsJob
      (ram-IsGood 512) (ram-IsGood 512) two_blank-IsParity (λ i lt. ground arith)

xor_loop_lem_example :
    (m' : Memory) × (xor_loop 3 8 16 0 area ≡ some m')
    × ((a : ℕ) → m' a ≡ xored area (8192 + (8 + 0)) (8192 + (8 + 16)) a)
xor_loop_lem_example =
    xor_loop_lem 3 2 8 16 0 area (omega arith) (omega arith) (omega arith) (λ a. ground arith)

-- A call that gets no mapping for its page.
abbrev no_map : Services
no_map = record (ram 8) { kmap = false }

pciev_submit_bio_exits_example :
    let r = pciev_submit_bio no_map 8192 0 8 3 read area blank in
    (r.undone ≡ held no_map)
    × ((r.ret ≡ ok)
        ⊎ ((r.mem ≡ area)
            × ((r.disk ≡ blank)
                ⊎ (no_map.submit_bio_wait read 3 8 0
                      (fill_page read area 8192 0 8 no_map.page)
                      blank
                    ≡ none))))
pciev_submit_bio_exits_example = pciev_submit_bio_exits no_map 8192 0 8 3 read area blank

-- A device without a job, and the task of writing ones over zeros at sector 3.
abbrev pub at_rest : PcievDev
at_rest = record device { bar = record registers { io_num = 0 }; storage_mapped = blank }

abbrev pub task : VerifyWorkParam
task = record { page_new = λ _. 1; page_old = blank; num_sector = 3; offset = 512; size = 1024 }

task-IsTask : IsTask task at_rest
task-IsTask = record {
  no_job = refl;
  no_wrap = omega arith;
  words = refl;
  fits = omega arith;
  storage = λ a. omega arith;
  parity = λ a. omega arith;
  old_bytes = λ a. omega arith;
  new_bytes = λ a. omega arith;
}

-- A worker whose second copy fails.
do_verify_work-IsParity_iff_example :
    (d' : PcievDev) × (pciev_dispatcher_clac_xor_single
        (ram 1024)
        (ram 1024)
        (do_verify_work true false task at_rest)
      ≡ some d')
    × (d'.irqs ≡ 0 + 1)
    × (IsParity 2 (write_disk two_blank 1 (3 * 512) (λ _. 1) 512 1024) d'.verify_blk
        ↔ Harmless true false task blank)
do_verify_work-IsParity_iff_example =
    do_verify_work-IsParity_iff true false task at_rest task-IsTask 2 1 two_blank (ram 1024)
      (ram 1024) (omega arith) (ram-IsGood 1024) (ram-IsGood 1024) two_blank-IsParity (λ i lt. refl)

-- Here the buffer for the new data does not hold them, so that the parity is lost.
parity_lost : ¬ Harmless true false task blank
unfolding Harmless
parity_lost same = absurd (omega (arith, same 0 (omega arith)))
