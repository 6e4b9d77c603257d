-- ===== src/Array.antt =====
-- The array with several writes on their way at once: the bytes of the data disks after the writes,
-- and of the verify disk after their jobs, each in an order of its own.
pub mod Order
pub mod Ledger
pub mod Parity
pub mod Progress
pub mod Stale
pub mod Queue
pub mod Sequence
pub mod Bytes
pub mod Write
pub mod Submit
use praid.Common.{ℕ, ◌+◌, ◌*◌, ◌<◌, ◌≡◌, List, [], ◌∷◌}
use praid.Pciedrv.Completion.{VerifyWorkParam}
use praid.Device.Word.{Memory}
use praid.Parity.{write_disk}

-- Worker `i` has the task `tasks i`, of a write to the data disk `dev i`.
module _ (tasks : ℕ → VerifyWorkParam) (dev : ℕ → ℕ) (disks : ℕ → Memory) where
  -- The data disks after the writes of a list of tasks, the last of the list first.
  abbrev pub disks_after : List ℕ → ℕ → Memory
  disks_after [] = disks
  disks_after (i ∷ is) =
      let p = tasks i in
      write_disk (disks_after is) (dev i) (p.num_sector * 512) p.page_new p.offset p.size

  -- The old page of each task holds what its disk has there when its write reaches the disk.
  abbrev pub IsInOrder : ℕ → List ℕ → Type 0
  IsInOrder n [] = Unit
  IsInOrder n (i ∷ is) =
      (dev i < n)
      × ((x : ℕ)
          → x < (tasks i).size
          → (tasks i).page_old ((tasks i).offset + x)
            ≡ disks_after is (dev i) ((tasks i).num_sector * 512 + x))
      × IsInOrder n is
