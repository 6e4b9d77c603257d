-- ===== src/Device/Request.antt =====
-- pci.c, `pciev_submit_bio`: the device reads or writes a stretch of the verify disk through a page
-- of its own. `Services` is what the kernel answers during one call, since its code is not in the
-- repository; `IsDisk` is what the block layer promises of a transfer that it reports as done.
pub mod Laws
use praid.Common.{ℕ, ◌+◌, ◌-◌, ◌*◌, ◌<◌, ◌≡◌, Bool, not, Option, none, some, List, [], ◌∷◌}
use praid.Common.{ltb, leb, ◌&&◌, ◌==◌, if◌then◌else◌}
use praid.Geometry.{sector_size}
use praid.Bio.{Direction, read, write}
use praid.Device.Word.{Memory}

-- `bio_add_page` gives the length that was added. `submit_bio_wait rw sector size offset page disk`
-- gives the page and the disk after the transfer, or nothing for a negative result; `disk_left` is
-- the disk behind such a result, where a write may have been done in part.
pub record Services : Type 0 where
  pub bio_alloc : Bool
  pub alloc_page : Bool
  pub kmap : Bool
  pub page : Memory
  pub bio_add_page : ℕ
  pub submit_bio_wait : Direction → ℕ → ℕ → ℕ → Memory → Memory → Option (Memory × Memory)
  pub disk_left : Direction → ℕ → ℕ → ℕ → Memory → Memory → Memory

-- The bytes of a stretch of one memory put at a stretch of another: `memcpy`.
abbrev pub memcpy : Memory → ℕ → Memory → ℕ → ℕ → Memory
memcpy to dst from src size a =
    if leb dst a && ltb a (dst + size) then from (src + (a - dst)) else to a

pub record IsDisk (s : Services) : Type 0 where
  pub reads :
      (sector size offset : ℕ) (page disk page' disk' : Memory)
      → s.submit_bio_wait read sector size offset page disk ≡ some (page', disk')
      → ((i : ℕ) → i < size → page' (offset + i) ≡ disk (sector * sector_size + i))
        × ((a : ℕ) → disk' a ≡ disk a)
  pub writes :
      (sector size offset : ℕ) (page disk page' disk' : Memory)
      → s.submit_bio_wait write sector size offset page disk ≡ some (page', disk')
      → (a : ℕ) → disk' a ≡ memcpy disk (sector * sector_size) page offset size a

-- 0, -EINVAL and -EIO.
pub data Ret : Type 0 where
  ok einval eio : Ret

-- What the exits give back, in order.
pub data Undo : Type 0 where
  kunmap free_page bio_put : Undo

pub record Result : Type 0 where
  pub ret : Ret
  pub mem : Memory
  pub disk : Memory
  pub undone : List Undo

-- The label out_map, which a call that succeeds reaches as well.
abbrev pub out_map : Ret → Memory → Memory → Result
out_map ret mem disk = record {
  ret = ret;
  mem = mem;
  disk = disk;
  undone = kunmap ∷ free_page ∷ bio_put ∷ [];
}

-- The two copies between the buffer and the page, of which one is made.
unfoldable pub fill_page : Direction → Memory → ℕ → ℕ → ℕ → Memory → Memory
fill_page read mem buffer offset size page = page
fill_page write mem buffer offset size page = memcpy page offset mem (buffer + offset) size

unfoldable pub take_page : Direction → Memory → ℕ → ℕ → ℕ → Memory → Memory
take_page read mem buffer offset size page = memcpy mem (buffer + offset) page offset size
take_page write mem buffer offset size page = mem

-- From `submit_bio_wait` to the exit; `disk` is the one behind a negative result.
unfoldable pub transfer :
    ℕ → ℕ → ℕ → Direction → Memory → Memory → Option (Memory × Memory) → Result
unfolding take_page
transfer buffer offset size rw mem disk none = out_map eio mem disk
transfer buffer offset size rw mem disk (some (page, disk')) =
    out_map ok (take_page rw mem buffer offset size page) disk'

unfoldable pub pciev_submit_bio : Services → ℕ → ℕ → ℕ → ℕ → Direction → Memory → Memory → Result
unfolding fill_page transfer
pciev_submit_bio s buffer offset size sector_num rw mem disk =
    if not s.bio_alloc
    then record { ret = einval; mem = mem; disk = disk; undone = [] }
    else if not s.alloc_page
    then record { ret = einval; mem = mem; disk = disk; undone = bio_put ∷ [] }
    else if not s.kmap
    then record { ret = einval; mem = mem; disk = disk; undone = free_page ∷ bio_put ∷ [] }
    else if not (s.bio_add_page == size)
    then out_map eio mem disk
    else let page = fill_page rw mem buffer offset size s.page in
      transfer buffer offset size rw mem (s.disk_left rw sector_num size offset page disk)
        (s.submit_bio_wait rw sector_num size offset page disk)
