-- ===== src/System/Pays.antt =====
-- What a task owes to the verify disk.
use praid.Common.{
  ℕ, ◌+◌, ◌-◌, ◌*◌, ◌%◌, ◌≤◌, ◌≡◌, arith, List, [], ◌∷◌, leb, ltb, ◌&&◌, if◌then◌else◌,
}
use praid.Common.Bits.{bit_xor-lt}
use praid.Pciedrv.Completion.{VerifyWorkParam}
use praid.Device.Word.{Memory, IsBytes}
use praid.Device.Dispatcher.{PcievDev}
use praid.Device.Dispatcher.Computed.{with_parity}
use praid.System.Areas.{HoldsAll}
use Prim.Native.Nat.{bit_xor}

-- The disk with the old and the new data of a task XORed into its stretch.
abbrev pub pays : VerifyWorkParam → Memory → Memory
pays p disk a =
    if leb (p.num_sector * 512) a && ltb a (p.num_sector * 512 + p.size)
    then bit_xor (bit_xor (disk a) (p.page_old (p.offset + (a - p.num_sector * 512))))
        (p.page_new (p.offset + (a - p.num_sector * 512)))
    else disk a

-- The same for the tasks of a list of workers, the last of the list first.
abbrev pub pays_all : (ℕ → VerifyWorkParam) → List ℕ → Memory → Memory
pays_all tasks [] disk = disk
pays_all tasks (i ∷ is) disk = pays (tasks i) (pays_all tasks is disk)

-- A task of whole words of bytes inside a page.
pub record IsWordTask (p : VerifyWorkParam) : Type 0 where
  pub words : p.size % 8 ≡ 0
  pub fits : p.offset + p.size ≤ 4096
  pub old : IsBytes p.page_old
  pub new : IsBytes p.page_new

pub pays-IsBytes :
    (p : VerifyWorkParam) (disk : Memory) → IsWordTask p → IsBytes disk → IsBytes (pays p disk)
pays-IsBytes p disk task bytes a =
    let i : ℕ = p.offset + (a - p.num_sector * 512) in
    ground (
      arith,
      bytes a,
      task.old i,
      task.new i,
      bit_xor-lt 8 (disk a) (p.page_old i),
      bit_xor-lt 8 (bit_xor (disk a) (p.page_old i)) (p.page_new i),
    )

-- A job whose areas hold a task pays that task.
pub with_parity-pays :
    (p : VerifyWorkParam) (dev : PcievDev)
    → HoldsAll p dev
    → (a : ℕ) → with_parity dev a ≡ pays p dev.verify_blk a
with_parity-pays p dev holds a =
    let at : dev.bar.offset ≡ p.offset = holds 2 (omega arith) in
    let long : dev.bar.size ≡ p.size = holds 3 (omega arith) in
    let sector : dev.bar.sector_sta ≡ p.num_sector = holds 4 (omega arith) in
    let i : ℕ = a - p.num_sector * 512 in
    rw (at, long, sector) (ground (arith, holds 0 (omega arith) i, holds 1 (omega arith) i))
