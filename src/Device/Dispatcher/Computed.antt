-- ===== src/Device/Dispatcher/Computed.antt =====
-- What a job computes: the storage between its two transfers, and the verify disk behind them.
use praid.Common.{ℕ, ◌+◌, ◌-◌, ◌*◌, ◌%◌, ◌≤◌, ◌<◌, ◌≡◌, arith}
use praid.Common.{leb, ltb, ◌&&◌, if◌then◌else◌, some}
use praid.Bio.{Direction}
use praid.Device.Word.{Memory, IsBytes}
use praid.Device.XorLoop.{xored, xored-IsBytes}
use praid.Device.Request.{Services, IsDisk, memcpy}
use praid.Device.Request.Laws.{IsReady}
use praid.Device.Dispatcher.{PcievDev}
use Prim.Native.Nat.{bit_xor}

-- The kernel serves a call of `pciev_submit_bio`, and its block layer moves the bytes.
pub record IsGood (s : Services) (size : ℕ) : Type 0 where
  pub ready : IsReady s size
  pub disk : IsDisk s
  pub done :
      (way : Direction) (sector n offset : ℕ) (page disk : Memory)
      → (r : Memory × Memory) × (s.submit_bio_wait way sector n offset page disk ≡ some r)

-- A job in the registers: whole words, inside a page, over bytes.
pub record IsRunning (d : PcievDev) : Type 0 where
  pub words : d.bar.size % 8 ≡ 0
  pub fits : d.bar.offset + d.bar.size ≤ 4096
  pub storage : IsBytes d.storage_mapped
  pub parity : IsBytes d.verify_blk

-- The same for a job that waits.
pub record IsJob (d : PcievDev) : Type 0 where
  pub waits : d.bar.io_done < d.bar.io_num
  pub words : d.bar.size % 8 ≡ 0
  pub fits : d.bar.offset + d.bar.size ≤ 4096
  pub storage : IsBytes d.storage_mapped
  pub parity : IsBytes d.verify_blk

-- The i-th byte of the new parity: the old parity, the old data and the new data of the job.
abbrev pub new_parity : PcievDev → ℕ → ℕ
new_parity d i =
    bit_xor
      (bit_xor (d.verify_blk (d.bar.sector_sta * 512 + i)) (d.storage_mapped (d.bar.offset + i)))
      (d.storage_mapped (4096 + (d.bar.offset + i)))

-- The verify disk after the job.
abbrev pub with_parity : PcievDev → Memory
with_parity d a =
    if leb (d.bar.sector_sta * 512) a && ltb a (d.bar.sector_sta * 512 + d.bar.size)
    then new_parity d (a - d.bar.sector_sta * 512)
    else d.verify_blk a

module _ (d : PcievDev) (job : IsRunning d) (page₁ : Memory)
    (got : (i : ℕ)
      → i < d.bar.size
      → page₁ (d.bar.offset + i) ≡ d.verify_blk (d.bar.sector_sta * 512 + i)) where
  -- The storage after the first transfer.
  abbrev pub fetched : Memory
  fetched = memcpy d.storage_mapped (8192 + d.bar.offset) page₁ d.bar.offset d.bar.size

  fetched-low : (a : ℕ) → a < 8192 → fetched a ≡ d.storage_mapped a
  fetched-low a h = ground arith

  fetched-res :
      (i : ℕ)
      → i < d.bar.size
      → fetched (8192 + d.bar.offset + i) ≡ d.verify_blk (d.bar.sector_sta * 512 + i)
  fetched-res i h = ground (arith, got i h)

  pub fetched-IsBytes : IsBytes fetched
  fetched-IsBytes a = ground (
    arith,
    got (a - (8192 + d.bar.offset)),
    job.storage a,
    job.parity (d.bar.sector_sta * 512 + (a - (8192 + d.bar.offset))),
  )

  module _ (m : Memory)
      (computed : (a : ℕ)
        → m a ≡ xored fetched (8192 + d.bar.offset) (8192 + (d.bar.offset + d.bar.size)) a) where
    pub computed-low : (a : ℕ) → a < 8192 → m a ≡ d.storage_mapped a
    computed-low a h = ground (arith, computed a, fetched-low a h)

    pub computed-IsBytes : IsBytes m
    computed-IsBytes a = rw (computed a) (
        xored-IsBytes fetched (8192 + d.bar.offset) (8192 + (d.bar.offset + d.bar.size))
          fetched-IsBytes a)

    computed-res : (i : ℕ) → i < d.bar.size → m (8192 + d.bar.offset + i) ≡ new_parity d i
    computed-res i h =
        let low : 8192 + d.bar.offset + i - 8192 ≡ d.bar.offset + i = omega arith in
        let mid : 8192 + d.bar.offset + i - 4096 ≡ 4096 + (d.bar.offset + i) = omega arith in
        ground (
          arith,
          computed (8192 + d.bar.offset + i),
          fetched-res i h,
          fetched-low (d.bar.offset + i) (omega (arith, job.fits)),
          fetched-low (4096 + (d.bar.offset + i)) (omega (arith, job.fits)),
        )

    pub stored :
        (disk page₀ disk' : Memory)
        → ((a : ℕ) → disk a ≡ d.verify_blk a)
        → ((a : ℕ)
            → disk' a
              ≡ memcpy disk
                  (d.bar.sector_sta * 512)
                  (memcpy page₀ d.bar.offset m (8192 + d.bar.offset) d.bar.size)
                  d.bar.offset
                  d.bar.size
                  a)
        → (a : ℕ) → disk' a ≡ with_parity d a
    stored disk page₀ disk' same put a =
        ground (arith, put a, same a, computed-res (a - d.bar.sector_sta * 512))
