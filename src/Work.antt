-- ===== src/Work.antt =====
-- pciedrv.c, `do_verify_work`, by what it does to the memory that it shares with the device, when
-- it runs with the semaphore; and the device's round behind it. The driver's `chunk_addr` and the
-- device's `storage_mapped` are two mappings of the same memory.
pub mod Outcome
use praid.Common.{
  ℕ, ◌+◌, ◌-◌, ◌*◌, ◌%◌, ◌^◌, ◌≤◌, ◌<◌, ◌≡◌, refl, ◌∙◌, arith, Bool, true, Bool-cases, inl, inr,
  Option, none, some, leb, ltb, ◌&&◌, if◌then◌else◌,
}
use praid.Geometry.{chunk_size}
use praid.Pciedrv.Completion.{Page, VerifyWorkParam}
use praid.Device.Word.{Memory, IsBytes}
use praid.Device.Request.{Services, memcpy}
use praid.Device.Dispatcher.{PcievDev, pciev_dispatcher_clac_xor_single}
use praid.Device.Dispatcher.Computed.{IsGood, IsJob}
use praid.Parity.{IsParity, write_disk, xor_all-ext, clac_xor_single-IsParity}

-- `kmap` tells whether the page is mapped; `none` stands for the result false.
unfoldable pub copy_page_to_buffer : Bool → Memory → ℕ → Page → ℕ → ℕ → Option Memory
copy_page_to_buffer kmap mem buffer page offset size =
    if kmap then some (memcpy mem (buffer + offset) page offset size) else none

-- The two copies; the second one is tried only behind the first.
unfoldable pub copy_pages : Bool → Bool → VerifyWorkParam → Memory → Memory
unfolding copy_page_to_buffer
copy_pages kmap_old kmap_new param mem =
    elim (copy_page_to_buffer kmap_old mem 0 param.page_old param.offset param.size) [
      | none ↦ mem
      | some mem' ↦
          elim (copy_page_to_buffer kmap_new mem' chunk_size param.page_new param.offset
            param.size) [ none ↦ mem' | some mem'' ↦ mem'' ]
    ]

unfoldable pub do_verify_work : Bool → Bool → VerifyWorkParam → PcievDev → PcievDev
unfolding copy_pages
do_verify_work kmap_old kmap_new param d = record d {
  storage_mapped = copy_pages kmap_old kmap_new param d.storage_mapped;
  bar = record d.bar {
    offset = param.offset;
    size = param.size;
    sector_sta = param.num_sector;
    io_num = (d.bar.io_num + 1) % 2 ^ 32;
  };
}

pub memcpy-inside :
    (to from : Memory) (dst src size i : ℕ)
    → i < size
    → memcpy to dst from src size (dst + i) ≡ from (src + i)
memcpy-inside to from dst src size i h =
    let place : dst + i - dst ≡ i = omega arith in
    let inside : (leb dst (dst + i) && ltb (dst + i) (dst + size)) ≡ true = ground arith in
    rw (inside, place) refl

pub memcpy-below :
    (to from : Memory) (dst src size a : ℕ) → a < dst → memcpy to dst from src size a ≡ to a
memcpy-below to from dst src size a h = ground arith

pub memcpy-IsBytes :
    (to from : Memory) (dst src size : ℕ)
    → IsBytes to
    → IsBytes from
    → IsBytes (memcpy to dst from src size)
memcpy-IsBytes to from dst src size ht hf a = ground (arith, ht a, hf (src + (a - dst)))

-- A task of whole words inside a page, for a device without a job, over bytes.
pub record IsTask (param : VerifyWorkParam) (d : PcievDev) : Type 0 where
  pub no_job : d.bar.io_num ≡ d.bar.io_done
  pub no_wrap : d.bar.io_num + 1 < 2 ^ 32
  pub words : param.size % 8 ≡ 0
  pub fits : param.offset + param.size ≤ 4096
  pub storage : IsBytes d.storage_mapped
  pub parity : IsBytes d.verify_blk
  pub old_bytes : IsBytes param.page_old
  pub new_bytes : IsBytes param.page_new
