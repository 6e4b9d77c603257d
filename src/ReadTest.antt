-- ===== src/ReadTest.antt =====
-- readtest/main.c: a module for tests by hand, which reads the first page of four disks and prints
-- it.
pub mod Lines
pub mod Outcome
pub mod Heads
use praid.Common.{
  ℕ, zero, suc, ◌+◌, ◌-◌, Bool, true, false, Option, none, some, List, [], ◌∷◌, ◌++◌, ◌==◌, ◌/◌,
  if◌then◌else◌,
}
use praid.Bio.{Bio, BioVec, Direction, Disk, Kernel}
use praid.Pciedrv.{page_size}
use praid.Pciedrv.Completion.{Page}

-- One line of the printed page: the number of the disk, the offset, and the sixteen bytes from it.
pub record Line : Type 0 where
  pub id : ℕ
  pub offset : ℕ
  pub bytes : List ℕ

-- The arguments of the `printk` at `i`.
unfoldable pub sixteen : Page → ℕ → List ℕ
sixteen p i =
    p i
    ∷ p (i + 1)
    ∷ p (i + 2)
    ∷ p (i + 3)
    ∷ p (i + 4)
    ∷ p (i + 5)
    ∷ p (i + 6)
    ∷ p (i + 7)
    ∷ p (i + 8)
    ∷ p (i + 9)
    ∷ p (i + 10)
    ∷ p (i + 11)
    ∷ p (i + 12)
    ∷ p (i + 13)
    ∷ p (i + 14)
    ∷ p (i + 15)
    ∷ []

-- The loop over the mapped page at offset `i`, with `left` rounds to go.
unfoldable pub dump : (left id : ℕ) → Page → ℕ → List Line
unfolding sixteen
dump zero id p i = []
dump (suc left) id p i =
    record { id = id; offset = i; bytes = sixteen p i } ∷ dump left id p (i + 16)

-- What the kernel answers for the i-th disk: whether `blkdev_get_by_dev` and `bio_alloc` succeed,
-- whether the two calls of `kmap` give an address; and what the page has in it once `submit_bio_wait`
-- of a bio has returned.
pub record Answers : Type 0 where
  pub opens : ℕ → Bool
  pub bio_alloc : ℕ → Bool
  pub kmap : ℕ → Bool
  pub kmap_again : ℕ → Bool
  pub page_after : Bio → Page

-- What the module holds: how often each disk is open, the variable `page`, the numbers of pages and
-- of bios that it has not given back; and what it has sent to the disks and printed.
pub record Trial : Type 0 where
  pub opened : ℕ → ℕ
  pub page : Option ℕ
  pub pages : ℕ
  pub bios : ℕ
  pub submitted : List Bio
  pub printed : List Line

-- What `my_init` returns; `fault` where it does not.
pub data Ret : Type 0 where
  ok ptr_err enomem fault : Ret

abbrev pub blkdev_get : ℕ → Trial → Trial
blkdev_get i t = record t { opened = λ j. if i == j then t.opened j + 1 else t.opened j }

abbrev pub blkdev_put : ℕ → Trial → Trial
blkdev_put i t = record t { opened = λ j. if i == j then t.opened j - 1 else t.opened j }

module _ (k : Kernel) (a : Answers) where
  -- `bio_alloc` for one entry, `bio_set_dev` and the sector; and the page that it reads into.
  unfoldable pub head_bio : ℕ → Bio
  head_bio id = record (k.bio_alloc 1) { bi_bdev = Disk.nvme id; bi_sector = 0 }

  -- From `submit_bio_wait` to the end; `bio` is not put. Nothing stands for a read through the
  -- address that the second `kmap` has not given, from where the kernel goes no further.
  unfoldable pub print_head : ℕ → Bio → Trial → Option Trial
  unfolding dump
  print_head id bio t = elim (a.kmap_again id) [
    | false ↦ none
    | true ↦ some (record t {
      submitted = t.submitted ++ bio ∷ [];
      printed = t.printed ++ dump (page_size / 16) id (a.page_after bio) 0;
    })
  ]

  unfoldable pub submit_my_bio : (id page : ℕ) → Trial → Option Trial
  unfolding head_bio print_head
  submit_my_bio id page t = elim (a.bio_alloc id) [
    | false ↦ some t
    | true ↦
        let t' : Trial = record t { bios = t.bios + 1 } in
        elim (a.kmap id) [
          | false ↦ some t'
          | true ↦
              let bvec : BioVec = record { bv_page = page; bv_len = page_size; bv_offset = 0 } in
              elim (k.bio_add_page (head_bio id) bvec) [
                | none ↦ some (record t' { bios = t'.bios - 1 })
                | some bio ↦ print_head id (record bio { dir = Direction.read }) t'
              ]
        ]
  ]

  -- The loop of `my_init` at `i`, with `left` disks to go. The page of the i-th round is the i-th.
  unfoldable pub init_from : (left i : ℕ) → Trial → Ret × Trial
  unfolding submit_my_bio
  init_from zero i t = (ok, t)
  init_from (suc left) i t = elim (a.opens i) [
    | false ↦ (ptr_err, t)
    | true ↦ elim (k.alloc_page i) [
      | false ↦ (enomem, blkdev_put i (record (blkdev_get i t) { page = none }))
      | true ↦
          let held : Trial = record (blkdev_get i t) { page = some i; pages = t.pages + 1 } in
          elim (submit_my_bio i i held) [
            | none ↦ (fault, held)
            | some t' ↦ init_from left (i + 1) (blkdev_put i t')
          ]
    ]
  ]

  unfoldable pub my_init : Trial → Ret × Trial
  unfolding init_from
  my_init t = init_from 4 0 t

-- A null `page` is not freed.
unfoldable pub my_exit : Trial → Trial
my_exit t = elim t.page [ none ↦ t | some page ↦ record t { pages = t.pages - 1 } ]
