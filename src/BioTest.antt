-- ===== src/BioTest.antt =====
-- biotest/main.c: a module for tests by hand, which means to write two pages to the array.
use praid.Common.{
  ℕ, ◌+◌, ◌-◌, Bool, true, false, Option, none, some, List, [], ◌∷◌, ◌++◌, ◌==◌, if◌then◌else◌,
}
use praid.Bio.{Bio, Direction, Disk, Kernel}
use praid.Pciedrv.Completion.{Page}

abbrev pub read_size : ℕ
read_size = 3072

-- "Hello, block device!".
abbrev pub hello : List ℕ
hello =
    72 ∷ 101 ∷ 108 ∷ 108 ∷ 111 ∷ 44 ∷ 32 ∷ 98 ∷ 108 ∷ 111 ∷ 99 ∷ 107 ∷ 32 ∷ 100 ∷ 101 ∷ 118 ∷ 105
    ∷ 99 ∷ 101 ∷ 33 ∷ []

-- The bytes behind `strcpy` of a text, and of the zero that ends it, from place `i`.
unfoldable pub strcpy : List ℕ → ℕ → Page → Page
strcpy [] i p = λ a. if a == i then 0 else p a
strcpy (c ∷ cs) i p = strcpy cs (i + 1) (λ a. if a == i then c else p a)

-- What the kernel answers: whether `blkdev_get_by_dev` and `bio_alloc` succeed, and whether `kmap`
-- gives an address for the i-th page.
pub record Answers : Type 0 where
  pub opens : Bool
  pub bio_alloc : Bool
  pub kmap : ℕ → Bool

-- What the module holds: how often the array is open, the variables `page` and `page1`, the numbers
-- of pages and of bios that it has not given back; what the pages have in them, and the bios sent.
pub record Trial : Type 0 where
  pub opened : ℕ
  pub page : Option ℕ
  pub page1 : Option ℕ
  pub pages : ℕ
  pub bios : ℕ
  pub contents : ℕ → Page
  pub submitted : List Bio

-- What `my_init` returns; `fault` where it does not.
pub data Ret : Type 0 where
  ok ptr_err enomem fault : Ret

module _ (k : Kernel) (a : Answers) where
  -- `kmap`, `strcpy` and `kunmap` of one page.
  unfoldable pub fill : ℕ → Trial → Trial
  unfolding strcpy
  fill page t =
      if a.kmap page
      then record t {
        contents = λ j. if j == page then strcpy hello 0 (t.contents page) else t.contents j;
      }
      else t

  -- `bio_alloc` for one entry, `bio_set_dev` and `start_sector`.
  unfoldable pub hello_bio : Bio
  hello_bio = record (k.bio_alloc 1) { bi_bdev = Disk.array; bi_sector = 2 }

  -- From the first `bio_add_page` to the end; a page that is not taken is the end of the bio.
  unfoldable pub send : (page page1 : ℕ) → Trial → Trial
  unfolding hello_bio
  send page page1 t =
      elim (k.bio_add_page hello_bio
        (record { bv_page = page; bv_len = read_size; bv_offset = 0 })) [
          | none ↦ record t { bios = t.bios - 1 }
          | some bio ↦
              elim (k.bio_add_page bio
                (record { bv_page = page1; bv_len = read_size; bv_offset = 0 })) [
                  | none ↦ record t { bios = t.bios - 1 }
                  | some bio' ↦ record t {
                    submitted = t.submitted ++ record bio' { dir = Direction.write } ∷ [];
                  }
                ]
        ]

  -- Nothing stands for a null page handed to `kmap`, from where the kernel goes no further.
  unfoldable pub submit_my_bio : Trial → Option Trial
  unfolding fill send
  submit_my_bio t = elim a.bio_alloc [
    | false ↦ some t
    | true ↦ elim t.page [
      | none ↦ none
      | some page ↦ elim t.page1 [
        | none ↦ none
        | some page1 ↦
            some (send page page1 (fill page1 (fill page (record t { bios = t.bios + 1 }))))
      ]
    ]
  ]

  -- The two calls of `alloc_page`, the 0th and the 1st.
  unfoldable pub take_pages : Trial → Trial
  take_pages t = record t {
    page = if k.alloc_page 0 then some 0 else none;
    page1 = if k.alloc_page 1 then some 1 else none;
    pages = t.pages + (if k.alloc_page 0 then 1 else 0) + (if k.alloc_page 1 then 1 else 0);
  }

  unfoldable pub my_init : Trial → Ret × Trial
  unfolding take_pages submit_my_bio
  my_init t = elim a.opens [
    | false ↦ (ptr_err, t)
    | true ↦
        let held = take_pages (record t { opened = t.opened + 1 }) in
        elim held.page [
          | none ↦ (enomem, record held { opened = held.opened - 1 })
          | some page ↦ elim (submit_my_bio held) [ none ↦ (fault, held) | some t' ↦ (ok, t') ]
        ]
  ]

-- `bio_put` at the end of a bio that was sent.
unfoldable pub my_bio_end_io : Trial → Trial
my_bio_end_io t = record t { bios = t.bios - 1 }

-- A null pointer is not freed.
unfoldable pub free_page : Option ℕ → Trial → Trial
free_page none t = t
free_page (some page) t = record t { pages = t.pages - 1 }

-- Behind a successful `my_init`, so that `bdev` is there.
unfoldable pub my_exit : Trial → Trial
unfolding free_page
my_exit t = let t' = free_page t.page1 (free_page t.page t) in record t' { opened = t'.opened - 1 }
