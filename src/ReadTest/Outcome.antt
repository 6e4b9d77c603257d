-- ===== src/ReadTest/Outcome.antt =====
-- What readtest/main.c holds when `my_init` returns, whatever the kernel answers.
use praid.Common.{
  ℕ, zero, suc, ◌+◌, ◌<◌, ◌≡◌, refl, ap, ◌∙◌, arith, Bool-cases, false, inl, inr, Option, none,
  some, [], ◌∷◌, ◌++◌, length, ◌/◌,
}
use praid.Bio.{Bio, BioVec, Kernel, total}
use praid.Pciedrv.{page_size}
use praid.ReadTest.{
  Answers, Trial, Ret, blkdev_get, blkdev_put, head_bio, print_head, submit_my_bio, init_from,
  my_init,
}

-- What `submit_my_bio` leaves alone, and where it does not return.
Sent : Answers → ℕ → Trial → Option Trial → Type 0
Sent a id t none = a.kmap_again id ≡ false
Sent a id t (some t') = (t'.opened ≡ t.opened) × (t'.pages ≡ t.pages) × (t'.page ≡ t.page)

abbrev pub Same : Trial → Trial → Type 0
Same t t' = (j : ℕ) → t'.opened j ≡ t.opened j

module _ (k : Kernel) (a : Answers) where
  print_head-Sent :
      (id : ℕ) (bio : Bio) (t : Trial) (bios : ℕ)
      → Sent a id t (print_head k a id bio (record t { bios = bios }))
  unfolding print_head Sent
  print_head-Sent id bio t bios = elim (Bool-cases (a.kmap_again id)) [
    | inr failed ↦ rw (failed, print_head) failed
    | inl mapped ↦ rw (mapped, print_head) (refl, refl, refl)
  ]

  -- The page has room in the bio.
  pub head_bio_added :
      (id : ℕ) (v : BioVec)
      → k.bio_add_page (head_bio k a id) v
        ≡ some (record (head_bio k a id) {
          segs = (head_bio k a id).segs ++ v ∷ [];
          bi_vcnt = (head_bio k a id).bi_vcnt + 1;
          sectors = total ((head_bio k a id).segs ++ v ∷ []) / 512;
        })
  unfolding head_bio
  head_bio_added id v =
      let (empty, one, _, _) = k.bio_alloc_lem 1 in
      k.bio_add_page_room (head_bio k a id) v (k.merges_none (head_bio k a id) v empty)
        (omega (arith, ap length empty, one))

  submit_my_bio-Sent : (id page : ℕ) (t : Trial) → Sent a id t (submit_my_bio k a id page t)
  unfolding submit_my_bio Sent
  submit_my_bio-Sent id page t = elim (Bool-cases (a.bio_alloc id)) [
    | inr failed ↦ rw (failed, submit_my_bio) (refl, refl, refl)
    | inl given ↦ elim (Bool-cases (a.kmap id)) [
      | inr failed ↦ rw (given, failed, submit_my_bio) (refl, refl, refl)
      | inl mapped ↦
          let added =
            head_bio_added id (record { bv_page = page; bv_len = page_size; bv_offset = 0 }) in
          rw (given, mapped, added, submit_my_bio) (print_head-Sent id _ t (t.bios + 1))
    ]
  ]

  -- What the outcome of the loop at disk `i`, with `left` disks to go, says of what is held.
  pub Ended : (left i : ℕ) → Trial → Ret × Trial → Type 0
  Ended left i t (Ret.ok, t') = Same t t' × (t'.pages ≡ t.pages + left)
  Ended left i t (Ret.ptr_err, t') =
      (n : ℕ) × (n < left) × (a.opens (i + n) ≡ false) × Same t t' × (t'.pages ≡ t.pages + n)
  Ended left i t (Ret.enomem, t') =
      (n : ℕ) × (n < left) × (k.alloc_page (i + n) ≡ false) × Same t t' × (t'.pages ≡ t.pages + n)
  Ended left i t (Ret.fault, t') = (n : ℕ) × (n < left) × (a.kmap_again (i + n) ≡ false)

  Ended-later :
      (left i : ℕ) (t t1 : Trial) (out : Ret × Trial)
      → Same t t1
      → t1.pages ≡ t.pages + 1
      → Ended left (i + 1) t1 out
      → Ended (suc left) i t out
  unfolding Ended
  Ended-later left i t t1 (Ret.ok, t') same one (same', pages) =
      (λ j. same' j ∙ same j, omega (arith, pages, one))
  Ended-later left i t t1 (Ret.ptr_err, t') same one (n, lt, refused, same', pages) =
      let later : i + 1 + n ≡ i + suc n = omega arith in
      (
        suc n,
        omega (arith, lt),
        rw later at refused,
        λ j. same' j ∙ same j,
        omega (arith, pages, one),
      )
  Ended-later left i t t1 (Ret.enomem, t') same one (n, lt, refused, same', pages) =
      let later : i + 1 + n ≡ i + suc n = omega arith in
      (
        suc n,
        omega (arith, lt),
        rw later at refused,
        λ j. same' j ∙ same j,
        omega (arith, pages, one),
      )
  Ended-later left i t t1 (Ret.fault, t') same one (n, lt, refused) =
      let later : i + 1 + n ≡ i + suc n = omega arith in
      (suc n, omega (arith, lt), rw later at refused)

  round-Ended :
      (left i : ℕ) (t : Trial) (out : Option Trial)
      → ((t1 : Trial)
          → Same t t1
          → t1.pages ≡ t.pages + 1
          → Ended left (i + 1) t1 (init_from k a left (i + 1) t1))
      → Sent a i (record (blkdev_get i t) { page = some i; pages = t.pages + 1 }) out
      → Ended (suc left) i t (elim out [
        | none ↦ (Ret.fault, record (blkdev_get i t) { page = some i; pages = t.pages + 1 })
        | some t' ↦ init_from k a left (i + 1) (blkdev_put i t')
      ])
  unfolding Sent Ended
  round-Ended left i t none rec sent =
      let now : i + 0 ≡ i = omega arith in (0, omega arith, rw now sent)
  round-Ended left i t (some t') rec (opened, pages, page) =
      let same : Same t (blkdev_put i t') = (λ j. ground (arith, ap (λ f. f j) opened)) in
      Ended-later left i t (blkdev_put i t') _ same pages (rec (blkdev_put i t') same pages)

  init_from-Ended : (left i : ℕ) (t : Trial) → Ended left i t (init_from k a left i t)
  unfolding init_from Ended
  init_from-Ended zero i t = (λ j. refl, omega arith)
  init_from-Ended (suc left) i t =
      let now : i + 0 ≡ i = omega arith in
      elim (Bool-cases (a.opens i)) [
        | inr failed ↦
            rw (failed, init_from) (0, omega arith, rw now failed, λ j. refl, omega arith)
        | inl opened ↦ elim (Bool-cases (k.alloc_page i)) [
          | inr failed ↦
              rw (opened, failed, init_from)
                (0, omega arith, rw now failed, λ j. ground arith, omega arith)
          | inl given ↦
              rw (opened, given, init_from)
                (round-Ended left i t
                  (submit_my_bio k a i i
                    (record (blkdev_get i t) { page = some i; pages = t.pages + 1 }))
                  (λ t1 same one. init_from-Ended left (i + 1) t1)
                  (submit_my_bio-Sent i i
                    (record (blkdev_get i t) { page = some i; pages = t.pages + 1 })))
        ]
      ]

  -- However the kernel answers, `my_init` ends in one of four ways. It reports success, with every
  -- disk open as often as before and four more pages held. It reports that disk `n` does not open,
  -- or that there is no page for disk `n`, with every disk open as often as before and `n` more
  -- pages held. Or it does not return, since the second `kmap` for disk `n` has failed.
  pub my_init-Ended : (t : Trial) → Ended 4 0 t (my_init k a t)
  unfolding my_init
  my_init-Ended t = init_from-Ended 4 0 t
