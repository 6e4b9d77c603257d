-- ===== src/Probe/Stages.antt =====
-- The stages of `pcievdrv_probe`, one by one: what each leaves behind when it succeeds or fails.
use praid.Common.{
  ◌+◌, ◌-◌, ◌*◌, ◌%◌, ◌^◌, leb, ◌==◌, refl, ◌≡◌, ◌≢◌, inl, inr, arith, Bool, true, false, none,
  some, Bool-cases,
}
use praid.Geometry.{chunk_size, bar_chunk_offset}
use praid.Probe.{
  Bound, PciAnswers, ok, memremap, take_irq, map_chunks, map_bar, take_regions, out_regions,
  out_memunmap_bar, out_memunmap_sto, pcievdrv_probe,
}

-- The driver holds nothing of the device, but may have left it enabled.
pub record IsUnbound (left_on : Bool) (b : Bound) : Type 0 where
  pub enabled : b.enabled ≡ left_on
  pub regions : b.regions ≡ false
  pub bar : b.bar ≡ none
  pub workqueue : b.workqueue ≡ false
  pub chunk_addr : b.chunk_addr ≡ none
  pub irq_taken : b.irq_taken ≡ false

-- The state behind each stage that succeeds.
abbrev pub found : PciAnswers → Bound → Bound
found k b = record b {
  enabled = true;
  irq = k.irq;
  mem_sta = k.resource_start;
  range = (k.resource_end + 2 ^ 64 - k.resource_start + 1) % 2 ^ 64;
}

abbrev pub with_regions : Bound → Bound
with_regions b = record b { regions = true }

abbrev pub with_bar : Bound → Bound
with_bar b = record b { bar = some (record { start = b.mem_sta; length = 4096 }) }

abbrev pub with_chunks : Bound → Bound
with_chunks b = record b {
  sem = 1;
  workqueue = true;
  chunk_addr =
      some (record { start = (b.mem_sta + bar_chunk_offset) % 2 ^ 64; length = 3 * chunk_size });
}

abbrev pub with_irq : Bound → Bound
with_irq b = record b { irq_taken = true; drvdata = true }

module _ (k : PciAnswers) (b : Bound) where
  pub pcievdrv_probe-found :
      k.enable_device ≡ true
      → leb (2 ^ 31) k.irq ≡ false
      → pcievdrv_probe k b ≡ take_regions k (found k b)
  unfolding pcievdrv_probe
  pcievdrv_probe-found on plus = ground (arith, on, plus)

  pub take_regions-granted :
      k.request_regions ≡ true → take_regions k b ≡ map_bar k (with_regions b)
  unfolding take_regions
  take_regions-granted granted = ground (arith, granted)

  pub map_bar-mapped : k.memremap b.mem_sta 4096 ≡ true → map_bar k b ≡ map_chunks k (with_bar b)
  unfolding map_bar memremap
  map_bar-mapped maps = rw (maps, map_bar) refl

  pub map_chunks-mapped :
      k.memremap ((b.mem_sta + bar_chunk_offset) % 2 ^ 64) (3 * chunk_size) ≡ true
      → map_chunks k b ≡ take_irq k (with_chunks b)
  unfolding map_chunks memremap
  map_chunks-mapped maps = rw (maps, map_chunks) refl

  pub take_irq-taken : k.request_irq ≡ 0 → take_irq k b ≡ (ok, with_irq b)
  unfolding take_irq
  take_irq-taken no_error = ground (arith, no_error)

  take_irq-IsUnbound :
      b.irq_taken ≡ false → (take_irq k b).0 ≢ ok → IsUnbound b.enabled (take_irq k b).1
  unfolding take_irq out_memunmap_sto out_memunmap_bar out_regions
  take_irq-IsUnbound no_irq err = elim (Bool-cases (k.request_irq == 0)) [
    | inl taken ↦ absurd (err (rw (taken, take_irq) refl))
    | inr refused ↦
        rw (refused, take_irq)
          (record {
            enabled = refl;
            regions = refl;
            bar = refl;
            workqueue = refl;
            chunk_addr = refl;
            irq_taken = no_irq;
          })
  ]

module _ (k : PciAnswers) (b : Bound) where
  map_chunks-IsUnbound :
      b.irq_taken ≡ false → (map_chunks k b).0 ≢ ok → IsUnbound b.enabled (map_chunks k b).1
  unfolding map_chunks memremap out_memunmap_bar out_regions
  map_chunks-IsUnbound no_irq err =
      elim (Bool-cases (k.memremap ((b.mem_sta + bar_chunk_offset) % 2 ^ 64) (3 * chunk_size))) [
        | inl maps ↦
            let e = map_chunks-mapped k b maps in
            rw e (take_irq-IsUnbound k (with_chunks b) no_irq (rw e at err))
        | inr refused ↦
            rw (refused, map_chunks)
              (record {
                enabled = refl;
                regions = refl;
                bar = refl;
                workqueue = refl;
                chunk_addr = refl;
                irq_taken = no_irq;
              })
      ]

module _ (k : PciAnswers) (b : Bound) where
  map_bar-IsUnbound :
      IsUnbound b.enabled (record b { regions = false })
      → (map_bar k b).0 ≢ ok
      → IsUnbound b.enabled (map_bar k b).1
  unfolding map_bar memremap out_regions
  map_bar-IsUnbound free err = elim (Bool-cases (k.memremap b.mem_sta 4096)) [
    | inl maps ↦
        let e = map_bar-mapped k b maps in
        rw e (map_chunks-IsUnbound k (with_bar b) free.irq_taken (rw e at err))
    | inr refused ↦
        rw (refused, map_bar)
          (record {
            enabled = refl;
            regions = refl;
            bar = refl;
            workqueue = free.workqueue;
            chunk_addr = free.chunk_addr;
            irq_taken = free.irq_taken;
          })
  ]

module _ (k : PciAnswers) (b : Bound) where
  pub take_regions-IsUnbound :
      IsUnbound b.enabled b → (take_regions k b).0 ≢ ok → IsUnbound b.enabled (take_regions k b).1
  unfolding take_regions
  take_regions-IsUnbound free err = elim (Bool-cases k.request_regions) [
    | inl granted ↦
        let e = take_regions-granted k b granted in
        let free' : IsUnbound b.enabled (record b { regions = false }) = record {
          enabled = refl;
          regions = refl;
          bar = free.bar;
          workqueue = free.workqueue;
          chunk_addr = free.chunk_addr;
          irq_taken = free.irq_taken;
        } in
        rw e (map_bar-IsUnbound k (with_regions b) free' (rw e at err))
    | inr refused ↦ let stays : (take_regions k b).1 ≡ b = ground (arith, refused) in rw stays free
  ]
