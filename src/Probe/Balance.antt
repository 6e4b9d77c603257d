-- ===== src/Probe/Balance.antt =====
-- What binding and unbinding the driver leave behind.
use praid.Common.{
  ℕ, ◌+◌, ◌*◌, ◌%◌, ◌^◌, leb, refl, sym, subst, ◌∙◌, ◌<◌, ◌≡◌, ◌≢◌, inl, inr, arith, true, false,
  some, Bool-cases,
}
use praid.Geometry.{chunk_size, bar_chunk_offset}
use praid.Probe.{Bound, PciAnswers, ok, pcievdrv_probe, pcievdrv_remove}
use praid.Probe.Stages.{
  IsUnbound, found, with_regions, with_bar, with_chunks, with_irq, pcievdrv_probe-found,
  take_regions-granted, map_bar-mapped, map_chunks-mapped, take_irq-taken, take_regions-IsUnbound,
}

-- The driver is bound, with the BAR and the three chunks mapped and one permit in the semaphore.
pub record IsBound (k : PciAnswers) (b : Bound) : Type 0 where
  pub enabled : b.enabled ≡ true
  pub regions : b.regions ≡ true
  pub bar : b.bar ≡ some (record { start = k.resource_start; length = 4096 })
  pub chunk_addr :
      b.chunk_addr
      ≡ some (record {
        start = (k.resource_start + bar_chunk_offset) % 2 ^ 64;
        length = 3 * chunk_size;
      })
  pub permit : b.sem ≡ 1
  pub workqueue : b.workqueue ≡ true
  pub irq : b.irq ≡ k.irq
  pub irq_taken : b.irq_taken ≡ true
  pub drvdata : b.drvdata ≡ true

-- Every answer of the kernel is a success.
pub record IsWilling (k : PciAnswers) : Type 0 where
  pub enable_device : k.enable_device ≡ true
  pub irq : k.irq < 2 ^ 31
  pub request_regions : k.request_regions ≡ true
  pub maps_bar : k.memremap k.resource_start 4096 ≡ true
  pub maps_chunks :
      k.memremap ((k.resource_start + bar_chunk_offset) % 2 ^ 64) (3 * chunk_size) ≡ true
  pub request_irq : k.request_irq ≡ 0

module _ (k : PciAnswers) (b : Bound) where
  -- When every answer of the kernel is a success, `pcievdrv_probe` returns 0, and the driver is
  -- bound: the device is enabled, its regions are taken, the BAR and, 1 MiB behind it, the three
  -- chunks are mapped, the semaphore has one permit, and the interrupt of the device is taken; and
  -- `pcievdrv_remove` then gives all of it back and disables the device.
  pub pcievdrv_probe-IsBound :
      IsWilling k
      → (b' : Bound) × (pcievdrv_probe k b ≡ (ok, b'))
        × IsBound k b'
        × IsUnbound false (pcievdrv_remove b')
  unfolding pcievdrv_remove
  pcievdrv_probe-IsBound w = (
    with_irq (with_chunks (with_bar (with_regions (found k b)))),
    pcievdrv_probe-found k b w.enable_device (ground (arith, w.irq))
        ∙ take_regions-granted k (found k b) w.request_regions
        ∙ map_bar-mapped k (with_regions (found k b)) w.maps_bar
        ∙ map_chunks-mapped k (with_bar (with_regions (found k b))) w.maps_chunks
        ∙ take_irq-taken k (with_chunks (with_bar (with_regions (found k b)))) w.request_irq,
    record {
      enabled = refl;
      regions = refl;
      bar = refl;
      chunk_addr = refl;
      permit = refl;
      workqueue = refl;
      irq = refl;
      irq_taken = refl;
      drvdata = refl;
    },
    record {
      enabled = refl;
      regions = refl;
      bar = refl;
      workqueue = refl;
      chunk_addr = refl;
      irq_taken = refl;
    },
  )

  found-IsUnbound :
      IsUnbound false b
      → k.enable_device ≡ true
      → (pcievdrv_probe k b).0 ≢ ok
      → IsUnbound true (pcievdrv_probe k b).1
  unfolding pcievdrv_probe
  found-IsUnbound free on err = elim (Bool-cases (leb (2 ^ 31) k.irq)) [
    | inl bad ↦
        let stays : (pcievdrv_probe k b).1 ≡ record b { enabled = true; irq = k.irq } =
          ground (arith, on, bad) in
        subst (λ x. IsUnbound true x) (sym stays) (kept free)
    | inr good ↦
        let e = pcievdrv_probe-found k b on good in
        subst (λ x. IsUnbound true x.1) (sym e)
          (take_regions-IsUnbound k (found k b) (kept free) (rw e at err))
  ]
    where
      kept :
          {irq mem_sta range : ℕ}
          → IsUnbound false b
          → IsUnbound true
              (record b { enabled = true; irq = irq; mem_sta = mem_sta; range = range })
      kept free = record {
        enabled = refl;
        regions = free.regions;
        bar = free.bar;
        workqueue = free.workqueue;
        chunk_addr = free.chunk_addr;
        irq_taken = free.irq_taken;
      }

  -- When the driver holds nothing of the device before, an error of `pcievdrv_probe` leaves it with
  -- nothing either, except that the device stays enabled when it could be enabled.
  pub pcievdrv_probe-IsUnbound :
      IsUnbound false b
      → (pcievdrv_probe k b).0 ≢ ok
      → IsUnbound k.enable_device (pcievdrv_probe k b).1
  unfolding pcievdrv_probe
  pcievdrv_probe-IsUnbound free err = elim (Bool-cases k.enable_device) [
    | inr off ↦
        let stays : (pcievdrv_probe k b).1 ≡ b = ground (arith, off) in
        subst (λ x. IsUnbound x (pcievdrv_probe k b).1) (sym off)
          (subst (λ x. IsUnbound false x) (sym stays) free)
    | inl on ↦
        subst (λ x. IsUnbound x (pcievdrv_probe k b).1) (sym on) (found-IsUnbound free on err)
  ]
