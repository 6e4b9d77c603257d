-- ===== src/System/Areas.antt =====
-- The areas of the BAR that a worker fills, over the bytes and registers of the device.
use praid.Common.{ℕ, zero, suc, ◌+◌, ◌≤◌, ◌<◌, ◌≡◌, refl, ◌∙◌, arith}
use praid.Pciedrv.Completion.{VerifyWorkParam}
use praid.Device.Dispatcher.{PcievDev, begin_job}
use praid.Work.{memcpy-inside, memcpy-below}
use praid.System.{fill_area, count_job}

-- Area `a` of the BAR holds what the task has for it.
abbrev pub Holds : ℕ → VerifyWorkParam → PcievDev → Type 0
Holds zero p d = (x : ℕ) → x < p.size → d.storage_mapped (p.offset + x) ≡ p.page_old (p.offset + x)
Holds (suc zero) p d =
    (x : ℕ) → x < p.size → d.storage_mapped (4096 + (p.offset + x)) ≡ p.page_new (p.offset + x)
Holds (suc (suc zero)) p d = d.bar.offset ≡ p.offset
Holds (suc (suc (suc zero))) p d = d.bar.size ≡ p.size
Holds (suc (suc (suc (suc zero)))) p d = d.bar.sector_sta ≡ p.num_sector
Holds (suc (suc (suc (suc (suc a))))) p d = Unit

module _ (p : VerifyWorkParam) (d : PcievDev) (fits : p.offset + p.size ≤ 4096) where
  pub fill_area-Holds : (a : ℕ) → Holds a p (fill_area a p d)
  unfolding fill_area
  fill_area-Holds zero = λ x h.
      let start : 0 + p.offset ≡ p.offset = omega arith in
      rw start (memcpy-inside d.storage_mapped p.page_old p.offset p.offset p.size x h)
  fill_area-Holds (suc zero) = λ x h.
      let place : 4096 + (p.offset + x) ≡ 4096 + p.offset + x = omega arith in
      rw place (memcpy-inside d.storage_mapped p.page_new (4096 + p.offset) p.offset p.size x h)
  fill_area-Holds (suc (suc zero)) = refl
  fill_area-Holds (suc (suc (suc zero))) = refl
  fill_area-Holds (suc (suc (suc (suc zero)))) = refl
  fill_area-Holds (suc (suc (suc (suc (suc a))))) = tt

  -- A later area leaves an earlier one alone.
  pub fill_area-Holds_earlier :
      (a b : ℕ) → b < a → a < 5 → Holds b p d → Holds b p (fill_area a p d)
  unfolding fill_area
  fill_area-Holds_earlier zero b lt few h = absurd (omega arith)
  fill_area-Holds_earlier (suc zero) zero lt few h = λ x s.
      memcpy-below d.storage_mapped p.page_new (4096 + p.offset) p.offset p.size (p.offset + x)
        (omega (arith, fits))
      ∙ h x s
  fill_area-Holds_earlier (suc zero) (suc b) lt few h = absurd (omega arith)
  fill_area-Holds_earlier (suc (suc zero)) zero lt few h = h
  fill_area-Holds_earlier (suc (suc zero)) (suc zero) lt few h = h
  fill_area-Holds_earlier (suc (suc zero)) (suc (suc b)) lt few h = absurd (omega arith)
  fill_area-Holds_earlier (suc (suc (suc zero))) zero lt few h = h
  fill_area-Holds_earlier (suc (suc (suc zero))) (suc zero) lt few h = h
  fill_area-Holds_earlier (suc (suc (suc zero))) (suc (suc zero)) lt few h = h
  fill_area-Holds_earlier (suc (suc (suc zero))) (suc (suc (suc b))) lt few h = absurd (omega arith)
  fill_area-Holds_earlier (suc (suc (suc (suc zero)))) zero lt few h = h
  fill_area-Holds_earlier (suc (suc (suc (suc zero)))) (suc zero) lt few h = h
  fill_area-Holds_earlier (suc (suc (suc (suc zero)))) (suc (suc zero)) lt few h = h
  fill_area-Holds_earlier (suc (suc (suc (suc zero)))) (suc (suc (suc zero))) lt few h = h
  fill_area-Holds_earlier (suc (suc (suc (suc zero)))) (suc (suc (suc (suc b)))) lt few h =
      absurd (omega arith)
  fill_area-Holds_earlier (suc (suc (suc (suc (suc a))))) b lt few h = absurd (omega arith)

-- The same for all five areas.
abbrev pub HoldsAll : VerifyWorkParam → PcievDev → Type 0
HoldsAll p d = (a : ℕ) → a < 5 → Holds a p d

-- The areas do not depend on the counters.
pub Holds-counters :
    (a : ℕ) (p : VerifyWorkParam) (d : PcievDev)
    → Holds a p d
    → Holds a p (count_job d) × Holds a p (begin_job d)
unfolding count_job begin_job
Holds-counters zero p d h = (h, h)
Holds-counters (suc zero) p d h = (h, h)
Holds-counters (suc (suc zero)) p d h = (h, h)
Holds-counters (suc (suc (suc zero))) p d h = (h, h)
Holds-counters (suc (suc (suc (suc zero)))) p d h = (h, h)
Holds-counters (suc (suc (suc (suc (suc a))))) p d h = (h, h)
