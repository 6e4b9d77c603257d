-- ===== src/Device/Dispatcher/Outcome.antt =====
-- What a job leaves alone, however its transfers come out.
use praid.Common.{◌+◌, ◌≡◌, ◌⊎◌, inl, inr, refl, subst, arith, ◌/◌, some, Option-cases}
use praid.Bio.{read, write}
use praid.Device.Xor.{xor_loop, res}
use praid.Device.Request.{Services, Ret, pciev_submit_bio}
use praid.Device.Dispatcher.{
  PcievDev, after, finish_write, write_parity, compute_parity, finish_job,
}

-- The registers stay, and at most one interrupt is raised.
pub record Keeps (d d' : PcievDev) : Type 0 where
  pub bar : d'.bar ≡ d.bar
  pub irqs : (d'.irqs ≡ d.irqs + 1) ⊎ (d'.irqs ≡ d.irqs)

finish_write-Keeps : (d : PcievDev) (ret : Ret) → Keeps d (finish_write d ret)
unfolding finish_write
finish_write-Keeps d Ret.ok = record { bar = ground arith; irqs = inl (ground arith) }
finish_write-Keeps d Ret.einval = record { bar = refl; irqs = inr refl }
finish_write-Keeps d Ret.eio = record { bar = refl; irqs = inr refl }

write_parity-Keeps : (w : Services) (d : PcievDev) → Keeps d (write_parity w d)
unfolding write_parity
write_parity-Keeps w d =
    let r =
      pciev_submit_bio w res d.bar.offset d.bar.size d.bar.sector_sta write d.storage_mapped
        d.verify_blk in
    let k = finish_write-Keeps (after d r) r.ret in record { bar = k.bar; irqs = k.irqs }

compute_parity-Keeps :
    (w : Services) (d : PcievDev) (ret : Ret) {d' : PcievDev}
    → compute_parity w d ret ≡ some d'
    → Keeps d d'
unfolding compute_parity
compute_parity-Keeps w d Ret.ok {d'} e =
    elim (Option-cases (xor_loop (d.bar.size / 8 + 2) d.bar.offset d.bar.size 0 d.storage_mapped)) [
      | inl never ↦ absurd (cc (rw (never, compute_parity) at e))
      | inr (mem, ends) ↦
          let d'' : PcievDev = record d { storage_mapped = mem } in
          let same : write_parity w d'' ≡ d' = cc (rw (ends, compute_parity) at e) in
          let k = write_parity-Keeps w d'' in
          subst (Keeps d) same (record { bar = k.bar; irqs = k.irqs })
    ]
compute_parity-Keeps w d Ret.einval {d'} e =
    let same : d ≡ d' = cc e in subst (Keeps d) same (record { bar = refl; irqs = inr refl })
compute_parity-Keeps w d Ret.eio {d'} e =
    let same : d ≡ d' = cc e in subst (Keeps d) same (record { bar = refl; irqs = inr refl })

pub finish_job-Keeps :
    (r w : Services) (d : PcievDev) {d' : PcievDev} → finish_job r w d ≡ some d' → Keeps d d'
unfolding finish_job
finish_job-Keeps r w d e =
    let got =
      pciev_submit_bio r res d.bar.offset d.bar.size d.bar.sector_sta read d.storage_mapped
        d.verify_blk in
    let k = compute_parity-Keeps w (after d got) got.ret e in record { bar = k.bar; irqs = k.irqs }
