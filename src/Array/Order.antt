-- ===== src/Array/Order.antt =====
-- The order in which the jobs are done does not matter to the verify disk.
use praid.Common.{
  ℕ, ◌+◌, ◌-◌, ◌*◌, ◌<◌, ◌≡◌, refl, sym, ap, ◌∙◌, arith, Bool-cases, inl, inr, List, [], ◌∷◌, leb,
  ltb, ◌&&◌, if◌then◌else◌,
}
use praid.Pciedrv.Completion.{VerifyWorkParam}
use praid.Device.Word.{Memory}
use praid.Parity.{IsParity, write_disk, replace, xor_all-ext, xor_all-replace, xor_swap}
use praid.System.Pays.{pays, pays_all}
use praid.Array.{disks_after, IsInOrder}
use Prim.Native.Nat.{bit_xor}
use praid.Common.Bits.{bit_xor_assoc, bit_xor-zero}
use mathlib.Core.Logic.{∥∥₁_elim}
use mathlib.Core.List.{Perm, Permᴰ}
use native.Mathlib.Nat.{ℕ_set}

-- What a task XORs into byte `a`.
abbrev delta : VerifyWorkParam → ℕ → ℕ
delta p a =
    let i = p.offset + (a - p.num_sector * 512) in
    if leb (p.num_sector * 512) a && ltb a (p.num_sector * 512 + p.size)
    then bit_xor (p.page_old i) (p.page_new i)
    else 0

pays-delta : (p : VerifyWorkParam) (m : Memory) (a : ℕ) → pays p m a ≡ bit_xor (m a) (delta p a)
pays-delta p m a =
    let i : ℕ = p.offset + (a - p.num_sector * 512) in
    ground (arith, bit_xor_assoc (m a) (p.page_old i) (p.page_new i), bit_xor-zero (m a))

pays-pays : (p q : VerifyWorkParam) (m : Memory) (a : ℕ) → pays p (pays q m) a ≡ pays q (pays p m) a
pays-pays p q m a =
    pays-delta p (pays q m) a
    ∙ ap (λ (x : ℕ). bit_xor x (delta p a)) (pays-delta q m a)
    ∙ xor_swap (m a) (delta q a) (delta p a)
    ∙ sym (pays-delta q (pays p m) a ∙ ap (λ (x : ℕ). bit_xor x (delta q a)) (pays-delta p m a))

pays-same : (p : VerifyWorkParam) (m m' : Memory) (a : ℕ) → m a ≡ m' a → pays p m a ≡ pays p m' a
pays-same p m m' a e = ground (arith, e)

module _ (tasks : ℕ → VerifyWorkParam) (m : Memory) (a : ℕ) where
  pays_all-Permᴰ : {is js : List ℕ} → Permᴰ is js → pays_all tasks is m a ≡ pays_all tasks js m a
  pays_all-Permᴰ Permᴰ.nil = refl
  pays_all-Permᴰ (Permᴰ.cons {a = i} {l₁ = is} {l₂ = js} e d) =
      pays-same (tasks i) (pays_all tasks is m) (pays_all tasks js m) a (pays_all-Permᴰ d)
      ∙ ap (λ (k : ℕ). pays (tasks k) (pays_all tasks js m) a) e
  pays_all-Permᴰ (Permᴰ.swap {a = i} {b = j} {a' = j'} {l = is} e e') =
      pays-pays (tasks i) (tasks j) (pays_all tasks is m) a
      ∙ ap (λ (k : ℕ). pays (tasks k) (pays (tasks i) (pays_all tasks is m)) a) e'
      ∙ ap (λ (k : ℕ). pays (tasks j') (pays (tasks k) (pays_all tasks is m)) a) e
  pays_all-Permᴰ (Permᴰ.trans d d') = pays_all-Permᴰ d ∙ pays_all-Permᴰ d'

  -- Jobs that are done in another order leave the same verify disk.
  pub pays_all-Perm : {is js : List ℕ} → Perm is js → pays_all tasks is m a ≡ pays_all tasks js m a
  pays_all-Perm p = ∥∥₁_elim p (ℕ_set _ _) pays_all-Permᴰ

module _ (n dev : ℕ) (disks : ℕ → Memory) (m : Memory) (p : VerifyWorkParam) (h : dev < n)
    (kept : IsParity n disks m)
    (old : (x : ℕ)
      → x < p.size
      → p.page_old (p.offset + x) ≡ disks dev (p.num_sector * 512 + x)) where
  pub pays-IsParity :
      IsParity n (write_disk disks dev (p.num_sector * 512) p.page_new p.offset p.size) (pays p m)
  pays-IsParity a =
      elim (Bool-cases (leb (p.num_sector * 512) a && ltb a (p.num_sector * 512 + p.size))) [
        | inl inside ↦
            let x : ℕ = a - p.num_sector * 512 in
            let v : ℕ = p.page_new (p.offset + x) in
            let lt : x < p.size = ground (arith, inside) in
            let at_x : p.num_sector * 512 + x ≡ a = ground (arith, inside) in
            let had : p.page_old (p.offset + x) ≡ disks dev a = rw at_x at (old x lt) in
            ground (
              arith,
              inside,
              kept a,
              had,
              xor_all-replace n dev v (λ j. disks j a) h,
              xor_all-ext n (replace (λ j. disks j a) dev v)
                  (λ j. write_disk disks dev (p.num_sector * 512) p.page_new p.offset p.size j a)
                  (λ j _. ground (arith, inside)),
            )
        | inr outside ↦ ground (
          arith,
          outside,
          kept a,
          xor_all-ext n (λ j. disks j a)
              (λ j. write_disk disks dev (p.num_sector * 512) p.page_new p.offset p.size j a)
              (λ j _. ground (arith, outside)),
        )
      ]

-- Jobs that are done in the order of the writes keep the verify disk the parity of the disks.
pub pays_all-IsParity :
    (n : ℕ) (tasks : ℕ → VerifyWorkParam) (dev : ℕ → ℕ) (disks : ℕ → Memory) (m : Memory)
    → IsParity n disks m
    → (is : List ℕ) → IsInOrder tasks dev disks n is
    → IsParity n (disks_after tasks dev disks is) (pays_all tasks is m)
pays_all-IsParity n tasks dev disks m kept [] h = kept
pays_all-IsParity n tasks dev disks m kept (i ∷ is) (lt, old, before) =
    pays-IsParity n (dev i) (disks_after tasks dev disks is) (pays_all tasks is m) (tasks i) lt
      (pays_all-IsParity n tasks dev disks m kept is before) old
