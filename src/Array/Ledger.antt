-- ===== src/Array/Ledger.antt =====
-- When the jobs that have ended are those of a given list of writes.
use praid.Common.{ℕ, suc, ◌≡◌, refl, sym, ap, ◌∙◌, arith, List, [], ◌∷◌, length}
use praid.Protocol.{Pc, finished}
use praid.System.Ledger.{NotIn, AllFinished, Distinct}
use mathlib.Core.Logic.Or
use mathlib.Core.Logic.{∥∥₁_elim}
use mathlib.Core.List.{Mem, Perm, Permᴰ, mem-cons, exists_perm_cons_of_mem, Perm-prop, Mem-prop}
use mathlib.Core.List.Perm

-- Each entry of the first list is one of the second.
abbrev pub AllIn : List ℕ → List ℕ → Type 0
AllIn [] js = Unit
AllIn (i ∷ is) js = Mem i js × AllIn is js

length-Permᴰ : {is js : List ℕ} → Permᴰ is js → length is ≡ length js
length-Permᴰ Permᴰ.nil = refl
length-Permᴰ (Permᴰ.cons e d) = ap suc (length-Permᴰ d)
length-Permᴰ (Permᴰ.swap e e') = refl
length-Permᴰ (Permᴰ.trans d d') = length-Permᴰ d ∙ length-Permᴰ d'

-- An entry that is not `i` stays when `i` is taken out.
AllIn-rest :
    (i : ℕ) (is js rest : List ℕ) → Perm js (i ∷ rest) → NotIn i is → AllIn is js → AllIn is rest
AllIn-rest i [] js rest p new h = tt
AllIn-rest i (k ∷ is) js rest p (ne, new) (m, h) = (
  Or.elim Mem-prop (mem-cons.0 ((Perm.mem_iff p).0 m)) (λ e. absurd (ne (sym e))) (λ m'. m'),
  AllIn-rest i is js rest p new h,
)

-- A list without repetition inside one that is no longer is a rearrangement of it.
pub Distinct-Perm :
    (is js : List ℕ) → Distinct is → AllIn is js → length is ≡ length js → Perm is js
Distinct-Perm [] [] new h long = Perm.nil
Distinct-Perm [] (j ∷ js) new h long = absurd (omega (arith, long))
Distinct-Perm (i ∷ is) js (new, distinct) (m, h) long =
    ∥∥₁_elim (exists_perm_cons_of_mem m) Perm-prop (λ (rest, d).
      let p : Perm js (i ∷ rest) = ∣ d ∣₁ in
      let long' : length is ≡ length rest = omega (arith, long, length-Permᴰ d) in
      Perm.trans
        (Perm.cons i (Distinct-Perm is rest distinct (AllIn-rest i is js rest p new h) long'))
        (Perm.symm p))

pub AllFinished-AllIn :
    (pc : ℕ → Pc) (is js : List ℕ)
    → ((i : ℕ) → pc i ≡ finished → Mem i js)
    → AllFinished pc is
    → AllIn is js
AllFinished-AllIn pc [] js only h = tt
AllFinished-AllIn pc (i ∷ is) js only (e, h) = (only i e, AllFinished-AllIn pc is js only h)
