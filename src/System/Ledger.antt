-- ===== src/System/Ledger.antt =====
-- Lists of workers whose jobs have ended.
use praid.Common.{ℕ, ◌≡◌, ◌≢◌, ◌⊎◌, inl, inr, Bool-cases, arith, ◌==◌, List, [], ◌∷◌}
use praid.Protocol.{Pc, finished, at_key}

pub at_key-cases :
    (f : ℕ → Pc) (i j : ℕ) (v x : Pc)
    → at_key f i v j ≡ x
    → ((i ≡ j) × (v ≡ x)) ⊎ ((i ≢ j) × (f j ≡ x))
at_key-cases f i j v x e = elim (Bool-cases (i == j)) [
  | inl same ↦ inl (ground (arith, same), rw same at e)
  | inr other ↦ inr (λ q. ground (arith, other, q), rw other at e)
]

-- No worker of the list is `i`; each worker of the list is at its end.
abbrev pub NotIn : ℕ → List ℕ → Type 0
NotIn i [] = Unit
NotIn i (j ∷ js) = (i ≢ j) × NotIn i js

abbrev pub AllFinished : (ℕ → Pc) → List ℕ → Type 0
AllFinished f [] = Unit
AllFinished f (i ∷ is) = (f i ≡ finished) × AllFinished f is

abbrev pub Distinct : List ℕ → Type 0
Distinct [] = Unit
Distinct (i ∷ is) = NotIn i is × Distinct is

module _ (f : ℕ → Pc) (i : ℕ) (unfinished : f i ≢ finished) where
  pub at_key-finished : (j : ℕ) (v : Pc) → f j ≡ finished → at_key f i v j ≡ finished
  at_key-finished j v e = elim (Bool-cases (i == j)) [
    | inl same ↦ let same' : i ≡ j = ground (arith, same) in absurd (unfinished (rw same' e))
    | inr other ↦ rw other e
  ]

  pub AllFinished-at_key : (is : List ℕ) (v : Pc) → AllFinished f is → AllFinished (at_key f i v) is
  AllFinished-at_key [] v h = tt
  AllFinished-at_key (j ∷ is) v (e, h) = (at_key-finished j v e, AllFinished-at_key is v h)

  pub NotIn-AllFinished : (is : List ℕ) → AllFinished f is → NotIn i is
  NotIn-AllFinished [] h = tt
  NotIn-AllFinished (j ∷ is) (e, h) = (λ same. unfinished (rw same e), NotIn-AllFinished is h)
