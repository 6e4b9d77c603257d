-- ===== src/Block/Loop.antt =====
-- A rule for the loop of `vpciedisk_submit_bio`, and its fuel.
use praid.Common.{ℕ, zero, suc, ◌+◌, ◌-◌, ◌≤◌, ◌<◌, ◌≡◌, ◌≢◌, arith, leb, Bool-cases}
use praid.Common.{
  leb→le, leb-false→lt, Option, none, some, List, [], ◌∷◌, ◌++◌, Option-cases, inl, inr,
}
use praid.Geometry.{chunk_end_sector}
use praid.Geometry.Locate.{chunk_end_lem}
use praid.Bio.{Bio, Kernel, bio_end_sector, IsSplit}
use praid.Block.{Call, bio_submit, vpciedisk_submit_bio}

-- The first sector behind the chunk in which a bio starts.
abbrev pub chunk_limit : Bio → ℕ
chunk_limit bio = chunk_end_sector bio.bi_sector + 1

-- The number of sectors up to there, `cnt_sectors`.
abbrev pub cnt_sectors : Bio → ℕ
cnt_sectors bio = chunk_end_sector bio.bi_sector - bio.bi_sector + 1

cnt_sectors_lem :
    (bio : Bio)
    → chunk_limit bio < bio_end_sector bio
    → (cnt_sectors bio < bio.sectors) × (bio.bi_sector + cnt_sectors bio ≡ chunk_limit bio)
cnt_sectors_lem bio h = omega (arith, chunk_end_lem bio.bi_sector)

module _ (k : Kernel) (n : ℕ) where
  -- The rule for the loop: what holds of its last round, of its failure, and of a round before a
  -- run for which it holds, holds of every run that does not use up the fuel.
  module _ {ℓ} (P : Bio → List Call → Type ℓ)
      (last : (bio : Bio) (calls : ℕ)
        → bio_end_sector bio ≤ chunk_limit bio
        → P bio (bio_submit k n none bio bio.bi_sector calls).0)
      (failed : (bio : Bio) → P bio (Call.bio_io_error bio ∷ []))
      (more : (bio child rest : Bio) (calls : ℕ) (later : List Call)
        → bio.bi_sector + cnt_sectors bio ≡ chunk_limit bio
        → IsSplit bio (cnt_sectors bio) child rest
        → P rest later
        → P bio ((bio_submit k n (some rest) child bio.bi_sector calls).0 ++ later)) where
    Holds : Bio → Option (List Call × ℕ) → Type ℓ
    Holds bio none = Unit
    Holds bio (some (made, _)) = P bio made

    Holds-more :
        (bio child rest : Bio) (calls : ℕ) (later : Option (List Call × ℕ))
        → bio.bi_sector + cnt_sectors bio ≡ chunk_limit bio
        → IsSplit bio (cnt_sectors bio) child rest
        → Holds rest later
        → Holds bio (elim later [
          | none ↦ none
          | some (then', calls'') ↦
              some ((bio_submit k n (some rest) child bio.bi_sector calls).0 ++ then', calls'')
        ])
    unfolding Holds
    Holds-more bio child rest calls none e split h = tt
    Holds-more bio child rest calls (some (then', c)) e split h =
        more bio child rest calls then' e split h

    loop_rule :
        (fuel : ℕ) (bio : Bio) (calls : ℕ) → Holds bio (vpciedisk_submit_bio k n fuel bio calls)
    unfolding vpciedisk_submit_bio Holds
    loop_rule zero bio calls = tt
    loop_rule (suc fuel) bio calls =
        elim (Bool-cases (leb (bio_end_sector bio) (chunk_limit bio))) [
          | inl ends ↦ rw (ends, vpciedisk_submit_bio) (last bio calls (leb→le _ _ ends))
          | inr goes ↦
              let (shorter, meets) = cnt_sectors_lem bio (leb-false→lt _ _ goes) in
              rw (goes, vpciedisk_submit_bio)
                (elim (Option-cases (k.bio_split bio (cnt_sectors bio))) [
                  | inl e ↦ rw (e, vpciedisk_submit_bio) (failed bio)
                  | inr ((child, rest), e) ↦
                      rw (e, vpciedisk_submit_bio)
                        (Holds-more bio child rest calls _ meets (k.bio_split_lem bio _ shorter e)
                          (loop_rule fuel rest _))
                ])
        ]

    pub made_rule :
        (fuel : ℕ) (bio : Bio) (calls : ℕ) {made : List Call} {calls' : ℕ}
        → vpciedisk_submit_bio k n fuel bio calls ≡ some (made, calls')
        → P bio made
    unfolding Holds
    made_rule fuel bio calls e = rw e at (loop_rule fuel bio calls)

  ne-none :
      (fuel : ℕ) (bio : Bio) (calls : ℕ)
      → bio.sectors < fuel
      → vpciedisk_submit_bio k n fuel bio calls ≢ none
  unfolding vpciedisk_submit_bio
  ne-none zero bio calls h = absurd (omega arith)
  ne-none (suc fuel) bio calls h = elim (Bool-cases (leb (bio_end_sector bio) (chunk_limit bio))) [
    | inl ends ↦ rw (ends, vpciedisk_submit_bio) (λ q. cc)
    | inr goes ↦
        let (shorter, meets) = cnt_sectors_lem bio (leb-false→lt _ _ goes) in
        elim (Option-cases (k.bio_split bio (cnt_sectors bio))) [
          | inl e ↦ rw (goes, e, vpciedisk_submit_bio) (λ q. cc)
          | inr ((child, rest), e) ↦
              let split = k.bio_split_lem bio _ shorter e in
              let calls' : ℕ = (bio_submit k n (some rest) child bio.bi_sector calls).1 in
              let later = ne-none fuel rest calls' (omega (arith, split.rest_sectors)) in
              elim (Option-cases (vpciedisk_submit_bio k n fuel rest calls')) [
                | inl none' ↦ absurd (later none')
                | inr (r, some') ↦ rw (goes, e, some', vpciedisk_submit_bio) (λ q. cc)
              ]
        ]
  ]

  -- With more fuel than the bio has sectors the loop ends with a list of calls, whatever the kernel
  -- answers.
  pub vpciedisk_submit_bio-ends :
      (fuel : ℕ) (bio : Bio) (calls : ℕ)
      → bio.sectors < fuel
      → (made : List Call) × (calls' : ℕ) × (vpciedisk_submit_bio k n fuel bio calls
          ≡ some (made, calls'))
  vpciedisk_submit_bio-ends fuel bio calls h =
      elim (Option-cases (vpciedisk_submit_bio k n fuel bio calls)) [
        | inl e ↦ absurd (ne-none fuel bio calls h e)
        | inr ((made, calls'), e) ↦ (made, calls', e)
      ]
