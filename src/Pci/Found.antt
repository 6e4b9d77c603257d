-- ===== src/Pci/Found.antt =====
-- What a host finds in the configuration space once it is set up: the base address and the lists
-- of capabilities, read as the PCI specification says.
use praid.Common.{
  ℕ, zero, suc, ◌+◌, ◌*◌, ◌%◌, ◌^◌, ◌<◌, ◌≡◌, refl, ◌∙◌, arith, Bool, Bool-cases, inl, inr, ap,
  true, false, ◌&&◌, ◌||◌, leb, ◌==◌, if◌then◌else◌, Option, none, some, List, [], ◌∷◌, ◌++◌,
}
use praid.Common.Digits.{bit_and-low_mask}
use praid.Device.Word.{Memory}
use praid.Pci.Field.{
  Field, get_field, set_field, get_field-set_field_self, get_field-set_field_other,
}
use praid.Pci.Settings.{
  assign, pci_settings, pci_header_settings, pci_pmcap_settings, pci_msixcap_settings,
  pci_pciecap_settings, pci_extcap_settings,
}

abbrev same : Field → Field → Bool
same f g = f.start == g.start && f.width == g.width

abbrev apart : Field → Field → Bool
apart f g = leb (g.start + g.width) f.start || leb (f.start + f.width) g.start

-- No assignment of the list touches a part of the field only.
abbrev pub clear : Field → List (Field × ℕ) → Bool
clear f [] = true
clear f ((g, v) ∷ rest) = (same f g || apart f g) && clear f rest

-- The value of a field behind the assignments, which held `d` before them.
abbrev pub result : Field → List (Field × ℕ) → ℕ → ℕ
result f [] d = d
result f ((g, v) ∷ rest) d = result f rest (if same f g then v % 2 ^ f.width else d)

get_field-set_field :
    (f g : Field) (v : ℕ) (m : Memory)
    → (same f g || apart f g) ≡ true
    → get_field f (set_field g v m) ≡ (if same f g then v % 2 ^ f.width else get_field f m)
get_field-set_field f g v m h = elim (Bool-cases (same f g)) [
  | inl alike ↦
      let one : g ≡ f = ground (arith, alike) in rw (alike, one) (get_field-set_field_self f v m)
  | inr other ↦ rw other (get_field-set_field_other f g v m (ground (arith, h, other)))
]

get_field-assign :
    (f : Field) (l : List (Field × ℕ)) (m : Memory)
    → clear f l ≡ true
    → get_field f (assign l m) ≡ result f l (get_field f m)
unfolding assign
get_field-assign f [] m h = refl
get_field-assign f ((g, v) ∷ rest) m h =
    let first : (same f g || apart f g) ≡ true = ground (arith, h) in
    let others : clear f rest ≡ true = ground (arith, h) in
    get_field-assign f rest (set_field g v m) others
    ∙ ap (result f rest) (get_field-set_field f g v m first)

abbrev pub all_settings : ℕ → List (Field × ℕ)
all_settings base_pa =
    pci_header_settings base_pa
    ++ (pci_pmcap_settings
        ++ (pci_msixcap_settings ++ (pci_pciecap_settings ++ pci_extcap_settings)))

assign-append : (l r : List (Field × ℕ)) (m : Memory) → assign (l ++ r) m ≡ assign r (assign l m)
unfolding assign
assign-append [] r m = refl
assign-append ((f, v) ∷ l) r m = assign-append l r (set_field f v m)

module _ (base_pa : ℕ) (m : Memory) where
  pub pci_settings-assign : pci_settings base_pa m ≡ assign (all_settings base_pa) m
  unfolding pci_settings assign
  pci_settings-assign = refl

  pub get_field-pci_settings :
      (f : Field)
      → clear f (all_settings base_pa) ≡ true
      → get_field f (pci_settings base_pa m) ≡ result f (all_settings base_pa) (get_field f m)
  get_field-pci_settings f h =
      rw pci_settings-assign (get_field-assign f (all_settings base_pa) m h)

-- A list of capabilities from `p` on, by the fields of a capability that hold its kind and the
-- place of the next one, with 0 at the end: the place and the kind of each.
unfoldable pub walk : (kind next : ℕ → Field) → ℕ → Memory → ℕ → Option (List (ℕ × ℕ))
walk kind next zero m p = none
walk kind next (suc fuel) m p = elim (p == 0) [
  | true ↦ some []
  | false ↦ elim (walk kind next fuel m (get_field (next p) m)) [
    | none ↦ none
    | some later ↦ some ((p, get_field (kind p) m) ∷ later)
  ]
]

walk_end : (kind next : ℕ → Field) (m : Memory) (fuel : ℕ) → walk kind next (suc fuel) m 0 ≡ some []
unfolding walk
walk_end kind next m fuel = refl

walk_step :
    (kind next : ℕ → Field) (m : Memory) (fuel p q c : ℕ) (l : List (ℕ × ℕ))
    → (p == 0) ≡ false
    → get_field (next p) m ≡ q
    → get_field (kind p) m ≡ c
    → walk kind next fuel m q ≡ some l
    → walk kind next (suc fuel) m p ≡ some ((p, c) ∷ l)
unfolding walk
walk_step kind next m fuel p q c l used to_next is_kind rest =
    rw (used, walk, to_next, rest, is_kind) refl

-- `w` digits from digit `b` of byte `a` on.
abbrev pub digits_at : ℕ → ℕ → ℕ → Field
digits_at a b w = record { start = a * 8 + b; width = w }

-- The list of the PCI specification, from the pointer at 0x34, and that of PCI Express, at 0x100.
abbrev pub capabilities : Memory → Option (List (ℕ × ℕ))
capabilities m =
    walk (λ p. digits_at p 0 8) (λ p. digits_at (p + 1) 0 8) 8 m (get_field (digits_at 0x34 0 8) m)

abbrev pub extended_capabilities : Memory → Option (List (ℕ × ℕ))
extended_capabilities m = walk (λ p. digits_at p 0 16) (λ p. digits_at p 20 12) 8 m 0x100

-- Whatever the page held before, a host finds power management, MSI-X and PCI Express in the first
-- list, and error reporting, virtual channels, power budgeting, alternative routing, the serial
-- number and the secondary link in the extended one, and both lists end.
pub capabilities-pci_settings :
    (base_pa : ℕ) (m : Memory)
    → (capabilities (pci_settings base_pa m)
        ≡ some ((0x40, 0x01) ∷ (0x50, 0x11) ∷ (0x60, 0x10) ∷ []))
      × (extended_capabilities (pci_settings base_pa m)
          ≡ some (
              (0x100, 0x01)
              ∷ (0x150, 0x02)
              ∷ (0x180, 0x04)
              ∷ (0x190, 0x0e)
              ∷ (0x270, 0x03)
              ∷ (0x2a0, 0x19)
              ∷ []))
capabilities-pci_settings base_pa m =
    let s = pci_settings base_pa m in
    let found = get_field-pci_settings base_pa m in
    let old = walk_step (λ p. digits_at p 0 8) (λ p. digits_at (p + 1) 0 8) s in
    let new = walk_step (λ p. digits_at p 0 16) (λ p. digits_at p 20 12) s in
    (
      rw (found (digits_at 0x34 0 8) refl) (
          old 7 0x40 0x50 0x01 _ refl (found (digits_at 0x41 0 8) refl)
            (found (digits_at 0x40 0 8) refl)
            (old 6 0x50 0x60 0x11 _ refl (found (digits_at 0x51 0 8) refl)
              (found (digits_at 0x50 0 8) refl)
              (old 5 0x60 0 0x10 _ refl (found (digits_at 0x61 0 8) refl)
                (found (digits_at 0x60 0 8) refl)
                (walk_end (λ p. digits_at p 0 8) (λ p. digits_at (p + 1) 0 8) s 4)))),
      new 7 0x100 0x150 0x01 _ refl (found (digits_at 0x100 20 12) refl)
          (found (digits_at 0x100 0 16) refl)
          (new 6 0x150 0x180 0x02 _ refl (found (digits_at 0x150 20 12) refl)
            (found (digits_at 0x150 0 16) refl)
            (new 5 0x180 0x190 0x04 _ refl (found (digits_at 0x180 20 12) refl)
              (found (digits_at 0x180 0 16) refl)
              (new 4 0x190 0x270 0x0e _ refl (found (digits_at 0x190 20 12) refl)
                (found (digits_at 0x190 0 16) refl)
                (new 3 0x270 0x2a0 0x03 _ refl (found (digits_at 0x270 20 12) refl)
                  (found (digits_at 0x270 0 16) refl)
                  (new 2 0x2a0 0 0x19 _ refl (found (digits_at 0x2a0 20 12) refl)
                    (found (digits_at 0x2a0 0 16) refl)
                    (walk_end (λ p. digits_at p 0 16) (λ p. digits_at p 20 12) s 1)))))),
    )

-- A base address of at most 64 digits that is a multiple of 16 KiB is what a host reads back from
-- the two registers, whatever the page held before.
pub base_address-pci_settings :
    (base_pa : ℕ) (m : Memory)
    → base_pa < 2 ^ 64
    → base_pa % 2 ^ 14 ≡ 0
    → get_field (digits_at 0x10 14 18) (pci_settings base_pa m) * 2 ^ 14
        + get_field (digits_at 0x14 0 32) (pci_settings base_pa m) * 2 ^ 32
      ≡ base_pa
base_address-pci_settings base_pa m h whole =
    let found = get_field-pci_settings base_pa m in
    omega (
      arith,
      h,
      whole,
      bit_and-low_mask 32 base_pa,
      found (digits_at 0x10 14 18) refl,
      found (digits_at 0x14 0 32) refl,
    )
