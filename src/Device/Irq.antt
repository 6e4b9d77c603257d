-- ===== src/Device/Irq.antt =====
-- pci.c: how an interrupt of the device reaches the processor, `pciev_signal_irq` with
-- `__process_msi_irq` and `__signal_irq`.
use praid.Common.{ℕ, ◌<◌, Bool, true, false, List, [], ◌∷◌, ◌==◌, if◌then◌else◌}
use praid.Device.Word.{Memory}
use praid.Device.Dispatcher.{PcievDev}
use praid.Pci.Field.{get_field}
use praid.Pci.Layout.{pcihdr}

-- What becomes of an interrupt: `irq_retrigger` of its chip, a failed `BUG_ON`, or nothing.
pub data Signal : Type 0 where
  retriggered : (irq : ℕ) → Signal
  bug : Signal
  lost : Signal

-- An entry of the device's list of MSI interrupts.
pub record MsiDesc : Type 0 where
  pub entry_nr : ℕ
  pub irq : ℕ

-- `can_retrigger` tells of each interrupt whether its chip has `irq_retrigger`.
module _ (can_retrigger : ℕ → Bool) where
  unfoldable pub signal_irq : ℕ → Signal
  signal_irq irq = if can_retrigger irq then Signal.retriggered irq else Signal.bug

  -- From version 5.17 on, over the kernel's `msi_get_virq`.
  unfoldable pub process_msi_virq : (ℕ → ℕ) → ℕ → Signal
  unfolding signal_irq
  process_msi_virq msi_get_virq msi_index =
      if msi_get_virq msi_index == 0 then Signal.bug else signal_irq (msi_get_virq msi_index)

  -- Before: the loop over the entries. Behind it `msi_desc` is the address of the list's head less
  -- an offset, and not null.
  unfoldable pub process_msi_irq : List MsiDesc → ℕ → Signal
  unfolding signal_irq
  process_msi_irq [] msi_index = Signal.lost
  process_msi_irq (msi_desc ∷ rest) msi_index = elim (msi_desc.entry_nr == msi_index) [
    | true ↦ signal_irq msi_desc.irq
    | false ↦ process_msi_irq rest msi_index
  ]

  -- The interrupt of `pciev_signal_irq`, where `msi` is `__process_msi_irq` of the version and
  -- `irq` is `pdev->irq`.
  unfoldable pub delivered : (msi : ℕ → Signal) (irq msi_index : ℕ) → PcievDev → Signal
  unfolding signal_irq
  delivered msi irq msi_index d = if d.msix_enabled then msi msi_index else signal_irq irq

-- `__create_pci_bus`: the interrupt line of the page becomes that of the device.
unfoldable pub dev_irq : Memory → ℕ
dev_irq virt_dev = get_field (pcihdr 20 0) virt_dev

-- `msi_get_virq`: the interrupt of the first entry with the number, 0 for none.
abbrev pub virq_of : List MsiDesc → ℕ → ℕ
virq_of [] i = 0
virq_of (e ∷ es) i = if e.entry_nr == i then e.irq else virq_of es i

abbrev pub AllUsed : List MsiDesc → Type 0
AllUsed [] = Unit
AllUsed (e ∷ es) = (0 < e.irq) × AllUsed es
