-- ===== src/Intc/Run.antt =====
-- The interrupt enable registers under any sequence of calls of a chip: each line is a switch.
pub mod Andes
pub mod Switches
use spacemit_xenomai.Base.{
  ℕ, ◌%◌, ◌≤◌, ◌<◌, ◌≡◌, refl, ap, ◌∙◌, arith, Bool, true, false, not, ◌&&◌, ◌==◌, if◌then◌else◌,
  bit, ltb, Bool-cases, inl, inr, List, [], ◌∷◌, All, dec_lt,
}
use spacemit_xenomai.Intc.{
  Csrs, Chip, riscv_intc_chip, andes_intc_chip, irq_mask, irq_unmask, riscv_intc_irq_mask,
  riscv_intc_irq_unmask, andes_intc_irq_mask, andes_intc_irq_unmask, riscv_intc_irq_eoi,
}
use spacemit_xenomai.Intc.Mask.{register, riscv_intc_irq_mask_lem, andes_intc_irq_mask_lem}

-- A call of one of a chip's functions, for the interrupt `hwirq`.
pub data ChipCall : Type 0 where
  masks unmasks eois : ℕ → ChipCall

abbrev pub hwirq_of : ChipCall → ℕ
hwirq_of (masks h) = h
hwirq_of (unmasks h) = h
hwirq_of (eois h) = h

-- Without a call the state of the switch is `d`; a call for the same line sets it.
abbrev pub switch : (ℕ → Bool) → List ChipCall → ℕ → ℕ
switch same [] d = d
switch same (masks h ∷ calls) d = switch same calls (if same h then 0 else d)
switch same (unmasks h ∷ calls) d = switch same calls (if same h then 1 else d)
switch same (eois h ∷ calls) d = switch same calls d

abbrev pub same_side : Bool → Bool → Bool
same_side true b = b
same_side false b = not b

module _ (sli_base : ℕ) where
  unfoldable pub call_chip : Chip → ChipCall → Csrs → Csrs
  unfolding riscv_intc_irq_eoi
  call_chip chip (masks h) csr = irq_mask sli_base chip h csr
  call_chip chip (unmasks h) csr = irq_unmask sli_base chip h csr
  call_chip chip (eois h) csr = riscv_intc_irq_eoi csr

  unfoldable pub run_chip : Chip → List ChipCall → Csrs → Csrs
  unfolding call_chip
  run_chip chip [] csr = csr
  run_chip chip (c ∷ calls) csr = run_chip chip calls (call_chip chip c csr)

  -- Interrupts of the Andes chip share a switch if they are on the same side of
  -- ANDES_SLI_CAUSE_BASE and have the same digit.
  abbrev pub side : ℕ → ℕ → Bool
  side h k = same_side (ltb h sli_base) (ltb k sli_base)

  abbrev pub same_line : ℕ → ℕ → Bool
  same_line k h = side h k && (h % 64 == k % 64)

  -- The switch of an interrupt of the Andes chip.
  abbrev pub line : ℕ → Csrs → ℕ
  line k csr = bit (register sli_base k csr) (k % 64)
