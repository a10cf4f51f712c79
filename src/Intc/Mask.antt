-- ===== src/Intc/Mask.antt =====
-- Masking and unmasking, digit by digit of the enable registers.
use native.Mathlib.Nat.{pow-suc}
use spacemit_xenomai.Base.{
  ℕ, ◌+◌, ◌*◌, ◌%◌, ◌^◌, ◌≤◌, ◌<◌, ◌≡◌, refl, ap, ◌∙◌, arith, ◌==◌, if◌then◌else◌, u32, bit, ltb,
  set_flags, clear_flags, bit-set_pow, bit-clear_pow, pow-lt, bit-bit_or, Bool-cases, inl, inr,
  zero, suc, ◌-◌, bit-le, bit-clear_flags, bit-zero,
}
use spacemit_xenomai.Intc.{
  Csrs, bit_mask, riscv_intc_irq_mask, riscv_intc_irq_unmask, andes_intc_irq_mask,
  andes_intc_irq_unmask,
}

-- For one of the 64 standard interrupts, `riscv_intc_irq_unmask` sets its digit of the interrupt
-- enable register and `riscv_intc_irq_mask` clears it; all other digits, and the other register,
-- stay as they are.
pub riscv_intc_irq_mask_lem :
    (hwirq : ℕ) (csr : Csrs)
    → hwirq < 64
    → let on = riscv_intc_irq_unmask hwirq csr in
      let off = riscv_intc_irq_mask hwirq csr in
      ((k : ℕ) → bit on.ie k ≡ (if hwirq == k then 1 else bit csr.ie k))
      × ((k : ℕ) → k < 64 → bit off.ie k ≡ (if hwirq == k then 0 else bit csr.ie k))
      × (on.slie ≡ csr.slie)
      × (off.slie ≡ csr.slie)
unfolding riscv_intc_irq_mask riscv_intc_irq_unmask
riscv_intc_irq_mask_lem hwirq csr h = (
  (λ k. ap (λ m. bit (set_flags csr.ie m) k) (mask h) ∙ bit-set_pow hwirq k csr.ie),
  (λ k b. ap (λ m. bit (clear_flags 64 csr.ie m) k) (mask h) ∙ bit-clear_pow 64 hwirq k csr.ie h b),
  refl,
  refl,
)
  where
    mask : hwirq < 64 → bit_mask hwirq ≡ 2 ^ hwirq
    mask h = omega (arith, pow-lt hwirq 64 h)

pow_shift : (i : ℕ) → 2 ^ (i + 32) ≡ 2 ^ i * 4294967296
pow_shift zero = omega arith
pow_shift (suc i) =
    omega (arith, ap (λ (n : ℕ). 2 ^ n) (sum i), pow-suc 2 (i + 32), pow-suc 2 i, pow_shift i)
  where
    sum : (i : ℕ) → suc i + 32 ≡ suc (i + 32)
    sum i = omega arith

abbrev mask_of : ℕ → ℕ
mask_of hwirq = u32 (bit_mask (hwirq % 64))

mask_of-low : (hwirq : ℕ) → hwirq % 64 < 32 → mask_of hwirq ≡ 2 ^ (hwirq % 64)
mask_of-low hwirq h = omega (arith, pow-lt (hwirq % 64) 32 h)

mask_of-high : (hwirq : ℕ) → 32 ≤ hwirq % 64 → mask_of hwirq ≡ 0
mask_of-high hwirq h =
    let i = hwirq % 64 - 32 in
    let e : i + 32 ≡ hwirq % 64 = omega arith in
    omega (arith, pow-lt (hwirq % 64) 64 (omega arith), ap (λ (n : ℕ). 2 ^ n) e, pow_shift i)

-- The register that the driver picks for an interrupt.
abbrev pub register : ℕ → ℕ → Csrs → ℕ
register sli_base hwirq c = if ltb hwirq sli_base then c.ie else c.slie

unmasked :
    (sli_base hwirq : ℕ) (csr : Csrs)
    → register sli_base hwirq (andes_intc_irq_unmask sli_base hwirq csr)
      ≡ set_flags (register sli_base hwirq csr) (mask_of hwirq)
unfolding andes_intc_irq_unmask
unmasked sli_base hwirq csr = elim (Bool-cases (ltb hwirq sli_base)) [
  | inl e ↦ rw e refl
  | inr e ↦ rw e refl
]

masked :
    (sli_base hwirq : ℕ) (csr : Csrs)
    → register sli_base hwirq (andes_intc_irq_mask sli_base hwirq csr)
      ≡ clear_flags 64 (register sli_base hwirq csr) (mask_of hwirq)
unfolding andes_intc_irq_mask
masked sli_base hwirq csr = elim (Bool-cases (ltb hwirq sli_base)) [
  | inl e ↦ rw e refl
  | inr e ↦ rw e refl
]

-- `andes_intc_irq_unmask` sets digit `hwirq % 64` of the register for the interrupt's number, SIE
-- below ANDES_SLI_CAUSE_BASE and SLIE from it on, and `andes_intc_irq_mask` clears it, if that digit
-- is below 32; the register's other digits stay as they are. If it is not, then both leave all
-- digits of the register as they are.
pub andes_intc_irq_mask_lem :
    (sli_base hwirq : ℕ) (csr : Csrs)
    → let on = andes_intc_irq_unmask sli_base hwirq csr in
      let off = andes_intc_irq_mask sli_base hwirq csr in
      let reg = register sli_base hwirq in
      let j = hwirq % 64 in
      (j < 32 → (k : ℕ) → bit (reg on) k ≡ (if j == k then 1 else bit (reg csr) k))
      × (j < 32 → (k : ℕ) → k < 64 → bit (reg off) k ≡ (if j == k then 0 else bit (reg csr) k))
      × (32 ≤ j → (k : ℕ) → bit (reg on) k ≡ bit (reg csr) k)
      × (32 ≤ j → (k : ℕ) → k < 64 → bit (reg off) k ≡ bit (reg csr) k)
andes_intc_irq_mask_lem sli_base hwirq csr =
    let reg = register sli_base hwirq csr in
    let j = hwirq % 64 in
    (
      (λ low k.
          ap (λ r. bit r k) (unmasked sli_base hwirq csr)
          ∙ ap (λ m. bit (set_flags reg m) k) (mask_of-low hwirq low)
          ∙ bit-set_pow j k reg),
      (λ low k b.
          ap (λ r. bit r k) (masked sli_base hwirq csr)
          ∙ ap (λ m. bit (clear_flags 64 reg m) k) (mask_of-low hwirq low)
          ∙ bit-clear_pow 64 j k reg (omega arith) b),
      (λ high k.
          ap (λ r. bit r k) (unmasked sli_base hwirq csr)
          ∙ ap (λ m. bit (set_flags reg m) k) (mask_of-high hwirq high)
          ∙ omega (arith, bit-bit_or k reg 0, bit-zero k)),
      (λ high k b.
          ap (λ r. bit r k) (masked sli_base hwirq csr)
          ∙ ap (λ m. bit (clear_flags 64 reg m) k) (mask_of-high hwirq high)
          ∙ omega (arith, bit-clear_flags 64 k reg 0 (omega arith) b, bit-zero k, bit-le reg k)),
    )
