-- ===== src/Intc/Run/Switches.antt =====
-- Both chips against their lines' switches.
use spacemit_xenomai.Base.{ℕ, ◌%◌, ◌≤◌, ◌<◌, ◌≡◌, refl, ap, ◌∙◌, ◌==◌, bit, List, [], ◌∷◌, All}
use spacemit_xenomai.Intc.{
  Csrs, riscv_intc_chip, andes_intc_chip, riscv_intc_irq_mask, riscv_intc_irq_unmask,
}
use spacemit_xenomai.Intc.Mask.{riscv_intc_irq_mask_lem}
use spacemit_xenomai.Intc.Run.{
  ChipCall, masks, unmasks, eois, hwirq_of, switch, run_chip, same_line, line,
}
use spacemit_xenomai.Intc.Run.Andes.{andes_run, stuck}

module _ (sli_base : ℕ) where
  riscv_run :
      (calls : List ChipCall) (k : ℕ) (csr : Csrs)
      → All (λ c. hwirq_of c < 64) calls
      → k < 64
      → (bit (run_chip sli_base riscv_intc_chip calls csr).ie k
          ≡ switch (λ h. h == k) calls (bit csr.ie k))
        × ((run_chip sli_base riscv_intc_chip calls csr).slie ≡ csr.slie)
  unfolding run_chip
  riscv_run [] k csr a b = (refl, refl)
  riscv_run (masks h ∷ calls) k csr a b =
      let m = riscv_intc_irq_mask_lem h csr a.0 in
      let r = riscv_run calls k (riscv_intc_irq_mask h csr) a.1 b in
      (r.0 ∙ ap (switch (λ h. h == k) calls) (m.1 k b), r.1 ∙ m.3)
  riscv_run (unmasks h ∷ calls) k csr a b =
      let m = riscv_intc_irq_mask_lem h csr a.0 in
      let r = riscv_run calls k (riscv_intc_irq_unmask h csr) a.1 b in
      (r.0 ∙ ap (switch (λ h. h == k) calls) (m.0 k), r.1 ∙ m.2)
  riscv_run (eois h ∷ calls) k csr a b = riscv_run calls k csr a.1 b

  -- Under any sequence of calls of a chip, each digit of the enable registers is a switch: it is as
  -- the last mask or unmask of its interrupt left it, or as before if there is none. For the RISC-V
  -- chip, whose interrupts are below 64, this holds of every digit of SIE, and SLIE stays. For the
  -- Andes chip it holds of the digits below 32 of both registers, where `same_line` says which
  -- interrupts share a digit; a digit from 32 on stays as it is whatever is called.
  pub run_chip_lem :
      (calls : List ChipCall) (k : ℕ) (csr : Csrs)
      → (All (λ c. hwirq_of c < 64) calls
          → k < 64
          → (bit (run_chip sli_base riscv_intc_chip calls csr).ie k
              ≡ switch (λ h. h == k) calls (bit csr.ie k))
            × ((run_chip sli_base riscv_intc_chip calls csr).slie ≡ csr.slie))
        × (k % 64 < 32
            → line sli_base k (run_chip sli_base andes_intc_chip calls csr)
              ≡ switch (same_line sli_base k) calls (line sli_base k csr))
        × (32 ≤ k % 64
            → line sli_base k (run_chip sli_base andes_intc_chip calls csr) ≡ line sli_base k csr)
  run_chip_lem calls k csr = (
    (λ a b. riscv_run calls k csr a b),
    (λ low. andes_run sli_base calls k csr low),
    (λ high. stuck sli_base calls k csr high),
  )
