-- ===== src/Intc/Run/Andes.antt =====
-- The calls of the Andes chip.
use spacemit_xenomai.Base.{
  ℕ, ◌%◌, ◌≤◌, ◌<◌, ◌≡◌, refl, ap, ◌∙◌, arith, true, false, ◌==◌, if◌then◌else◌, bit, Bool-cases,
  inl, inr, List, [], ◌∷◌, dec_lt,
}
use spacemit_xenomai.Intc.{Csrs, andes_intc_chip, andes_intc_irq_mask, andes_intc_irq_unmask}
use spacemit_xenomai.Intc.Mask.{register, andes_intc_irq_mask_lem}
use spacemit_xenomai.Intc.Run.{
  ChipCall, masks, unmasks, eois, switch, call_chip, run_chip, side, same_line, line,
}

module _ (sli_base : ℕ) where
  same_register :
      (h k : ℕ) (c : Csrs)
      → side sli_base h k ≡ true
      → register sli_base k c ≡ register sli_base h c
  same_register h k c s = ground arith

  other_unmask :
      (h k : ℕ) (c : Csrs)
      → side sli_base h k ≡ false
      → register sli_base k (andes_intc_irq_unmask sli_base h c) ≡ register sli_base k c
  unfolding andes_intc_irq_unmask
  other_unmask h k c s = ground arith

  other_mask :
      (h k : ℕ) (c : Csrs)
      → side sli_base h k ≡ false
      → register sli_base k (andes_intc_irq_mask sli_base h c) ≡ register sli_base k c
  unfolding andes_intc_irq_mask
  other_mask h k c s = ground arith

  -- What a call does to the digit of a register that it works on, as `andes_intc_irq_mask_lem` has it.
  moved :
      (h k on off d : ℕ)
      → k < 32
      → (h < 32 → on ≡ (if h == k then d else off))
      → (32 ≤ h → on ≡ off)
      → on ≡ (if h == k then d else off)
  moved h k on off d low at above = elim (dec_lt h 32) [
    | yes p ↦ at p
    | no n ↦ above (omega arith) ∙ ground arith
  ]

  line_unmask :
      (h k : ℕ) (csr : Csrs)
      → k % 64 < 32
      → line sli_base k (andes_intc_irq_unmask sli_base h csr)
        ≡ (if same_line sli_base k h then 1 else line sli_base k csr)
  line_unmask h k csr low = elim (Bool-cases (side sli_base h k)) [
    | inl s ↦
        let m = andes_intc_irq_mask_lem sli_base h csr in
        let on = andes_intc_irq_unmask sli_base h csr in
        rw s (
          rw (same_register h k on s, same_register h k csr s)
            (moved (h % 64) (k % 64) _ _ 1 low (λ p. m.0 p (k % 64)) (λ p. m.2 p (k % 64))))
    | inr s ↦ rw s (ap (λ r. bit r (k % 64)) (other_unmask h k csr s))
  ]

  line_mask :
      (h k : ℕ) (csr : Csrs)
      → k % 64 < 32
      → line sli_base k (andes_intc_irq_mask sli_base h csr)
        ≡ (if same_line sli_base k h then 0 else line sli_base k csr)
  line_mask h k csr low = elim (Bool-cases (side sli_base h k)) [
    | inl s ↦
        let m = andes_intc_irq_mask_lem sli_base h csr in
        let off = andes_intc_irq_mask sli_base h csr in
        let b : k % 64 < 64 = omega arith in
        rw s (
          rw (same_register h k off s, same_register h k csr s)
            (moved (h % 64) (k % 64) _ _ 0 low (λ p. m.1 p (k % 64) b) (λ p. m.3 p (k % 64) b)))
    | inr s ↦ rw s (ap (λ r. bit r (k % 64)) (other_mask h k csr s))
  ]

  pub andes_run :
      (calls : List ChipCall) (k : ℕ) (csr : Csrs)
      → k % 64 < 32
      → line sli_base k (run_chip sli_base andes_intc_chip calls csr)
        ≡ switch (same_line sli_base k) calls (line sli_base k csr)
  unfolding run_chip
  andes_run [] k csr low = refl
  andes_run (masks h ∷ calls) k csr low =
      andes_run calls k (andes_intc_irq_mask sli_base h csr) low
      ∙ ap (switch (same_line sli_base k) calls) (line_mask h k csr low)
  andes_run (unmasks h ∷ calls) k csr low =
      andes_run calls k (andes_intc_irq_unmask sli_base h csr) low
      ∙ ap (switch (same_line sli_base k) calls) (line_unmask h k csr low)
  andes_run (eois h ∷ calls) k csr low = andes_run calls k csr low

  -- A digit from 32 on is out of reach.
  kept :
      (h k on off d : ℕ)
      → 32 ≤ k
      → (h < 32 → on ≡ (if h == k then d else off))
      → (32 ≤ h → on ≡ off)
      → on ≡ off
  kept h k on off d high at above = elim (dec_lt h 32) [
    | yes p ↦ at p ∙ ground arith
    | no n ↦ above (omega arith)
  ]

  line_kept :
      (c : ChipCall) (k : ℕ) (csr : Csrs)
      → 32 ≤ k % 64
      → line sli_base k (call_chip sli_base andes_intc_chip c csr) ≡ line sli_base k csr
  unfolding call_chip
  line_kept (masks h) k csr high = elim (Bool-cases (side sli_base h k)) [
    | inl s ↦
        let m = andes_intc_irq_mask_lem sli_base h csr in
        let off = andes_intc_irq_mask sli_base h csr in
        let b : k % 64 < 64 = omega arith in
        rw (same_register h k off s, same_register h k csr s)
          (kept (h % 64) (k % 64) _ _ 0 high (λ p. m.1 p (k % 64) b) (λ p. m.3 p (k % 64) b))
    | inr s ↦ ap (λ r. bit r (k % 64)) (other_mask h k csr s)
  ]
  line_kept (unmasks h) k csr high = elim (Bool-cases (side sli_base h k)) [
    | inl s ↦
        let m = andes_intc_irq_mask_lem sli_base h csr in
        let on = andes_intc_irq_unmask sli_base h csr in
        rw (same_register h k on s, same_register h k csr s)
          (kept (h % 64) (k % 64) _ _ 1 high (λ p. m.0 p (k % 64)) (λ p. m.2 p (k % 64)))
    | inr s ↦ ap (λ r. bit r (k % 64)) (other_unmask h k csr s)
  ]
  line_kept (eois h) k csr high = refl

  pub stuck :
      (calls : List ChipCall) (k : ℕ) (csr : Csrs)
      → 32 ≤ k % 64
      → line sli_base k (run_chip sli_base andes_intc_chip calls csr) ≡ line sli_base k csr
  unfolding run_chip
  stuck [] k csr high = refl
  stuck (c ∷ calls) k csr high =
      stuck calls k (call_chip sli_base andes_intc_chip c csr) high ∙ line_kept c k csr high
