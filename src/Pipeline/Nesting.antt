-- ===== src/Pipeline/Nesting.antt =====
-- kernel-overlay/include/asm-generic/irq_pipeline.h and
-- kernel-overlay/arch/riscv/include/asm/irq_pipeline.h:
-- sections without interrupts, of the hardware and of the in-band stage, nested in one another.
pub mod Observed
use spacemit_xenomai.Base.{
  ℕ, ◌-◌, ◌^◌, ◌<◌, ◌≡◌, refl, ap, ap₂, ◌∙◌, arith, Bool, true, false, List, ◌∷◌, bit, ◌==◌,
  if◌then◌else◌, bit_and, bit-clear_pow, bit-bit_or, bit-bit_and, bit-pow, bit-le,
}
use spacemit_xenomai.Pipeline.{
  native_irq_save, native_irq_restore, native_irqs_disabled, native_save_flags,
}
use spacemit_xenomai.Pipeline.Flags.{disabled_flags}
use spacemit_xenomai.Pipeline.Hard.{hard_local_irq_save, hard_local_irq_restore, hard_irqs_disabled}
use spacemit_xenomai.Pipeline.Stage.{
  InbandOps, KeepsStall, arch_local_irq_save, arch_local_irq_restore, arch_irqs_disabled,
  arch_local_irq_save_lem,
}

mutual
  pub data Op : Type 0 where
    observe : Op
    hard stage : Program → Op

  pub data Program : Type 0 where
    done : Program
    next : Op → Program → Program

-- The status register, the rest of the machine, and what the observers have seen, last one first:
-- whether interrupts are disabled for the hardware, and for the in-band stage.
pub record Machine (W : Type 0) : Type 0 where
  pub status : ℕ
  pub rest : W
  pub seen : List (ℕ × ℕ)

module _ (ie : ℕ) {W : Type 0} (ops : InbandOps W) where
  unfoldable mutual
    unfolding hard_local_irq_save hard_local_irq_restore hard_irqs_disabled

    pub step : Op → Machine W → Machine W
    step observe m = record m {
      seen = (hard_irqs_disabled ie m.status, arch_irqs_disabled ie ops m.rest) ∷ m.seen;
    }
    step (hard p) m =
        let (flags, status) = hard_local_irq_save ie m.status in
        let m' = run p (record m { status = status }) in
        record m' { status = hard_local_irq_restore ie flags m'.status }
    step (stage p) m =
        let (rest, flags) = arch_local_irq_save ie ops m.rest in
        let m' = run p (record m { rest = rest }) in
        record m' { rest = arch_local_irq_restore ie ops flags m'.rest }

    pub run : Program → Machine W → Machine W
    run done m = m
    run (next o p) m = run p (step o m)

-- What observers must see, for the state of the two flags at the start: a section disables what it
-- is about for its body, and for nothing else.
abbrev pub word : Bool → ℕ
word b = if b then 1 else 0

unfoldable mutual
  pub spec_step : Bool → Bool → Op → List (ℕ × ℕ) → List (ℕ × ℕ)
  spec_step off stalled observe seen = (word off, word stalled) ∷ seen
  spec_step off stalled (hard p) seen = spec true stalled p seen
  spec_step off stalled (stage p) seen = spec off true p seen

  pub spec : Bool → Bool → Program → List (ℕ × ℕ) → List (ℕ × ℕ)
  spec off stalled done seen = seen
  spec off stalled (next o p) seen = spec off stalled p (spec_step off stalled o seen)
