-- ===== src/Pipeline/Stage.antt =====
-- kernel-overlay/arch/riscv/include/asm/irq_pipeline.h: the interrupt state that in-band code sees,
-- with CONFIG_IRQ_PIPELINE, when it is the stall flag, and without, when it is the hardware's.
use spacemit_xenomai.Base.{
  ℕ, ◌^◌, ◌≡◌, refl, ap, ◌∙◌, Bool, true, false, arith, ◌==◌, if◌then◌else◌, bit_and-zero_left,
  bit_and-pow, bit-pow_self, not,
}
use native.Mathlib.Nat.{one-le-pow}
use spacemit_xenomai.Pipeline.{
  native_irqs_disabled_flags, native_irq_save, native_irq_restore, native_irq_enable,
  native_irq_disable, native_save_flags, virtual_to_native_flags,
}

-- The calls into the pipeline core that irq_pipeline.h only declares, on the machine's state.
pub record InbandOps (W : Type 0) : Type 0 where
  pub inband_irq_save : W → W × ℕ
  pub inband_irq_restore : ℕ → W → W
  pub inband_irq_enable : W → W
  pub inband_irq_disable : W → W
  pub inband_irqs_disabled : W → ℕ

module _ (ie : ℕ) {W : Type 0} (ops : InbandOps W) where
  unfoldable pub arch_irqs_disabled_flags : ℕ → ℕ
  unfolding native_irqs_disabled_flags
  arch_irqs_disabled_flags flags = native_irqs_disabled_flags ie flags

  unfoldable pub arch_local_irq_save : W → W × ℕ
  unfolding virtual_to_native_flags
  arch_local_irq_save w =
      let (w', stalled) = ops.inband_irq_save w in (w', virtual_to_native_flags ie stalled)

  unfoldable pub arch_local_irq_enable : W → W
  arch_local_irq_enable w = ops.inband_irq_enable w

  unfoldable pub arch_local_irq_disable : W → W
  arch_local_irq_disable w = ops.inband_irq_disable w

  unfoldable pub arch_local_save_flags : W → ℕ
  unfolding virtual_to_native_flags
  arch_local_save_flags w = virtual_to_native_flags ie (ops.inband_irqs_disabled w)

  unfoldable pub arch_local_irq_restore : ℕ → W → W
  unfolding arch_irqs_disabled_flags
  arch_local_irq_restore flags w = ops.inband_irq_restore (arch_irqs_disabled_flags flags) w

  unfoldable pub arch_irqs_disabled : W → ℕ
  unfolding arch_irqs_disabled_flags arch_local_save_flags
  arch_irqs_disabled w = arch_irqs_disabled_flags (arch_local_save_flags w)

  -- What the pipeline documents of its calls: `stalled` is the stall flag of the in-band stage,
  -- which `save` returns and sets, and `restore` sets to whether its argument is not 0.
  pub record KeepsStall : Type 0 where
    pub stalled : W → Bool
    pub save_returns : (w : W) → (ops.inband_irq_save w).1 ≡ (if stalled w then 1 else 0)
    pub save_stalls : (w : W) → stalled (ops.inband_irq_save w).0 ≡ true
    pub restores : (x : ℕ) (w : W) → stalled (ops.inband_irq_restore x w) ≡ not (x == 0)
    pub tests : (w : W) → ops.inband_irqs_disabled w ≡ (if stalled w then 1 else 0)

  -- The stall flag, sent through the hardware's format and back.
  there_and_back :
      (b : Bool)
      → native_irqs_disabled_flags ie (virtual_to_native_flags ie (if b then 1 else 0))
        ≡ (if b then 1 else 0)
  unfolding native_irqs_disabled_flags virtual_to_native_flags
  there_and_back true = ground (arith, bit_and-zero_left (2 ^ ie))
  there_and_back false = ground (arith, bit_and-pow ie (2 ^ ie), bit-pow_self ie, one-le-pow ie 2)

  -- With CONFIG_IRQ_PIPELINE, for a core that does what the pipeline documents: the in-band stage
  -- is stalled after `arch_local_irq_save`; `arch_local_irq_restore` with what it returned, from
  -- any state, brings the stall flag back to what it was at the save; and `arch_irqs_disabled`
  -- tells the stall flag.
  pub arch_local_irq_save_lem :
      (keeps : KeepsStall) (w later : W)
      → let (w', flags) = arch_local_irq_save w in
        (keeps.stalled w' ≡ true)
        × (keeps.stalled (arch_local_irq_restore flags later) ≡ keeps.stalled w)
        × (arch_irqs_disabled w ≡ (if keeps.stalled w then 1 else 0))
  unfolding arch_local_irq_save arch_local_irq_restore arch_irqs_disabled arch_irqs_disabled_flags
      arch_local_save_flags
  arch_local_irq_save_lem keeps w later = (
    keeps.save_stalls w,
    keeps.restores _ later
        ∙ ap (λ x. not (native_irqs_disabled_flags ie (virtual_to_native_flags ie x) == 0))
            (keeps.save_returns w)
        ∙ ap (λ x. not (x == 0)) (there_and_back (keeps.stalled w))
        ∙ told (keeps.stalled w),
    ap (λ x. native_irqs_disabled_flags ie (virtual_to_native_flags ie x)) (keeps.tests w)
        ∙ there_and_back (keeps.stalled w),
  )
    where
      told : (b : Bool) → not ((if b then 1 else 0) == 0) ≡ b
      told true = refl
      told false = refl

-- Without CONFIG_IRQ_PIPELINE.
module _ (ie : ℕ) where
  unfoldable pub plain_local_irq_save : ℕ → ℕ × ℕ
  unfolding native_irq_save
  plain_local_irq_save status = native_irq_save ie status

  unfoldable pub plain_local_irq_enable : ℕ → ℕ
  unfolding native_irq_enable
  plain_local_irq_enable status = native_irq_enable ie status

  unfoldable pub plain_local_irq_disable : ℕ → ℕ
  unfolding native_irq_disable
  plain_local_irq_disable status = native_irq_disable ie status

  unfoldable pub plain_local_save_flags : ℕ → ℕ
  unfolding native_save_flags
  plain_local_save_flags status = native_save_flags ie status

  unfoldable pub plain_local_irq_restore : ℕ → ℕ → ℕ
  unfolding native_irq_restore
  plain_local_irq_restore flags status = native_irq_restore ie flags status

  unfoldable pub plain_irqs_disabled_flags : ℕ → ℕ
  unfolding native_irqs_disabled_flags
  plain_irqs_disabled_flags flags = native_irqs_disabled_flags ie flags
