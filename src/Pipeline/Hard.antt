-- ===== src/Pipeline/Hard.antt =====
-- kernel-overlay/include/asm-generic/irq_pipeline.h: the hard interrupt flag and the state of the
-- current stage, with CONFIG_IRQ_PIPELINE and without it.
use spacemit_xenomai.Base.{ℕ, Bool, false, not, ◌&&◌, if◌then◌else◌}
use spacemit_xenomai.Pipeline.{
  native_irq_save, native_irq_restore, native_irq_enable, native_irq_disable, native_save_flags,
  native_irqs_disabled, native_irqs_disabled_flags, native_irq_sync, merge_flags,
}

-- With the pipeline, on the content of the status register.
module _ (ie : ℕ) where
  unfoldable pub hard_local_irq_save : ℕ → ℕ × ℕ
  unfolding native_irq_save
  hard_local_irq_save status = native_irq_save ie status

  unfoldable pub hard_local_irq_restore : ℕ → ℕ → ℕ
  unfolding native_irq_restore
  hard_local_irq_restore flags status = native_irq_restore ie flags status

  unfoldable pub hard_local_irq_enable : ℕ → ℕ
  unfolding native_irq_enable
  hard_local_irq_enable status = native_irq_enable ie status

  unfoldable pub hard_local_irq_disable : ℕ → ℕ
  unfolding native_irq_disable
  hard_local_irq_disable status = native_irq_disable ie status

  unfoldable pub hard_local_save_flags : ℕ → ℕ
  unfolding native_save_flags
  hard_local_save_flags status = native_save_flags ie status

  unfoldable pub hard_cond_local_irq_enable : ℕ → ℕ
  unfolding hard_local_irq_enable
  hard_cond_local_irq_enable status = hard_local_irq_enable status

  unfoldable pub hard_cond_local_irq_disable : ℕ → ℕ
  unfolding hard_local_irq_disable
  hard_cond_local_irq_disable status = hard_local_irq_disable status

  unfoldable pub hard_cond_local_irq_save : ℕ → ℕ × ℕ
  unfolding hard_local_irq_save
  hard_cond_local_irq_save status = hard_local_irq_save status

  unfoldable pub hard_cond_local_irq_restore : ℕ → ℕ → ℕ
  unfolding hard_local_irq_restore
  hard_cond_local_irq_restore flags status = hard_local_irq_restore flags status

  unfoldable pub hard_irqs_disabled : ℕ → ℕ
  unfolding native_irqs_disabled
  hard_irqs_disabled status = native_irqs_disabled ie status

  unfoldable pub hard_irqs_disabled_flags : ℕ → ℕ
  unfolding native_irqs_disabled_flags
  hard_irqs_disabled_flags flags = native_irqs_disabled_flags ie flags

  unfoldable pub hard_local_irq_sync : ℕ → ℕ
  unfolding native_irq_sync
  hard_local_irq_sync status = native_irq_sync ie status

  -- `irqs_disabled` is what the kernel's function of that name returns.
  unfoldable pub stage_save_flags : ℕ → ℕ → ℕ
  unfolding hard_local_save_flags merge_flags
  stage_save_flags irqs_disabled status =
      merge_flags ie (hard_local_save_flags status) irqs_disabled

-- Without the pipeline, on the machine's state: the kernel's own operations.
pub record RawIrqs (W : Type 0) : Type 0 where
  pub raw_local_irq_save : W → W × ℕ
  pub raw_local_irq_restore : ℕ → W → W
  pub raw_local_irq_enable : W → W
  pub raw_local_irq_disable : W → W
  pub raw_local_save_flags : W → ℕ
  pub irqs_disabled : W → Bool
  pub raw_irqs_disabled_flags : ℕ → Bool
  pub irqs_disabled_flags : ℕ → Bool

module _ {W : Type 0} (raw : RawIrqs W) where
  unfoldable pub plain_local_save_flags : W → ℕ
  plain_local_save_flags w = raw.raw_local_save_flags w

  unfoldable pub plain_local_irq_enable : W → W
  plain_local_irq_enable w = raw.raw_local_irq_enable w

  unfoldable pub plain_local_irq_disable : W → W
  plain_local_irq_disable w = raw.raw_local_irq_disable w

  unfoldable pub plain_local_irq_save : W → W × ℕ
  plain_local_irq_save w = raw.raw_local_irq_save w

  unfoldable pub plain_local_irq_restore : ℕ → W → W
  plain_local_irq_restore flags w = raw.raw_local_irq_restore flags w

  unfoldable pub cond_local_irq_enable : W → W
  cond_local_irq_enable w = w

  unfoldable pub cond_local_irq_disable : W → W
  cond_local_irq_disable w = w

  unfoldable pub cond_local_irq_save : W → W × ℕ
  cond_local_irq_save w = (w, 0)

  unfoldable pub cond_local_irq_restore : ℕ → W → W
  cond_local_irq_restore flags w = w

  unfoldable pub plain_irqs_disabled : W → Bool
  plain_irqs_disabled w = raw.irqs_disabled w

  unfoldable pub plain_irqs_disabled_flags : ℕ → Bool
  plain_irqs_disabled_flags flags = raw.raw_irqs_disabled_flags flags

  unfoldable pub plain_nmi_enter : W → W
  plain_nmi_enter w = w

  unfoldable pub plain_nmi_exit : W → W
  plain_nmi_exit w = w

  unfoldable pub plain_irq_sync : W → W
  plain_irq_sync w = w

  unfoldable pub stage_disabled : W → Bool
  stage_disabled w = raw.irqs_disabled w

  -- What it returns, and what it stores.
  unfoldable pub stage_disabled_flags : ℕ → Bool × Bool
  stage_disabled_flags flags = let stalled = raw.irqs_disabled_flags flags in (stalled, stalled)

  unfoldable pub test_and_lock_stage : W → W × ℕ × Bool
  test_and_lock_stage w =
      let (w', flags) = raw.raw_local_irq_save w in (w', flags, raw.irqs_disabled_flags flags)

  unfoldable pub unlock_stage : ℕ → W → W
  unlock_stage flags w = raw.raw_local_irq_restore flags w

  unfoldable pub plain_stage_save_flags : W → ℕ
  plain_stage_save_flags w = raw.raw_local_save_flags w

-- The Boolean arguments are the kernel's configuration: CONFIG_IRQ_PIPELINE,
-- CONFIG_DEBUG_IRQ_PIPELINE and CONFIG_DEBUG_HARD_LOCKS. A warning is a result.
unfoldable pub irqs_pipelined : Bool → Bool
irqs_pipelined config_irq_pipeline = config_irq_pipeline

unfoldable pub irq_pipeline_debug : Bool → Bool → Bool
irq_pipeline_debug config_debug oopsing = config_debug && not oopsing

unfoldable pub irq_pipeline_debug_locking : Bool → Bool
irq_pipeline_debug_locking config_debug_hard_locks = config_debug_hard_locks

unfoldable pub check_hard_irqs_disabled : Bool → Bool → Bool
check_hard_irqs_disabled config_debug hard_disabled =
    if config_debug then not hard_disabled else false
