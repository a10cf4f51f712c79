-- ===== src/Pipeline/Restore.antt =====
-- kernel-overlay/include/asm-generic/irq_pipeline.h: the state of a stage, saved in one word and
-- brought back from it.
use spacemit_xenomai.Base.{
  ℕ, ◌^◌, ◌<◌, ◌≡◌, ap, ◌∙◌, arith, ◌==◌, if◌then◌else◌, bit, bit_and, clear_flags, bit-bit_or,
  bit-bit_and, bit-clear_pow, bit-pow, bit-le,
}
use spacemit_xenomai.Pipeline.{
  sr_ie, split_flags, native_irq_restore, native_irq_disable, native_save_flags,
}
use spacemit_xenomai.Pipeline.Flags.{merge_flags_lem}
use spacemit_xenomai.Pipeline.Hard.{
  hard_local_irq_restore, hard_local_irq_disable, hard_local_save_flags, stage_save_flags,
}

module _ (ie : ℕ) where
  restored :
      (status k : ℕ)
      → ie < 64
      → k < 64
      → bit
          (hard_local_irq_restore ie (bit_and status (2 ^ ie)) (hard_local_irq_disable ie status))
          k
        ≡ bit status k
  unfolding hard_local_irq_restore hard_local_irq_disable native_irq_restore native_irq_disable
  restored status k small b =
      bit-bit_or k (clear_flags 64 status (2 ^ ie)) (bit_and (bit_and status (2 ^ ie)) (2 ^ ie))
      ∙ ground (
        arith,
        bit-clear_pow 64 ie k status,
        bit-bit_and k (bit_and status (2 ^ ie)) (2 ^ ie),
        bit-bit_and k status (2 ^ ie),
        bit-pow ie k,
        bit-le status k,
      )

  -- The word that `stage_save_flags` makes of the status register and of the stall flag gives both
  -- back through `irqs_split_flags`: the flag SR_IE, and the stall flag as 0 or 1. When interrupts
  -- have been disabled in the hardware since, and nothing else has changed, restoring the first of
  -- the two brings back every digit of the status register. SR_IE is not digit 0, and one of the 31
  -- below bit 32.
  pub stage_save_flags_lem :
      (status stalled : ℕ)
      → 0 < ie
      → ie < 31
      → let (flags, stall) = split_flags ie (stage_save_flags ie stalled status) in
        (flags ≡ bit_and status (sr_ie ie))
        × (stall ≡ (if stalled == 0 then 0 else 1))
        × ((k : ℕ)
            → k < 64
            → bit (hard_local_irq_restore ie flags (hard_local_irq_disable ie status)) k
              ≡ bit status k)
  unfolding stage_save_flags hard_local_save_flags native_save_flags
  stage_save_flags_lem status stalled pos small =
      let both = merge_flags_lem ie status stalled pos small in
      let flags = ap (λ (p : ℕ × ℕ). p.0) both in
      (
        flags,
        ap (λ (p : ℕ × ℕ). p.1) both,
        λ k b.
            ap (λ f. bit (hard_local_irq_restore ie f (hard_local_irq_disable ie status)) k) flags
            ∙ restored status k (omega arith) b,
      )
