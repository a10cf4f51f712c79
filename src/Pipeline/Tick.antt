-- ===== src/Pipeline/Tick.antt =====
-- kernel-overlay/arch/riscv/include/asm/irq_pipeline.h: trap frames, and the tick that the
-- out-of-band stage keeps for itself. `pie` is the number of the digit SR_PIE of a status word.
use spacemit_xenomai.Base.{
  ℕ, ◌^◌, ◌≡◌, ap, ◌∙◌, Bool, not, arith, ◌==◌, bit, test_flags, test_flags-pow, bit-le,
}
use spacemit_xenomai.Pipeline.{native_irqs_disabled_flags}
use spacemit_xenomai.Pipeline.Flags.{disabled_flags}

-- The members of the kernel's `struct pt_regs` that the pipeline uses.
pub record PtRegs : Type 0 where
  pub status : ℕ
  pub epc : ℕ

unfoldable pub arch_save_timer_regs : PtRegs → PtRegs → PtRegs
arch_save_timer_regs dst src = record dst { status = src.status; epc = src.epc }

unfoldable pub arch_steal_pipelined_tick : ℕ → PtRegs → Bool
arch_steal_pipelined_tick pie regs = not (test_flags regs.status (2 ^ pie))

unfoldable pub arch_enable_oob_stage : ℕ
arch_enable_oob_stage = 0

-- `handler` is the content of `handle_arch_irq`.
unfoldable pub arch_handle_irq_pipelined : {W : Type 0} → (PtRegs → W → W) → PtRegs → W → W
arch_handle_irq_pipelined handler regs w = handler regs w

-- The state of interrupts at the entry of the kernel is not kept: a read gives 0, a write is dropped.
unfoldable pub arch_kentry_get_irqstate : PtRegs → ℕ
arch_kentry_get_irqstate regs = 0

unfoldable pub arch_kentry_set_irqstate : PtRegs → ℕ → PtRegs
arch_kentry_set_irqstate regs irqstate = regs

-- What the hardware documents of a trap: SR_PIE of the status word gets what SR_IE was, and SR_IE
-- gets 0.
pub record TrapEntry (ie pie : ℕ) : Type 0 where
  pub trap : ℕ → ℕ
  pub saves : (status : ℕ) → bit (trap status) pie ≡ bit status ie
  pub masks : (status : ℕ) → bit (trap status) ie ≡ 0

-- In the frame of a trap, `arch_steal_pipelined_tick` says whether interrupts were disabled in
-- hardware when the trap came; and SR_IE of the frame, read in its place, would say that they
-- always were.
pub steal_pipelined_tick_lem :
    (ie pie : ℕ) (entry : TrapEntry ie pie) (status epc : ℕ)
    → let regs : PtRegs = record { status = entry.trap status; epc = epc } in
      (arch_steal_pipelined_tick pie regs ≡ (native_irqs_disabled_flags ie status == 1))
      × (native_irqs_disabled_flags ie regs.status ≡ 1)
unfolding arch_steal_pipelined_tick
steal_pipelined_tick_lem ie pie entry status epc = (
  ap not (test_flags-pow pie (entry.trap status) ∙ ap (λ b. b == 1) (entry.saves status))
      ∙ ground (arith, disabled_flags ie status, bit-le status ie),
  disabled_flags ie (entry.trap status) ∙ omega (arith, entry.masks status),
)
