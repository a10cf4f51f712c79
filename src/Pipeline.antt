-- ===== src/Pipeline.antt =====
-- kernel-overlay/arch/riscv/include/asm/irqflags.h, kernel-overlay/arch/riscv/include/asm/irq_pipeline.h
-- and kernel-overlay/include/asm-generic/irq_pipeline.h: interrupt flags, those of the hardware and
-- the virtual ones of the in-band stage. A value is a word of the status register; `!x` is C's.
pub mod Flags
pub mod Stage
pub mod Tick
pub mod Hard
pub mod Restore
pub mod Nesting
mod Tests
use spacemit_xenomai.Base.{
  ℕ, ◌+◌, ◌^◌, ◌==◌, if◌then◌else◌, bit_and, bit_or, u32, set_flags, clear_flags,
}

-- C's `!`.
abbrev pub lnot : ℕ → ℕ
lnot x = if x == 0 then 1 else 0

-- IRQMASK_i_POS
abbrev pub irqmask_virtual_pos : ℕ
irqmask_virtual_pos = 0

-- `ie` is the number of the digit SR_IE of the status register, which irq_pipeline.h calls
-- IRQMASK_I_POS; the register's layout is that of the kernel's csr.h.
module _ (ie : ℕ) where
  abbrev pub sr_ie : ℕ
  sr_ie = 2 ^ ie

  -- A status register is its content; an operation returns what it reads and the content after.
  unfoldable pub native_save_flags : ℕ → ℕ
  native_save_flags status = status

  unfoldable pub native_irq_enable : ℕ → ℕ
  native_irq_enable status = set_flags status sr_ie

  unfoldable pub native_irq_disable : ℕ → ℕ
  native_irq_disable status = clear_flags 64 status sr_ie

  unfoldable pub native_irq_save : ℕ → ℕ × ℕ
  native_irq_save status = (status, clear_flags 64 status sr_ie)

  unfoldable pub native_irqs_disabled_flags : ℕ → ℕ
  native_irqs_disabled_flags flags = lnot (bit_and flags sr_ie)

  unfoldable pub native_irqs_disabled : ℕ → ℕ
  unfolding native_irqs_disabled_flags native_save_flags
  native_irqs_disabled status = native_irqs_disabled_flags (native_save_flags status)

  unfoldable pub native_irq_restore : ℕ → ℕ → ℕ
  native_irq_restore flags status = set_flags status (bit_and flags sr_ie)

  unfoldable pub native_irq_sync : ℕ → ℕ
  unfolding native_irq_enable native_irq_disable
  native_irq_sync status = native_irq_disable (native_irq_enable status)

  unfoldable pub virtual_to_native_flags : ℕ → ℕ
  virtual_to_native_flags stalled = if lnot stalled == 0 then 0 else sr_ie

  unfoldable pub native_to_virtual_flags : ℕ → ℕ
  native_to_virtual_flags flags =
      if lnot (bit_and flags sr_ie) == 0 then 0 else 2 ^ irqmask_virtual_pos

  -- `irqs_merge_flags`
  unfoldable pub merge_flags : ℕ → ℕ → ℕ
  unfolding virtual_to_native_flags native_to_virtual_flags
  merge_flags flags stalled =
      bit_or (virtual_to_native_flags stalled) (native_to_virtual_flags flags)

  -- `irqs_split_flags`: what it returns, and what it stores through `__stall_r`. The second call of
  -- arch_irqs_virtual_to_native_flags() takes an `int`.
  unfoldable pub split_flags : ℕ → ℕ × ℕ
  unfolding native_irqs_disabled_flags virtual_to_native_flags
  split_flags combo =
      let stall_r = native_irqs_disabled_flags combo in
      let virt = clear_flags 64 combo (virtual_to_native_flags stall_r) in
      (virtual_to_native_flags (u32 virt), stall_r)

-- The out-of-band IPIs; `ipi_irq_base` is set when the CPUs are brought up.
abbrev pub oob_nr_ipi : ℕ
oob_nr_ipi = 3

abbrev pub oob_ipi_offset : ℕ
oob_ipi_offset = 1

abbrev pub timer_oob_ipi : ℕ → ℕ
timer_oob_ipi ipi_irq_base = ipi_irq_base + oob_ipi_offset

abbrev pub reschedule_oob_ipi : ℕ → ℕ
reschedule_oob_ipi ipi_irq_base = timer_oob_ipi ipi_irq_base + 1

abbrev pub call_function_oob_ipi : ℕ → ℕ
call_function_oob_ipi ipi_irq_base = reschedule_oob_ipi ipi_irq_base + 1
