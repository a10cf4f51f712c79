-- ===== src/Intc.antt =====
-- kernel-overlay/drivers/irqchip/irq-riscv-intc.c: the per-hart interrupt controller of RISC-V.
-- Device nodes, firmware nodes and domains are addresses, `none` a null pointer; log messages are
-- not represented.
pub mod Mask
pub mod Run
pub mod Domain
pub mod Init
mod Tests
use spacemit_xenomai.Base.{
  ℕ, zero, suc, ◌+◌, ◌%◌, ◌^◌, Bool, true, false, not, ◌&&◌, ◌||◌, Option, none, some, List, [],
  ◌∷◌, ◌==◌, ltb, leb, if◌then◌else◌, u32, u64, neg32, set_flags, clear_flags,
}

-- The interrupt enable registers of a hart.
pub record Csrs : Type 0 where
  pub ie : ℕ
  pub slie : ℕ

-- `BIT(n)` of an `unsigned long`
abbrev pub bit_mask : ℕ → ℕ
bit_mask n = u64 (2 ^ n)

unfoldable pub riscv_intc_irq_mask : ℕ → Csrs → Csrs
riscv_intc_irq_mask hwirq csr = record csr { ie = clear_flags 64 csr.ie (bit_mask hwirq) }

unfoldable pub riscv_intc_irq_unmask : ℕ → Csrs → Csrs
riscv_intc_irq_unmask hwirq csr = record csr { ie = set_flags csr.ie (bit_mask hwirq) }

-- `sli_base` stands for ANDES_SLI_CAUSE_BASE of the kernel's andes/irq.h. The mask is an
-- `unsigned int`.
unfoldable pub andes_intc_irq_mask : ℕ → ℕ → Csrs → Csrs
andes_intc_irq_mask sli_base hwirq csr =
    let mask = u32 (bit_mask (hwirq % 64)) in
    if ltb hwirq sli_base
    then record csr { ie = clear_flags 64 csr.ie mask }
    else record csr { slie = clear_flags 64 csr.slie mask }

unfoldable pub andes_intc_irq_unmask : ℕ → ℕ → Csrs → Csrs
andes_intc_irq_unmask sli_base hwirq csr =
    let mask = u32 (bit_mask (hwirq % 64)) in
    if ltb hwirq sli_base
    then record csr { ie = set_flags csr.ie mask }
    else record csr { slie = set_flags csr.slie mask }

unfoldable pub riscv_intc_irq_eoi : Csrs → Csrs
riscv_intc_irq_eoi csr = csr

-- `riscv_intc_chip` and `andes_intc_chip`
pub data Chip : Type 0 where
  riscv_intc_chip andes_intc_chip : Chip

abbrev pub irq_mask : ℕ → Chip → ℕ → Csrs → Csrs
irq_mask sli_base riscv_intc_chip hwirq csr = riscv_intc_irq_mask hwirq csr
irq_mask sli_base andes_intc_chip hwirq csr = andes_intc_irq_mask sli_base hwirq csr

abbrev pub irq_unmask : ℕ → Chip → ℕ → Csrs → Csrs
irq_unmask sli_base riscv_intc_chip hwirq csr = riscv_intc_irq_unmask hwirq csr
irq_unmask sli_base andes_intc_chip hwirq csr = andes_intc_irq_unmask sli_base hwirq csr

-- The kernel's flow handlers that the driver names.
pub data FlowHandler : Type 0 where
  handle_percpu_devid_irq : FlowHandler

-- What `irq_domain_set_info` notes of an interrupt.
pub record IrqInfo : Type 0 where
  pub hwirq : ℕ
  pub chip : Chip
  pub handler : FlowHandler
  pub percpu_devid : Bool  -- `irq_set_percpu_devid`

-- A domain: its `host_data`, and what is noted of each interrupt.
pub record IrqDomain : Type 0 where
  pub host_data : Chip
  pub info : ℕ → Option IrqInfo

-- The file's static variables.
pub record Limits : Type 0 where
  pub nr_irqs : ℕ  -- unsigned int
  pub custom_base : ℕ  -- unsigned int
  pub custom_nr_irqs : ℕ  -- unsigned int

abbrev pub initial_limits : Limits
initial_limits = record { nr_irqs = 64; custom_base = 64; custom_nr_irqs = 0 }

unfoldable pub domain_map : IrqDomain → ℕ → ℕ → IrqDomain × ℕ
domain_map d irq hwirq = (
  record d {
    info = λ i.
        if i == irq
        then some (record {
          hwirq = hwirq;
          chip = d.host_data;
          handler = handle_percpu_devid_irq;
          percpu_devid = true;
        })
        else d.info i;
  },
  0,
)

-- The rounds of the loop from round `i` on, `n` of them at most.
unfoldable pub map_irqs : ℕ → ℕ → ℕ → ℕ → IrqDomain → IrqDomain × ℕ
unfolding domain_map
map_irqs zero i virq hwirq d = (d, 0)
map_irqs (suc n) i virq hwirq d =
    let (d', ret) = domain_map d (u32 (virq + i)) (u64 (hwirq + i)) in
    let rest = map_irqs n (suc i) virq hwirq d' in if not (ret == 0) then (d', ret) else rest

abbrev pub einval : ℕ
einval = 22

-- The test of `riscv_intc_domain_alloc` that refuses an interrupt.
unfoldable pub refuses : Limits → ℕ → Bool
refuses l hwirq =
    (leb l.nr_irqs hwirq && ltb hwirq l.custom_base)
    || leb (u32 (l.custom_base + l.custom_nr_irqs)) hwirq

-- `translated` stands for what `irq_domain_translate_onecell` returns and stores: its result, and
-- the interrupt's number in hardware.
unfoldable pub domain_alloc : Limits → ℕ × ℕ → ℕ → ℕ → IrqDomain → IrqDomain × ℕ
unfolding map_irqs refuses
domain_alloc l (ret, hwirq) virq nr_irqs d =
    let mapped = map_irqs nr_irqs 0 virq hwirq d in
    if not (ret == 0) then (d, ret) else (if refuses l hwirq then (d, neg32 einval) else mapped)

-- `handle` stands for `generic_handle_domain_irq` on the driver's domain, `irq_flag` for
-- CAUSE_IRQ_FLAG; a failure is only logged.
unfoldable pub intc_irq : {W : Type 0} → (ℕ → W → W × ℕ) → ℕ → ℕ → W → W
intc_irq handle irq_flag cause w = (handle (clear_flags 64 cause irq_flag) w).0
