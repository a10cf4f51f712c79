-- ===== src/Intc/Domain.antt =====
-- Which interrupts a domain takes, and what it notes of them.
use spacemit_xenomai.Base.{ℕ, ◌+◌, ◌≤◌, ◌<◌, ◌≡◌, ◌⊎◌, true, Option, some}
use spacemit_xenomai.Intc.{Chip, IrqInfo, handle_percpu_devid_irq, IrqDomain, Limits}

-- The interrupts that have an enable register: the standard ones, and the custom ones.
abbrev pub HasRegister : Limits → ℕ → Type 0
HasRegister l hwirq =
    ((hwirq < l.nr_irqs) ⊎ (l.custom_base ≤ hwirq)) × (hwirq < l.custom_base + l.custom_nr_irqs)

-- The interrupts `virq` to `virq + nr_irqs - 1` are noted with consecutive hardware numbers, and
-- nothing else has changed.
abbrev pub Mapped : ℕ → ℕ → ℕ → IrqDomain → IrqDomain → Type 0
Mapped virq hwirq nr_irqs d d' =
    (d'.host_data ≡ d.host_data)
    × ((i : ℕ)
        → i < nr_irqs
        → d'.info (virq + i)
          ≡ some (record {
            hwirq = hwirq + i;
            chip = d.host_data;
            handler = handle_percpu_devid_irq;
            percpu_devid = true;
          }))
    × ((irq : ℕ) → (irq < virq) ⊎ (virq + nr_irqs ≤ irq) → d'.info irq ≡ d.info irq)

abbrev noted : Chip → ℕ → Option IrqInfo
noted chip hwirq =
    some (record {
      hwirq = hwirq;
      chip = chip;
      handler = handle_percpu_devid_irq;
      percpu_devid = true;
    })
