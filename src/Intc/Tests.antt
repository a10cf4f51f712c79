-- ===== src/Intc/Tests.antt =====
-- The interrupt controller on concrete inputs, with the Andes causes from 256 on.
use spacemit_xenomai.Base.{
  ℕ, ◌+◌, ◌%◌, ◌≤◌, ◌<◌, ◌≡◌, ◌≢◌, List, All, true, false, none, some, [], ◌∷◌, arith, ◌==◌,
  if◌then◌else◌, bit, neg32,
}
use spacemit_xenomai.Intc.{Csrs, riscv_intc_chip, IrqDomain, initial_limits, andes_intc_chip}
use spacemit_xenomai.Intc.Init.{Host, Driver, IsUp, acpi_init, enomem, acpi_init_lem}
use spacemit_xenomai.Intc.Run.Switches.{run_chip_lem}
use spacemit_xenomai.Intc.Run.{
  ChipCall, masks, unmasks, eois, hwirq_of, switch, run_chip, same_line, line,
}

abbrev csrs : Csrs
csrs = record { ie = 0x222; slie = 0x10 }

-- Interrupts 274 and 18 have digit 18, of SLIE and of SIE; 5 and 69 share digit 5 of SIE.
abbrev chip_calls : List ChipCall
chip_calls = unmasks 274 ∷ masks 69 ∷ eois 274 ∷ masks 18 ∷ unmasks 5 ∷ []

abbrev low_calls : List ChipCall
low_calls = unmasks 9 ∷ masks 5 ∷ []

run_chip_example :
    (All (λ c. hwirq_of c < 64) chip_calls
      → 274 < 64
      → (bit (run_chip 256 riscv_intc_chip chip_calls csrs).ie 274
          ≡ switch (λ h. h == 274) chip_calls (bit 0x222 274))
        × ((run_chip 256 riscv_intc_chip chip_calls csrs).slie ≡ 0x10))
    × (274 % 64 < 32
        → line 256 274 (run_chip 256 andes_intc_chip chip_calls csrs)
          ≡ switch (same_line 256 274) chip_calls (line 256 274 csrs))
    × (32 ≤ 274 % 64
        → line 256 274 (run_chip 256 andes_intc_chip chip_calls csrs) ≡ line 256 274 csrs)
run_chip_example = run_chip_lem 256 chip_calls 274 csrs

-- Interrupt 5 is masked, 9 is not.
low_digits :
    (bit (run_chip 256 riscv_intc_chip low_calls csrs).ie 5 ≡ 0)
    × (bit (run_chip 256 riscv_intc_chip low_calls csrs).ie 9 ≡ 1)
low_digits = (
  ((run_chip_lem 256 low_calls 5 csrs).0 (omega arith) (omega arith)).0,
  ((run_chip_lem 256 low_calls 9 csrs).0 (omega arith) (omega arith)).0,
)

abbrev nothing_mapped : IrqDomain
nothing_mapped = record { host_data = riscv_intc_chip; info = λ irq. none }

-- Hart 7 is CPU 0, which runs; node 40 has the firmware node 80.
abbrev boot : Host
boot = record {
  create_tree = λ fwnode. some 1000;
  set_handle_irq = 0;
  parent_hartid = λ node. (0, 7);
  hartid_to_cpuid = λ hartid. if hartid == 7 then 0 else 1;
  processor_id = 0;
  is_andes = λ node. true;
  to_fwnode = λ node. 2 + 78;
  alloc_fwnode = some 90;
}

abbrev unset : Driver
unset = record {
  limits = initial_limits;
  intc_domain = none;
  chip = none;
  handler_set = false;
  hwnode_set = false;
  initialized = [];
  freed = [];
}

abbrev cpu_of_boot : ℕ
cpu_of_boot = boot.hartid_to_cpuid 7

acpi_init_example :
    let (d', rc) = acpi_init boot 7 unset in
    (cpu_of_boot ≢ boot.processor_id → (rc ≡ 0) × (d' ≡ unset))
    × (cpu_of_boot ≡ boot.processor_id
        → (boot.alloc_fwnode ≡ none → (rc ≡ neg32 enomem) × (d' ≡ unset))
          × ((fwnode : ℕ)
              → boot.alloc_fwnode ≡ some fwnode
              → (rc ≡ 0 → IsUp boot d' × (d'.chip ≡ some riscv_intc_chip) × (d'.freed ≡ []))
                × (rc ≢ 0 → d'.freed ≡ fwnode ∷ [])))
acpi_init_example = acpi_init_lem boot 7 unset
