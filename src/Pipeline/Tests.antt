-- ===== src/Pipeline/Tests.antt =====
-- Interrupt flags on concrete words: SR_IE is digit 1, SR_PIE digit 5.
use spacemit_xenomai.Pipeline.Hard.{
  stage_save_flags, hard_local_irq_restore, hard_local_irq_disable,
}
use spacemit_xenomai.Pipeline.Restore.{stage_save_flags_lem}
use spacemit_xenomai.Base.{
  [], ◌∷◌, ◌<◌, bit, ℕ, ◌*◌, ◌≤◌, ◌≡◌, refl, Bool, true, false, not, arith, ◌==◌, if◌then◌else◌,
  bit-le,
}
use spacemit_xenomai.Pipeline.{native_irqs_disabled_flags, split_flags}
use spacemit_xenomai.Pipeline.Nesting.Observed.{run_sections_lem}
use spacemit_xenomai.Pipeline.Nesting.{
  observe, hard, stage, Program, done, next, Machine, run, spec,
}
use spacemit_xenomai.Pipeline.Stage.{InbandOps, KeepsStall}
use spacemit_xenomai.Pipeline.Tick.{
  PtRegs, TrapEntry, arch_steal_pipelined_tick, steal_pipelined_tick_lem,
}

-- Interrupts are enabled in the hardware, and the in-band stage is stalled.
stage_save_flags_example :
    let (flags, stall) = split_flags 1 (stage_save_flags 1 1 0x122) in
    (flags ≡ 2)
    × (stall ≡ 1)
    × ((k : ℕ)
        → k < 64
        → bit (hard_local_irq_restore 1 flags (hard_local_irq_disable 1 0x122)) k ≡ bit 0x122 k)
stage_save_flags_example = stage_save_flags_lem 1 0x122 1 (omega arith) (omega arith)

-- The machine is the stall flag.
abbrev stall_flag : InbandOps Bool
stall_flag = record {
  inband_irq_save = λ w. (true, if w then 1 else 0);
  inband_irq_restore = λ x w. not (x == 0);
  inband_irq_enable = λ w. false;
  inband_irq_disable = λ w. true;
  inband_irqs_disabled = λ w. if w then 1 else 0;
}

abbrev keeps : KeepsStall 1 stall_flag
keeps = record {
  stalled = λ w. w;
  save_returns = λ w. refl;
  save_stalls = λ w. refl;
  restores = λ x w. refl;
  tests = λ w. refl;
}

-- SR_IE goes to SR_PIE.
abbrev enter : ℕ → ℕ
enter status = bit status 1 * 32

abbrev entry : TrapEntry 1 5
entry = record {
  trap = enter;
  saves = λ status. moved (bit status 1) (bit-le status 1);
  masks = λ status. cleared (bit status 1);
}
  where
    moved : (b : ℕ) → b ≤ 1 → bit (b * 32) 5 ≡ b
    moved b h = omega arith

    cleared : (b : ℕ) → bit (b * 32) 1 ≡ 0
    cleared b = omega arith

steal_pipelined_tick_example :
    let regs : PtRegs = record { status = enter 2; epc = 16 } in
    (arch_steal_pipelined_tick 5 regs ≡ (native_irqs_disabled_flags 1 2 == 1))
    × (native_irqs_disabled_flags 1 regs.status ≡ 1)
steal_pipelined_tick_example = steal_pipelined_tick_lem 1 5 entry 2 16

-- In-band code stalls the stage, an interrupt-free section stands in it.
abbrev nested : Program
nested =
    next (stage (next observe (next (hard (next observe done)) (next observe done))))
      (next observe done)

abbrev enabled : Machine Bool
enabled = record { status = 0x122; rest = false; seen = [] }

run_sections_example :
    let m' = run 1 stall_flag nested enabled in
    ((k : ℕ) → k < 64 → bit m'.status k ≡ bit 0x122 k)
    × (m'.rest ≡ false)
    × (m'.seen ≡ spec false false nested [])
run_sections_example = run_sections_lem 1 stall_flag keeps (omega arith) nested enabled

-- The last observer comes first.
nested_seen : spec false false nested [] ≡ (0, 0) ∷ (0, 1) ∷ (1, 1) ∷ (0, 1) ∷ []
unfolding spec
nested_seen = refl
