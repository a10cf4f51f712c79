-- ===== src/Pipeline/Nesting/Observed.antt =====
-- What observers in nested sections see, and what is left afterwards.
use spacemit_xenomai.Base.{
  ℕ, ◌-◌, ◌^◌, ◌<◌, ◌≡◌, refl, ap, ap₂, ◌∙◌, arith, Bool, true, false, List, ◌∷◌, bit, ◌==◌,
  bit_and, bit-clear_pow, bit-bit_or, bit-bit_and, bit-pow, bit-le,
}
use spacemit_xenomai.Pipeline.{
  native_irq_save, native_irq_restore, native_irqs_disabled, native_save_flags,
}
use spacemit_xenomai.Pipeline.Flags.{disabled_flags}
use spacemit_xenomai.Pipeline.Hard.{hard_local_irq_save, hard_local_irq_restore, hard_irqs_disabled}
use spacemit_xenomai.Pipeline.Stage.{
  InbandOps, KeepsStall, arch_local_irq_save, arch_local_irq_restore, arch_irqs_disabled,
  arch_local_irq_save_lem,
}
use spacemit_xenomai.Pipeline.Nesting.{
  Op, observe, hard, stage, Program, done, next, Machine, step, run, word, spec_step, spec,
}

module _ (ie : ℕ) {W : Type 0} (ops : InbandOps W) (keeps : KeepsStall ie ops)
    (small : ie < 64) where
  -- `m` has the digits of `status`, and the two flags are as given.
  record Agrees (off stalled : Bool) (status : ℕ) (m : Machine W) (seen : List (ℕ × ℕ))
      : Type 0 where
    digits : (k : ℕ) → k < 64 → bit m.status k ≡ bit status k
    disabled : bit status ie ≡ 1 - word off
    stall : keeps.stalled m.rest ≡ stalled
    trace : m.seen ≡ seen

  hardware :
      (off : Bool) {stalled : Bool} {status : ℕ} (m : Machine W) {seen : List (ℕ × ℕ)}
      → Agrees off stalled status m seen
      → hard_irqs_disabled ie m.status ≡ word off
  unfolding hard_irqs_disabled native_irqs_disabled native_save_flags
  hardware true m a = omega (arith, disabled_flags ie m.status, a.digits ie small, a.disabled)
  hardware false m a = omega (arith, disabled_flags ie m.status, a.digits ie small, a.disabled)

  inband :
      (stalled : Bool) (m : Machine W)
      → keeps.stalled m.rest ≡ stalled
      → arch_irqs_disabled ie ops m.rest ≡ word stalled
  inband stalled m e = (arch_local_irq_save_lem ie ops keeps m.rest m.rest).2 ∙ ap word e

  observed :
      (off stalled : Bool) (status : ℕ) (m : Machine W) (seen : List (ℕ × ℕ))
      → Agrees off stalled status m seen
      → Agrees off stalled status (step ie ops observe m) (spec_step off stalled observe seen)
  unfolding step spec_step
  observed off stalled status m seen a = record {
    digits = a.digits;
    disabled = a.disabled;
    stall = a.stall;
    trace =
        ap₂ (λ h t. h ∷ t) (ap₂ (λ x y. (x, y)) (hardware off m a) (inband stalled m a.stall))
          a.trace;
  }

  entered :
      (off stalled : Bool) (status : ℕ) (m : Machine W) (seen : List (ℕ × ℕ))
      → Agrees off stalled status m seen
      → let masked = (hard_local_irq_save ie m.status).1 in
        Agrees true stalled masked (record m { status = masked }) seen
  unfolding hard_local_irq_save native_irq_save
  entered off stalled status m seen a = record {
    digits = λ k b. refl;
    disabled = ground (arith, bit-clear_pow 64 ie ie m.status);
    stall = a.stall;
    trace = a.trace;
  }

  left :
      (off stalled : Bool) (status : ℕ) (m m' : Machine W) (seen seen' : List (ℕ × ℕ))
      → Agrees off stalled status m seen
      → let (flags, masked) = hard_local_irq_save ie m.status in
        Agrees true stalled masked m' seen'
        → Agrees off stalled status
            (record m' { status = hard_local_irq_restore ie flags m'.status })
            seen'
  unfolding hard_local_irq_save native_irq_save hard_local_irq_restore native_irq_restore
  left off stalled status m m' seen seen' a a' = record {
    digits = λ k b. ground (
      arith,
      a.digits k b,
      a'.digits k b,
      bit-clear_pow 64 ie k m.status,
      bit-bit_or k m'.status (bit_and m.status (2 ^ ie)),
      bit-bit_and k m.status (2 ^ ie),
      bit-pow ie k,
      bit-le m.status k,
      bit-le m'.status k,
    );
    disabled = a.disabled;
    stall = a'.stall;
    trace = a'.trace;
  }

  entered_stage :
      (off stalled : Bool) (status : ℕ) (m : Machine W) (seen : List (ℕ × ℕ))
      → Agrees off stalled status m seen
      → Agrees off true status (record m { rest = (arch_local_irq_save ie ops m.rest).0 }) seen
  entered_stage off stalled status m seen a = record {
    digits = a.digits;
    disabled = a.disabled;
    stall = (arch_local_irq_save_lem ie ops keeps m.rest m.rest).0;
    trace = a.trace;
  }

  left_stage :
      (off stalled : Bool) (status : ℕ) (m m' : Machine W) (seen seen' : List (ℕ × ℕ))
      → Agrees off stalled status m seen
      → Agrees off true status m' seen'
      → let flags = (arch_local_irq_save ie ops m.rest).1 in
        Agrees off stalled status
          (record m' { rest = arch_local_irq_restore ie ops flags m'.rest })
          seen'
  left_stage off stalled status m m' seen seen' a a' = record {
    digits = a'.digits;
    disabled = a.disabled;
    stall = (arch_local_irq_save_lem ie ops keeps m.rest m'.rest).1 ∙ a.stall;
    trace = a'.trace;
  }

  mutual
    unfolding step run spec_step spec

    step-Agrees :
        (o : Op) (off stalled : Bool) (status : ℕ) (m : Machine W) (seen : List (ℕ × ℕ))
        → Agrees off stalled status m seen
        → Agrees off stalled status (step ie ops o m) (spec_step off stalled o seen)
    step-Agrees observe off stalled status m seen a = observed off stalled status m seen a
    step-Agrees (hard p) off stalled status m seen a = left off stalled status m _ seen _ a (
        run-Agrees p true stalled (hard_local_irq_save ie m.status).1 _ seen
          (entered off stalled status m seen a))
    step-Agrees (stage p) off stalled status m seen a =
        left_stage off stalled status m _ seen _ a
          (run-Agrees p off true status _ seen (entered_stage off stalled status m seen a))

    run-Agrees :
        (p : Program) (off stalled : Bool) (status : ℕ) (m : Machine W) (seen : List (ℕ × ℕ))
        → Agrees off stalled status m seen
        → Agrees off stalled status (run ie ops p m) (spec off stalled p seen)
    run-Agrees done off stalled status m seen a = a
    run-Agrees (next o p) off stalled status m seen a =
        run-Agrees p off stalled status (step ie ops o m) (spec_step off stalled o seen)
          (step-Agrees o off stalled status m seen a)

  -- Sections without interrupts, of the hardware and of the in-band stage, nested in any way: every
  -- observer sees exactly the sections around it, on top of the state at the start, and at the end
  -- the status register has the digits, and the stage the stall flag, that they had at the start.
  -- The pipeline core is taken to do what it documents of the stall flag.
  pub run_sections_lem :
      (p : Program) (m : Machine W)
      → let m' = run ie ops p m in
        ((k : ℕ) → k < 64 → bit m'.status k ≡ bit m.status k)
        × (keeps.stalled m'.rest ≡ keeps.stalled m.rest)
        × (m'.seen ≡ spec (bit m.status ie == 0) (keeps.stalled m.rest) p m.seen)
  run_sections_lem p m =
      let a = run-Agrees p (bit m.status ie == 0) (keeps.stalled m.rest) m.status m m.seen (record {
        digits = λ k b. refl;
        disabled = ground (arith, bit-le m.status ie);
        stall = refl;
        trace = refl;
      }) in
      (a.digits, a.stall, a.trace)
