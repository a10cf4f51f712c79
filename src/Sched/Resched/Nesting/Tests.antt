-- ===== src/Sched/Resched/Nesting/Tests.antt =====
-- Nested sections on concrete inputs.
use spacemit_xenomai.Base.{
  ℕ, Bool, ◌≡◌, refl, Bool-cases, inl, inr, arith, true, false, if◌then◌else◌, ◌==◌, bit,
  bit-bit_or, bit-clear_pow, clear_flags,
}
use spacemit_xenomai.Sched.{Rq, rq_sched}
use spacemit_xenomai.Sched.Samples.{quiet}
use spacemit_xenomai.Sched.Resched.Marks.{sched_digit}
use spacemit_xenomai.Sched.Resched.Nesting.{
  request, yield, handler, section, Program, done, next, Machine, take_irq, step, run, spec,
  unnested, depth, requests,
}
use spacemit_xenomai.Sched.Resched.Nesting.Digits.{Consumes}
use spacemit_xenomai.Sched.Resched.Nesting.Requests.{run_refines, handler_lem}

-- A scheduler that only consumes the request, with preemption enabled, and returns with hard
-- interrupts on.
abbrev consumed : Rq → Rq
consumed rq = record rq {
  flags = clear_flags 64 rq.flags rq_sched;
  local_flags = clear_flags 64 rq.local_flags rq_sched;
}

abbrev consume : ℕ → Rq → Rq × Bool
consume c rq = if c == 0 then (consumed rq, true) else (rq, true)

consume-Consumes : Consumes consume
consume-Consumes c rq = elim (Bool-cases (c == 0)) [
  | inl z ↦ rw z (all rq)
  | inr z ↦ rw z (refl, refl, refl)
]
  where
    all :
        (rq : Rq)
        → (bit (consumed rq).flags 14 ≡ bit rq.flags 14)
          × (bit (consumed rq).local_flags 14 ≡ bit rq.local_flags 14)
          × (sched_digit (consumed rq) ≡ 0)
    all rq =
        let f = rq.flags in
        let l = rq.local_flags in
        (
          ground (arith, bit-clear_pow 64 28 14 f),
          ground (arith, bit-clear_pow 64 28 14 l),
          ground (
            arith,
            bit-bit_or 28 (clear_flags 64 f rq_sched) (clear_flags 64 l rq_sched),
            bit-clear_pow 64 28 28 f,
            bit-clear_pow 64 28 28 l,
          ),
        )

abbrev escalate : (Machine → Machine) → Machine → Machine
escalate f m = f m

abbrev idle_cpu : Machine
idle_cpu = record { rq = quiet 0; calls = 5; irqs_on = true }

-- A section that is interrupted: the request of the handler waits for its end.
abbrev handler_body : Program
handler_body = next request (next yield (next (section (next request done)) done))

abbrev interrupted : Program
interrupted = next (section (next (handler handler_body) (next yield done))) (next yield done)

served_once : (run consume escalate true interrupted (0, idle_cpu)).1.calls ≡ 6
unfolding step run
served_once = refl

run_refines_example :
    let (c', m') = run consume escalate true interrupted (0, idle_cpu) in
    let (pending, calls) = spec false 0 interrupted (sched_digit (quiet 0) == 1, 5) in
    (c' ≡ 0)
    × (sched_digit m'.rq ≡ (if pending then 1 else 0))
    × (m'.calls ≡ calls)
    × (bit m'.rq.flags 14 ≡ 0)
    × (bit m'.rq.local_flags 14 ≡ 0)
unfolding unnested depth
run_refines_example =
    run_refines consume escalate true consume-Consumes (λ f m. refl) interrupted 0 idle_cpu refl
      (omega arith) refl refl

handler_example :
    let (c', m') = step consume escalate true (handler handler_body) (3, idle_cpu) in
    let body = run consume escalate true handler_body (3, take_irq idle_cpu) in
    (c' ≡ 3) × (body.1.calls ≡ 5) × (m'.calls ≡ 5) × (sched_digit m'.rq ≡ 1) × (m'.irqs_on ≡ false)
unfolding unnested depth requests
handler_example =
    handler_lem consume escalate true consume-Consumes (λ f m. refl) handler_body 3 idle_cpu refl
      (omega arith) refl refl
