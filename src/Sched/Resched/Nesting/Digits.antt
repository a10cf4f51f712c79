-- ===== src/Sched/Resched/Nesting/Digits.antt =====
-- The flags of a machine against the two variables of the specification: entering and leaving a
-- handler, requests, and calls of `evl_schedule`.
use spacemit_xenomai.Base.{
  ◌≡◌, refl, sym, subst, ap, ◌∙◌, inl, inr, Bool-cases, arith, bit-set_pow, bit-clear_pow,
  test_flags-pow, bit-bit_or, bit-le, ℕ, ◌+◌, Bool, true, false, if◌then◌else◌, ◌==◌, not, ◌&&◌,
  bit, bit_or, set_flags, clear_flags,
}
use spacemit_xenomai.Sched.{Rq, rq_sched, rq_irq}
use spacemit_xenomai.Sched.Resched.{
  resched_pending, schedule, enter_irq, exit_irq, set_self_resched,
}
use spacemit_xenomai.Sched.Resched.Marks.{sched_digit}
use spacemit_xenomai.Sched.Resched.Deferred.{pending-true, pending-irq, pending-idle}
use spacemit_xenomai.Sched.Resched.Nesting.{
  Machine, __evl_schedule, evl_schedule, shut_off, leave_irq, take_irq, settle,
}

abbrev pub digit : Bool → ℕ
digit b = if b then 1 else 0

-- RQ_IRQ is a local flag, set in a handler.
pub record Agrees (irq : Bool) (m : Machine) (s : Bool × ℕ) : Type 0 where
  pub shared : bit m.rq.flags 14 ≡ 0
  pub local : bit m.rq.local_flags 14 ≡ digit irq
  pub pending : sched_digit m.rq ≡ digit (s.0)
  pub calls : m.calls ≡ s.1
  pub off : irq ≡ true → m.irqs_on ≡ false

pub request-Agrees :
    {irq : Bool} {m : Machine} {s : Bool × ℕ}
    → Agrees irq m s
    → Agrees irq (record m { rq = set_self_resched m.rq }) (true, s.1)
unfolding set_self_resched
request-Agrees {irq} {m} {s} a =
    let f = m.rq.flags in
    let l = m.rq.local_flags in
    record {
      shared = ground (arith, bit-set_pow 28 14 f);
      local = a.local;
      pending =
          ground (arith, bit-bit_or 28 (set_flags f rq_sched) l, bit-set_pow 28 28 f, bit-le l 28);
      calls = a.calls;
      off = a.off;
    }

pub enter-Agrees : {m : Machine} {s : Bool × ℕ} → Agrees false m s → Agrees true (take_irq m) s
unfolding enter_irq take_irq
enter-Agrees {m} {s} a =
    let f = m.rq.flags in
    let l = m.rq.local_flags in
    record {
      shared = a.shared;
      local = ground (arith, bit-set_pow 14 14 l);
      pending =
          omega
            (arith, bit-bit_or 28 f (set_flags l rq_irq), bit-bit_or 28 f l, other l, a.pending);
      calls = a.calls;
      off = λ e. refl;
    }
  where
    other : (l : ℕ) → bit (set_flags l rq_irq) 28 ≡ bit l 28
    other l = ground (arith, bit-set_pow 14 28 l)

exited :
    {m : Machine} {s : Bool × ℕ}
    → Agrees true m s
    → Agrees false (record m { rq = (exit_irq m.rq).0 }) s
unfolding exit_irq
exited {m} {s} a =
    let f = m.rq.flags in
    let l = m.rq.local_flags in
    record {
      shared = a.shared;
      local = ground (arith, bit-clear_pow 64 14 14 l);
      pending =
          omega (
            arith,
            bit-bit_or 28 f (clear_flags 64 l rq_irq),
            bit-bit_or 28 f l,
            other l,
            a.pending,
          );
      calls = a.calls;
      off = λ e. cc;
    }
  where
    other : (l : ℕ) → bit (clear_flags 64 l rq_irq) 28 ≡ bit l 28
    other l = ground (arith, bit-clear_pow 64 14 28 l)

irq_bit :
    (m : Machine) {irq : Bool} {s : Bool × ℕ}
    → Agrees irq m s
    → bit (bit_or m.rq.flags m.rq.local_flags) 14 ≡ digit irq
irq_bit m {irq} a = omega (
  arith,
  bit-bit_or 14 m.rq.flags m.rq.local_flags,
  a.shared,
  a.local,
  bit-le m.rq.local_flags 14,
)

-- What the test of `evl_schedule` reads.
pending-Agrees :
    (irq p : Bool) (n : ℕ) (m : Machine)
    → Agrees irq m (p, n)
    → resched_pending m.rq ≡ (if irq then false else p)
pending-Agrees true p n m a = pending-irq m.rq (irq_bit m a)
pending-Agrees false true n m a = pending-true m.rq a.pending (irq_bit m a)
pending-Agrees false false n m a = pending-idle m.rq a.pending

-- In a handler the call does nothing.
pub evl_schedule-held :
    (resched : ℕ → Rq → Rq × Bool) (run_oob_call : (Machine → Machine) → Machine → Machine)
    (oob : Bool) (c : ℕ) (m : Machine) {s : Bool × ℕ}
    → Agrees true m s
    → evl_schedule resched run_oob_call oob c m ≡ m
unfolding evl_schedule schedule
evl_schedule-held resched run_oob_call oob c m {s} a = rw (pending-Agrees true (s.0) (s.1) m a) refl

-- `__evl_schedule` consumes the request at a preemption count of 0. At any other the count guards
-- against rescheduling: the request stays. RQ_IRQ is left alone.
abbrev pub Consumes : (ℕ → Rq → Rq × Bool) → Type 0
Consumes resched =
    (c : ℕ) (rq : Rq)
    → let (rq', on) = resched c rq in
      (bit rq'.flags 14 ≡ bit rq.flags 14)
      × (bit rq'.local_flags 14 ≡ bit rq.local_flags 14)
      × (sched_digit rq' ≡ (if c == 0 then 0 else sched_digit rq))

-- An escalated call is made.
abbrev pub Escalates : ((Machine → Machine) → Machine → Machine) → Type 0
Escalates run_oob_call = (f : Machine → Machine) (m : Machine) → run_oob_call f m ≡ f m

pub settle-idle : (c n : ℕ) → settle c (false, n) ≡ (false, n)
unfolding settle
settle-idle c n = elim (Bool-cases (c == 0)) [ inl z ↦ rw z refl | inr z ↦ rw z refl ]

shut_off-Agrees : (m : Machine) {s : Bool × ℕ} → Agrees false m s → Agrees false (shut_off m) s
unfolding shut_off
shut_off-Agrees m {s} a = either m.irqs_on
  where
    either : (b : Bool) → Agrees false (if b then record m { irqs_on = false } else m) s
    either true = record {
      shared = a.shared;
      local = a.local;
      pending = a.pending;
      calls = a.calls;
      off = λ e. cc;
    }
    either false = a

shut_off-off : (m : Machine) → (shut_off m).irqs_on ≡ false
unfolding shut_off
shut_off-off m = ground arith

module _ (resched : ℕ → Rq → Rq × Bool) (run_oob_call : (Machine → Machine) → Machine → Machine)
    (oob : Bool) (consumes : Consumes resched) (escalates : Escalates run_oob_call) where
  called :
      (c n : ℕ) (m : Machine)
      → Agrees false m (true, n)
      → Agrees false (__evl_schedule resched run_oob_call oob c m) (settle c (true, n))
  unfolding __evl_schedule settle
  called c n m a =
      let e = consumes c m.rq in
      record {
        shared = e.0 ∙ a.shared;
        local = e.1 ∙ a.local;
        pending = e.2 ∙ consumed (c == 0) (sched_digit m.rq) a.pending;
        calls = counted (c == 0) m.calls a.calls;
        off = λ e. cc;
      }
    where
      consumed : (z : Bool) (d : ℕ) → d ≡ 1 → (if z then 0 else d) ≡ digit (not z && true)
      consumed true d h = refl
      consumed false d h = h

      counted :
          (z : Bool) (k : ℕ) → k ≡ n → (if z then k + 1 else k) ≡ (if z && true then n + 1 else n)
      counted true k h = ap (λ t. t + 1) h
      counted false k h = h

  made :
      (c : ℕ) (m : Machine)
      → resched_pending m.rq ≡ true
      → evl_schedule resched run_oob_call oob c m ≡ __evl_schedule resched run_oob_call oob c m
  unfolding evl_schedule schedule
  made c m e = elim (Bool-cases oob) [ inl o ↦ rw (e, o) refl | inr o ↦ rw (e, o) (escalates _ m) ]

  pub evl_schedule-Agrees :
      (c : ℕ) (p : Bool) (n : ℕ) (m : Machine)
      → Agrees false m (p, n)
      → Agrees false (evl_schedule resched run_oob_call oob c m) (settle c (p, n))
  unfolding evl_schedule schedule
  evl_schedule-Agrees c false n m a = rw (settle-idle c n, pending-Agrees false false n m a) a
  evl_schedule-Agrees c true n m a =
      subst (λ (m' : Machine). Agrees false m' (settle c (true, n)))
        (sym (made c m (pending-Agrees false true n m a))) (called c n m a)

  exit_called : (p : Bool) (n : ℕ) (m : Machine) → Agrees true m (p, n) → (exit_irq m.rq).1 ≡ p
  unfolding exit_irq
  exit_called p n m a =
      let m' : Machine = record m { rq = (exit_irq m.rq).0 } in
      test_flags-pow 28 (bit_or m'.rq.flags m'.rq.local_flags)
      ∙ ap (λ d. d == 1) (exited a).pending
      ∙ back p
    where
      back : (p : Bool) → (digit p == 1) ≡ p
      back true = refl
      back false = refl

  pub leave_irq-Agrees :
      (c : ℕ) (p : Bool) (n : ℕ) (m : Machine)
      → Agrees true m (p, n)
      → Agrees false (leave_irq resched run_oob_call oob c m) (settle c (p, n))
  unfolding leave_irq
  leave_irq-Agrees c true n m a =
      rw (exit_called true n m a) (shut_off-Agrees _ (evl_schedule-Agrees c true n _ (exited a)))
  leave_irq-Agrees c false n m a = rw (settle-idle c n, exit_called false n m a) (exited a)

  pub leave_irq-off :
      (c : ℕ) (p : Bool) (n : ℕ) (m : Machine)
      → Agrees true m (p, n)
      → (leave_irq resched run_oob_call oob c m).irqs_on ≡ false
  unfolding leave_irq
  leave_irq-off c true n m a =
      rw (exit_called true n m a) (
        shut_off-off
          (evl_schedule resched run_oob_call oob c (record m { rq = (exit_irq m.rq).0 })))
  leave_irq-off c false n m a = rw (exit_called false n m a) (a.off refl)
