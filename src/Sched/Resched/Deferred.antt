-- ===== src/Sched/Resched/Deferred.antt =====
-- Rescheduling is put off until the interrupt has been handled.
use spacemit_xenomai.Base.{
  ◌<◌, bit-clear_pow, ◌≡◌, refl, ap, ◌∙◌, inl, inr, Bool-cases, ==_iff, arith, bit-set_pow,
  test_flags-pow, bit-bit_or, bit-le, ℕ, Bool, true, false, ◌==◌, if◌then◌else◌, bit, bit_or,
  set_flags, clear_flags,
}
use spacemit_xenomai.Sched.{Rq, rq_irq}
use spacemit_xenomai.Sched.Resched.{resched_pending, schedule, enter_irq, exit_irq}
use spacemit_xenomai.Sched.Resched.Marks.{sched_digit, resched_pending-digits}

abbrev irq_digit : Rq → ℕ
irq_digit rq = bit (bit_or rq.flags rq.local_flags) 14

pub pending-true : (rq : Rq) → sched_digit rq ≡ 1 → irq_digit rq ≡ 0 → resched_pending rq ≡ true
pending-true rq s i = (resched_pending-digits rq).1 (s, i)

pub pending-irq : (rq : Rq) → irq_digit rq ≡ 1 → resched_pending rq ≡ false
pending-irq rq i = elim (Bool-cases (resched_pending rq)) [
  | inl e ↦ absurd (omega (arith, i, ((resched_pending-digits rq).0 e).1))
  | inr e ↦ e
]

pub pending-idle : (rq : Rq) → sched_digit rq ≡ 0 → resched_pending rq ≡ false
pending-idle rq s = elim (Bool-cases (resched_pending rq)) [
  | inl e ↦ absurd (omega (arith, s, ((resched_pending-digits rq).0 e).0))
  | inr e ↦ e
]

entered : (rq : Rq) → irq_digit (enter_irq rq) ≡ 1
unfolding enter_irq
entered rq =
    bit-bit_or 14 rq.flags (set_flags rq.local_flags rq_irq)
    ∙ ground (arith, bit-set_pow 14 14 rq.local_flags, bit-le rq.flags 14)

left :
    (k : ℕ) (rq : Rq)
    → k < 64
    → let rq' = (exit_irq (enter_irq rq)).0 in
      bit (bit_or rq'.flags rq'.local_flags) k
      ≡ (if 14 == k then bit rq.flags 14 else bit (bit_or rq.flags rq.local_flags) k)
unfolding enter_irq exit_irq
left k rq b =
    bit-bit_or k rq.flags (clear_flags 64 (set_flags rq.local_flags rq_irq) rq_irq)
    ∙ ground (
      arith,
      bit-clear_pow 64 14 k (set_flags rq.local_flags rq_irq),
      bit-set_pow 14 k rq.local_flags,
      bit-bit_or k rq.flags rq.local_flags,
      bit-le rq.flags k,
      ap (λ t. bit rq.flags t),
    )

called-digit : (rq : Rq) → (exit_irq (enter_irq rq)).1 ≡ (sched_digit rq == 1)
called-digit rq =
    let rq' = (exit_irq (enter_irq rq)).0 in
    unfold exit_irq in
    test_flags-pow 28 (bit_or rq'.flags rq'.local_flags)
    ∙ ap (λ d. d == 1) (left 28 rq (omega arith))

-- While an interrupt is handled, `evl_schedule` does nothing. `evl_exit_irq` calls it if and only
-- if a request is pending, in the shared or the local flags; and where RQ_IRQ is not in the shared
-- flags, that call goes through to `__evl_schedule`, on the out-of-band stage.
pub exit_irq_lem :
    {W : Type 0} (resched : W → W) (run_oob_call : (W → W) → W → W) (oob : Bool) (rq : Rq) (w : W)
    → let (rq', called) = exit_irq (enter_irq rq) in
      (schedule resched run_oob_call oob (enter_irq rq) w ≡ w)
      × (called ≡ (sched_digit rq == 1))
      × (bit rq.flags 14 ≡ 0
          → schedule resched run_oob_call oob rq' w
            ≡ (if called then (if oob then resched w else run_oob_call resched w) else w))
unfolding schedule
exit_irq_lem resched run_oob_call oob rq w = (
  rw (pending-irq (enter_irq rq) (entered rq)) refl,
  called-digit rq,
  λ clear. elim (Bool-cases (sched_digit rq == 1)) [
    | inl e ↦
        rw
          (
            called-digit rq,
            e,
            pending-true (exit_irq (enter_irq rq)).0
                (left 28 rq (omega arith) ∙ (==_iff (sched_digit rq) 1).0 e)
                (left 14 rq (omega arith) ∙ clear),
          )
          refl
    | inr e ↦
        rw
          (
            called-digit rq,
            e,
            pending-idle (exit_irq (enter_irq rq)).0 (
                left 28 rq (omega arith)
                ∙ ground (arith, bit-le (bit_or rq.flags rq.local_flags) 28)),
          )
          refl
  ],
)
