-- ===== src/Sched/Resched/Nesting/Settled.antt =====
-- Nested code against its specification.
use spacemit_xenomai.Base.{
  ◌≡◌, refl, sym, subst, ap, arith, ℕ, suc, ◌+◌, ◌-◌, ◌^◌, ◌<◌, Bool, true, false, if◌then◌else◌,
  ◌==◌, ==_iff, Bool-cases, inl, inr, u32,
}
use spacemit_xenomai.Sched.{Rq}
use spacemit_xenomai.Sched.Preempt.{disable_preempt, enable_preempt}
use spacemit_xenomai.Sched.Resched.Nesting.{
  Op, request, yield, handler, section, Program, done, next, Machine, evl_schedule, leave_irq, step,
  run, settle, spec_step, spec, op_unnested, unnested, op_depth, depth,
}
use spacemit_xenomai.Sched.Resched.Nesting.Digits.{
  Agrees, Consumes, Escalates, request-Agrees, enter-Agrees, evl_schedule-held, evl_schedule-Agrees,
  leave_irq-Agrees,
}

module _ (resched : ℕ → Rq → Rq × Bool) (run_oob_call : (Machine → Machine) → Machine → Machine)
    (oob : Bool) (consumes : Consumes resched) (escalates : Escalates run_oob_call) where
  -- The count is `c` again, and the machine agrees with the two variables.
  abbrev After : Bool → ℕ → ℕ × Machine → Bool × ℕ → Type 0
  After irq c x s = (x.0 ≡ c) × Agrees irq (x.1) s

  yielded :
      (irq : Bool) (c : ℕ) (m : Machine) (s : Bool × ℕ)
      → Agrees irq m s
      → Agrees irq (evl_schedule resched run_oob_call oob c m) (if irq then s else settle c s)
  yielded true c m s a = rw (evl_schedule-held resched run_oob_call oob c m a) a
  yielded false c m (p, n) a =
      evl_schedule-Agrees resched run_oob_call oob consumes escalates c p n m a

  settle-guarded : (c : ℕ) (s : Bool × ℕ) → (c == 0) ≡ false → settle c s ≡ s
  unfolding settle
  settle-guarded c (p, n) z = rw z refl

  -- The call at the end of a section, if that was the outermost one.
  settled :
      (irq : Bool) (c : ℕ) (m : Machine) (s : Bool × ℕ)
      → Agrees irq m s
      → Agrees irq
          (if c == 0 then evl_schedule resched run_oob_call oob 0 m else m)
          (if irq then s else settle c s)
  settled irq c m s a = elim (Bool-cases (c == 0)) [
    | inl z ↦ rw z (
        subst
          (λ k.
            Agrees irq (evl_schedule resched run_oob_call oob k m) (if irq then s else settle c s))
          ((==_iff c 0).0 z) (yielded irq c m s a))
    | inr z ↦ rw z (guarded irq z a)
  ]
    where
      guarded :
          (irq : Bool)
          → (c == 0) ≡ false
          → Agrees irq m s
          → Agrees irq m (if irq then s else settle c s)
      guarded true z a = a
      guarded false z a = rw (settle-guarded c s z) a

  left_handler :
      (c : ℕ) (x : ℕ × Machine) (s : Bool × ℕ)
      → After true c x s
      → After false c (x.0, leave_irq resched run_oob_call oob (x.0) (x.1)) (settle c s)
  left_handler c (k, m) (p, n) (e, a) = (
    e,
    subst (λ j. Agrees false (leave_irq resched run_oob_call oob k m) (settle j (p, n))) e
        (leave_irq-Agrees resched run_oob_call oob consumes escalates k p n m a),
  )

  continued :
      (p : Program) (irq : Bool) (c : ℕ) (x : ℕ × Machine) (s : Bool × ℕ)
      → After irq c x s
      → ((m : Machine) (s : Bool × ℕ)
          → Agrees irq m s
          → After irq c (run resched run_oob_call oob p (c, m)) (spec irq c p s))
      → After irq c (run resched run_oob_call oob p x) (spec irq c p s)
  continued p irq c (k, m) s (e, a) rest =
      subst (λ k. After irq c (run resched run_oob_call oob p (k, m)) (spec irq c p s)) (sym e)
        (rest m s a)

  disabled : (c : ℕ) (m : Machine) → suc c < 2 ^ 32 → disable_preempt (c, m) ≡ (suc c, m)
  unfolding disable_preempt
  disabled c m h = ap (λ t. (t, m)) (up c h)
    where
      up : (c : ℕ) → suc c < 2 ^ 32 → u32 (c + 1) ≡ suc c
      up c h = omega arith

  released :
      (c k : ℕ) (m : Machine)
      → suc c < 2 ^ 32
      → k ≡ suc c
      → enable_preempt (evl_schedule resched run_oob_call oob 0) (k, m)
        ≡ (c, if c == 0 then evl_schedule resched run_oob_call oob 0 m else m)
  unfolding enable_preempt
  released c k m h e =
      ap (λ t. (t, if t == 0 then evl_schedule resched run_oob_call oob 0 m else m)) (down c k h e)
    where
      down : (c k : ℕ) → suc c < 2 ^ 32 → k ≡ suc c → u32 (k + 2 ^ 32 - 1) ≡ c
      down c k h e = omega arith

  enabled :
      (irq : Bool) (c : ℕ) (x : ℕ × Machine) (s : Bool × ℕ)
      → suc c < 2 ^ 32
      → After irq (suc c) x s
      → After irq c
          (enable_preempt (evl_schedule resched run_oob_call oob 0) x)
          (if irq then s else settle c s)
  enabled irq c (k, m) s h (e, a) =
      subst (λ x. After irq c x (if irq then s else settle c s)) (sym (released c k m h e))
        (refl, settled irq c m s a)

  mutual
    unfolding step run spec_step spec op_unnested unnested op_depth depth

    pub step-After :
        (o : Op) (irq : Bool) (c : ℕ) (m : Machine) (s : Bool × ℕ)
        → op_unnested irq o ≡ true
        → c + op_depth o < 2 ^ 32
        → Agrees irq m s
        → After irq c (step resched run_oob_call oob o (c, m)) (spec_step irq c o s)
    step-After request irq c m s u d a = (refl, request-Agrees a)
    step-After yield irq c m s u d a = (refl, yielded irq c m s a)
    step-After (handler p) true c m s u d a = cc
    step-After (handler p) false c m s u d a =
        left_handler c _ _ (run-After p true c _ s u d (enter-Agrees a))
    step-After (section p) irq c m s u d a = enabled irq c _ _ (omega arith) (
        subst (λ x. After irq (suc c) (run resched run_oob_call oob p x) (spec irq (suc c) p s))
          (sym (disabled c m (omega arith))) (run-After p irq (suc c) m s u (omega arith) a))

    pub run-After :
        (p : Program) (irq : Bool) (c : ℕ) (m : Machine) (s : Bool × ℕ)
        → unnested irq p ≡ true
        → c + depth p < 2 ^ 32
        → Agrees irq m s
        → After irq c (run resched run_oob_call oob p (c, m)) (spec irq c p s)
    run-After done irq c m s u d a = (refl, a)
    run-After (next o p) irq c m s u d a =
        continued p irq c _ _ (step-After o irq c m s (ground arith) (omega arith) a)
          (λ m' s'. run-After p irq c m' s' (ground arith) (omega arith))
