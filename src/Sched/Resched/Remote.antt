-- ===== src/Sched/Resched/Remote.antt =====
-- kernel-overlay/include/evl/sched.h: rescheduling requests that the CPUs make of one another, in any
-- order.
pub mod Growth
pub mod Signals
use spacemit_xenomai.Base.{
  ℕ, ◌≤◌, ◌≡◌, ◌≢◌, ◌⊎◌, inl, inr, refl, sym, subst, ap, ◌∙◌, Bool-cases, ==_iff, arith,
  bit-set_pow, bit-bit_or, bit-le, List, [], ◌∷◌, true, false, ◌==◌, Bool, ◌&&◌, ◌||◌, bit, bit_or,
  set_flags,
}
use spacemit_xenomai.Sched.{Rq, rq_sched}
use spacemit_xenomai.Sched.Resched.{put_rq, need_resched, cpumask_set_cpu, rq_cpu, set_resched}
use spacemit_xenomai.Sched.Resched.Marks.{sched_digit, set_resched_lem}

-- A call of `evl_set_resched`: the CPU that makes it, by its runqueue, and the runqueue it is for.
pub record Call : Type 0 where
  pub this : ℕ
  pub rq : ℕ

unfoldable pub run_calls : (ℕ → Rq) → List Call → ℕ → Rq
run_calls rqs [] = rqs
run_calls rqs (c ∷ calls) = run_calls (set_resched rqs c.this c.rq) calls

-- Whether a call is for `q`, and whether `q`'s own CPU makes one for it.
abbrev pub wanted : List Call → ℕ → Bool
wanted [] q = false
wanted (c ∷ calls) q = c.rq == q || wanted calls q

abbrev pub asks : List Call → ℕ → Bool
asks [] q = false
asks (c ∷ calls) q = (c.this == q && c.rq == q) || asks calls q
