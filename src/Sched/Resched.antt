-- ===== src/Sched/Resched.antt =====
-- kernel-overlay/include/evl/sched.h and kernel-overlay/include/evl/irq.h: the rescheduling flags of
-- a runqueue. `rqs` is the memory of runqueues, `this` the address of the one of the current CPU.
-- Locks are not represented: the caller of `evl_set_resched` holds that of the runqueue.
pub mod Marks
pub mod Deferred
pub mod Nesting
pub mod Remote
use spacemit_xenomai.Base.{
  List, [], ◌∷◌, subst, ap₂, ◌≡◌, ◌≢◌, ◌↔◌, refl, sym, ap, ◌∙◌, inl, inr, Bool-cases, ==_iff,
  ℕ_discrete, arith, only_second_flag, bit-set_pow, test_flags-pow, bit-bit_or, bit-le, ℕ, ◌^◌,
  Bool, true, false, not, ◌||◌, ◌==◌, if◌then◌else◌, bit, bit_and, bit_or, test_flags, set_flags,
  clear_flags,
}
use spacemit_xenomai.Sched.{Rq, rq_sched, rq_irq}

-- One runqueue of the memory is written.
abbrev pub put_rq : (ℕ → Rq) → ℕ → Rq → ℕ → Rq
put_rq rqs a rq b = if b == a then rq else rqs b

unfoldable pub need_resched : Rq → Bool
need_resched rq = test_flags rq.flags rq_sched

unfoldable pub set_self_resched : Rq → Rq
set_self_resched rq = record rq { flags = set_flags rq.flags rq_sched }

-- `cpumask_test_cpu` and `cpumask_set_cpu`
abbrev pub cpumask_test_cpu : ℕ → ℕ → Bool
cpumask_test_cpu cpu mask = bit mask cpu == 1

abbrev pub cpumask_set_cpu : ℕ → ℕ → ℕ
cpumask_set_cpu cpu mask = bit_or mask (2 ^ cpu)

unfoldable pub is_evl_cpu : ℕ → ℕ → Bool
is_evl_cpu oob_cpus cpu = cpumask_test_cpu cpu oob_cpus

-- `for_each_evl_cpu`: the CPUs that the loop visits, of those that are online.
unfoldable pub evl_cpus : ℕ → List ℕ → List ℕ
unfolding is_evl_cpu
evl_cpus oob_cpus [] = []
evl_cpus oob_cpus (cpu ∷ cpus) =
    let rest = evl_cpus oob_cpus cpus in if is_evl_cpu oob_cpus cpu then cpu ∷ rest else rest

unfoldable pub is_threading_cpu : ℕ → ℕ → Bool
is_threading_cpu cpu_affinity cpu = cpumask_test_cpu cpu cpu_affinity

unfoldable pub rq_cpu : Rq → ℕ
rq_cpu rq = rq.cpu

unfoldable pub set_resched : (ℕ → Rq) → ℕ → ℕ → ℕ → Rq
unfolding need_resched rq_cpu
set_resched rqs this rq =
    if this == rq
    then put_rq rqs this (record (rqs this) { flags = set_flags (rqs this).flags rq_sched })
    else (if not (need_resched (rqs rq))
        then (let rqs' =
              put_rq rqs rq (record (rqs rq) { flags = set_flags (rqs rq).flags rq_sched }) in
            put_rq rqs' this (record (rqs' this) {
              local_flags = set_flags (rqs' this).local_flags rq_sched;
              resched_cpus = cpumask_set_cpu (rq_cpu (rqs' rq)) (rqs' this).resched_cpus;
            }))
        else rqs)

-- The test of `evl_schedule` that lets it through.
unfoldable pub resched_pending : Rq → Bool
resched_pending rq = bit_and (bit_or rq.flags rq.local_flags) (bit_or rq_irq rq_sched) == rq_sched

module _ {W : Type 0} where
  -- `resched` stands for `__evl_schedule`, `run_oob_call` for Dovetail's escalation of a call to
  -- the out-of-band stage, and `oob` for what `running_oob` returns.
  unfoldable pub schedule : (W → W) → ((W → W) → W → W) → Bool → Rq → W → W
  unfolding resched_pending
  schedule resched run_oob_call oob rq w =
      if not (resched_pending rq) then w else (if oob then resched w else run_oob_call resched w)

unfoldable pub enter_irq : Rq → Rq
enter_irq rq = record rq { local_flags = set_flags rq.local_flags rq_irq }

-- The runqueue, and whether `evl_schedule` is called.
unfoldable pub exit_irq : Rq → Rq × Bool
exit_irq rq =
    let rq' = record rq { local_flags = clear_flags 64 rq.local_flags rq_irq } in
    (rq', test_flags (bit_or rq'.flags rq'.local_flags) rq_sched)

unfoldable pub in_irq : Rq → Bool
in_irq rq = test_flags rq.local_flags rq_irq
