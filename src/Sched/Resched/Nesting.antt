-- ===== src/Sched/Resched/Nesting.antt =====
-- kernel-overlay/include/evl/irq.h and kernel-overlay/include/evl/sched.h: interrupt handlers,
-- sections with preemption disabled, requests and calls of `evl_schedule`, nested as the code of
-- one CPU nests them. `resched` stands for `__evl_schedule`, as what it does to the runqueue at a
-- preemption count, and whether hard interrupts are on when it returns; `run_oob_call` stands for
-- Dovetail's escalation to the out-of-band stage.
pub mod Digits
pub mod Settled
pub mod Requests
mod Tests
use spacemit_xenomai.Base.{
  ℕ, suc, ◌+◌, ◌&&◌, ◌||◌, ◌==◌, Bool, true, false, not, if◌then◌else◌, length, max,
}
use spacemit_xenomai.Sched.{Rq}
use spacemit_xenomai.Sched.Preempt.{disable_preempt, enable_preempt}
use spacemit_xenomai.Sched.Resched.{schedule, enter_irq, exit_irq, set_self_resched}

mutual
  pub data Op : Type 0 where
    request : Op
    yield : Op
    handler : Program → Op
    section : Program → Op

  pub data Program : Type 0 where
    done : Program
    next : Op → Program → Program

-- The runqueue of the CPU, how often `__evl_schedule` has run at a preemption count of 0, where it
-- may switch threads, and whether hard interrupts are on.
pub record Machine : Type 0 where
  pub rq : Rq
  pub calls : ℕ
  pub irqs_on : Bool

-- `if (!hard_irqs_disabled()) hard_local_irq_disable()`
unfoldable pub shut_off : Machine → Machine
shut_off m = if m.irqs_on then record m { irqs_on = false } else m

-- The CPU takes an interrupt, with hard interrupts off, and the handler is entered.
unfoldable pub take_irq : Machine → Machine
unfolding enter_irq
take_irq m = record m { rq = enter_irq m.rq; irqs_on = false }

module _ (resched : ℕ → Rq → Rq × Bool) (run_oob_call : (Machine → Machine) → Machine → Machine)
    (oob : Bool) where
  -- The first argument is the preemption count.
  unfoldable pub __evl_schedule : ℕ → Machine → Machine
  __evl_schedule c m =
      let (rq, on) = resched c m.rq in
      record { rq = rq; calls = if c == 0 then m.calls + 1 else m.calls; irqs_on = on }

  unfoldable pub evl_schedule : ℕ → Machine → Machine
  unfolding __evl_schedule schedule
  evl_schedule c m = schedule (__evl_schedule c) run_oob_call oob m.rq m

  -- `evl_exit_irq`, its call of `evl_schedule` included.
  unfoldable pub leave_irq : ℕ → Machine → Machine
  unfolding exit_irq evl_schedule shut_off
  leave_irq c m =
      let (rq, called) = exit_irq m.rq in
      let m' : Machine = record m { rq = rq } in if called then shut_off (evl_schedule c m') else m'

  unfoldable mutual
    unfolding take_irq set_self_resched disable_preempt enable_preempt evl_schedule leave_irq

    -- The preemption count and the machine after an operation, and after a program. At the end of a
    -- section the count is 0 where `evl_schedule` is called.
    pub step : Op → ℕ × Machine → ℕ × Machine
    step request (c, m) = (c, record m { rq = set_self_resched m.rq })
    step yield (c, m) = (c, evl_schedule c m)
    step (handler p) (c, m) = let (c', m') = run p (c, take_irq m) in (c', leave_irq c' m')
    step (section p) s = enable_preempt (evl_schedule 0) (run p (disable_preempt s))

    pub run : Program → ℕ × Machine → ℕ × Machine
    run done s = s
    run (next o p) s = run p (step o s)

-- The same on two variables: whether a request is pending, and how often one was served so far. A
-- request waits for the end of the handler and of the outermost section.
unfoldable pub settle : ℕ → Bool × ℕ → Bool × ℕ
settle c (pending, n) = (not (c == 0) && pending, if (c == 0) && pending then n + 1 else n)

unfoldable mutual
  unfolding settle

  pub spec_step : Bool → ℕ → Op → Bool × ℕ → Bool × ℕ
  spec_step irq c request (pending, n) = (true, n)
  spec_step irq c yield s = if irq then s else settle c s
  spec_step irq c (handler p) s = settle c (spec true c p s)
  spec_step irq c (section p) s = let s' = spec irq (suc c) p s in if irq then s' else settle c s'

  pub spec : Bool → ℕ → Program → Bool × ℕ → Bool × ℕ
  spec irq c done s = s
  spec irq c (next o p) s = spec irq c p (spec_step irq c o s)

-- Handlers are not nested in one another: they run with interrupts disabled.
unfoldable mutual
  pub op_unnested : Bool → Op → Bool
  op_unnested irq request = true
  op_unnested irq yield = true
  op_unnested irq (handler p) = if irq then false else unnested true p
  op_unnested irq (section p) = unnested irq p

  pub unnested : Bool → Program → Bool
  unnested irq done = true
  unnested irq (next o p) = op_unnested irq o && unnested irq p

-- How deep the sections nest.
unfoldable mutual
  pub op_depth : Op → ℕ
  op_depth request = 0
  op_depth yield = 0
  op_depth (handler p) = depth p
  op_depth (section p) = suc (depth p)

  pub depth : Program → ℕ
  depth done = 0
  depth (next o p) = max (op_depth o) (depth p)

-- Whether a program makes a request anywhere.
unfoldable mutual
  pub op_requests : Op → Bool
  op_requests request = true
  op_requests yield = false
  op_requests (handler p) = requests p
  op_requests (section p) = requests p

  pub requests : Program → Bool
  requests done = false
  requests (next o p) = op_requests o || requests p
