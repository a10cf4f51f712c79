-- ===== src/Sched.antt =====
-- kernel-overlay/include/evl/sched.h and kernel-overlay/include/evl/sched/param.h: the runqueue, the
-- scheduling parameters and the scheduling classes. CONFIG_SMP, CONFIG_EVL_SCHED_QUOTA,
-- CONFIG_EVL_SCHED_TP and CONFIG_EVL_RUNSTATS are on. Threads and runqueues are addresses.
pub mod Resched
pub mod Preempt
pub mod Pin
pub mod Class
pub mod Fifo
pub mod Idle
pub mod Quota
pub mod Tp
pub mod Weak
pub mod Up
pub mod Cpu
pub mod Runnable
pub mod Samples
mod Tests
use spacemit_xenomai.Base.{ℕ, Bool, Option}
use spacemit_xenomai.Stat.Account.{RqAccounting}
use spacemit_xenomai.Timer.Core.{Timer}

abbrev pub rq_sched : ℕ
rq_sched = 0x10000000

abbrev pub rq_timer : ℕ
rq_timer = 0x00010000

abbrev pub rq_tproxy : ℕ
rq_tproxy = 0x00008000

abbrev pub rq_irq : ℕ
rq_irq = 0x00004000

abbrev pub rq_tdefer : ℕ
rq_tdefer = 0x00002000

abbrev pub rq_idle : ℕ
rq_idle = 0x00001000

abbrev pub rq_tstopped : ℕ
rq_tstopped = 0x00000800

-- `struct evl_rq`, less its locks and the policies' own data, which their components keep.
pub record Rq : Type 0 where
  pub flags : ℕ  -- unsigned long
  pub curr : ℕ
  pub accounting : RqAccounting
  pub local_flags : ℕ  -- unsigned long
  pub cpu : ℕ
  pub resched_cpus : ℕ  -- struct cpumask, a digit for each CPU
  pub inband_timer : Timer
  pub rrbtimer : Timer
  pub proxy_timer_name : ℕ
  pub rrb_timer_name : ℕ

-- `union evl_sched_param`: each member starts with the priority, so all of them read it at the same
-- place; `id` is the second word, `tgid` or `ptid`.
pub record SchedParam : Type 0 where
  pub prio : ℕ  -- int
  pub id : ℕ  -- int

-- `struct evl_sched_class`. A handler works on the scheduler's state `W`; `none` is a null pointer.
pub record ClassOps (W : Type 0) : Type 0 where
  pub sched_init : Option (ℕ → W → W)
  pub sched_enqueue : ℕ → W → W
  pub sched_dequeue : ℕ → W → W
  pub sched_requeue : ℕ → W → W
  pub sched_pick : ℕ → W → W × Option ℕ
  pub sched_yield : Option (ℕ → W → W)
  pub sched_migrate : Option (ℕ → ℕ → W → W)
  pub sched_setparam : ℕ → Option SchedParam → W → W × Bool
  pub sched_getparam : ℕ → SchedParam → W → SchedParam
  pub sched_chkparam : Option (ℕ → SchedParam → W → ℕ)
  pub sched_trackprio : ℕ → Option SchedParam → W → W
  pub sched_ceilprio : ℕ → ℕ → W → W
  pub sched_declare : Option (ℕ → SchedParam → W → W × ℕ)
  pub sched_forget : Option (ℕ → W → W)
  pub sched_kick : Option (ℕ → W → W)
  pub weight : ℕ  -- int
  pub policy : ℕ  -- int
  pub name : ℕ
