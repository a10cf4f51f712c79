-- ===== src/Sched/Quota.antt =====
-- kernel-overlay/include/evl/sched/quota.h: the groups of the quota class, and what it does to a new
-- thread. Its other operations are only declared there.
use spacemit_xenomai.Base.{ℕ, ◌+◌, ◌-◌, none, List}
use spacemit_xenomai.Sched.Fifo.{fifo_min_prio, fifo_max_prio}
use spacemit_xenomai.Thread.{Thread}
use spacemit_xenomai.Timer.Core.{Timer}

abbrev pub quota_min_prio : ℕ
quota_min_prio = fifo_min_prio

abbrev pub quota_max_prio : ℕ → ℕ
quota_max_prio max_rt_prio = fifo_max_prio max_rt_prio

abbrev pub quota_nr_prio : ℕ → ℕ
quota_nr_prio max_rt_prio = quota_max_prio max_rt_prio - quota_min_prio + 1

-- Threads and groups are addresses.
pub record QuotaGroup : Type 0 where
  pub rq : ℕ
  pub quota : ℕ  -- ktime_t
  pub quota_peak : ℕ  -- ktime_t
  pub run_start : ℕ  -- ktime_t
  pub run_budget : ℕ  -- ktime_t
  pub run_credit : ℕ  -- ktime_t
  pub members : List ℕ
  pub expired : List ℕ
  pub nr_active : ℕ  -- int
  pub nr_threads : ℕ  -- int
  pub tgid : ℕ  -- int
  pub quota_percent : ℕ  -- int
  pub quota_peak_percent : ℕ  -- int

pub record SchedQuota : Type 0 where
  pub period : ℕ  -- ktime_t
  pub refill_timer : Timer
  pub limit_timer : Timer
  pub groups : List ℕ

-- The link `quota_expired` is not represented.
unfoldable pub quota_init_thread : Thread → Thread × ℕ
quota_init_thread thread = (record thread { quota = none }, 0)

-- `struct evl_sched_group` of evl/sched.h, less its link.
pub record SchedGroup : Type 0 where
  pub quota : QuotaGroup
