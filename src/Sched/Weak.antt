-- ===== src/Sched/Weak.antt =====
-- kernel-overlay/include/evl/sched/weak.h: the SCHED_WEAK class.
use spacemit_xenomai.Base.{ℕ, ◌+◌, ◌-◌}
use spacemit_xenomai.Thread.{Thread}

abbrev pub weak_min_prio : ℕ
weak_min_prio = 0

abbrev pub weak_max_prio : ℕ
weak_max_prio = 99

abbrev pub weak_nr_prio : ℕ
weak_nr_prio = weak_max_prio - weak_min_prio + 1

-- `struct evl_sched_weak`, for a form of the queue of runnable threads.
pub record SchedWeak (Queue : Type 0) : Type 0 where
  pub runnable : Queue

unfoldable pub weak_init_thread : Thread → ℕ
weak_init_thread thread = 0
