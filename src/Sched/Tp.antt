-- ===== src/Sched/Tp.antt =====
-- kernel-overlay/include/evl/sched/tp.h: the time windows of the temporal partitioning class, and
-- what it does to a new thread. Its other operations are not under the repository's root.
use spacemit_xenomai.Base.{ℕ, ◌+◌, ◌-◌, Option, none, List}
use spacemit_xenomai.Sched.Fifo.{fifo_min_prio, fifo_max_prio}
use spacemit_xenomai.Thread.{Thread}
use spacemit_xenomai.Timer.Core.{Timer}

abbrev pub tp_min_prio : ℕ
tp_min_prio = fifo_min_prio

abbrev pub tp_max_prio : ℕ → ℕ
tp_max_prio max_rt_prio = fifo_max_prio max_rt_prio

abbrev pub tp_nr_prio : ℕ → ℕ
tp_nr_prio max_rt_prio = tp_max_prio max_rt_prio - tp_min_prio + 1

pub record TpWindow : Type 0 where
  pub w_offset : ℕ  -- ktime_t
  pub w_part : ℕ  -- int

pub record TpSchedule : Type 0 where
  pub pwin_nr : ℕ  -- int
  pub tf_duration : ℕ  -- ktime_t
  pub refcount : ℕ  -- atomic_t
  pub pwins : List TpWindow

unfoldable pub tp_init_thread : Thread → Thread × ℕ
tp_init_thread thread = (record thread { tps = none }, 0)

-- `struct evl_tp_rq` and `struct evl_sched_tp`, one partition for each of the configuration's; `Q` is
-- the queue of runnable threads. `tps` is a partition's address, `gps` a schedule's.
pub record TpRq (Q : Type 0) : Type 0 where
  pub runnable : Q

pub record SchedTp (Q : Type 0) : Type 0 where
  pub partitions : List (TpRq Q)
  pub idle : TpRq Q
  pub tps : Option ℕ
  pub tf_timer : Timer
  pub gps : Option ℕ
  pub wnext : ℕ  -- int
  pub tf_start : ℕ  -- ktime_t
  pub threads : List ℕ
