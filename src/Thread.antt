-- ===== src/Thread.antt =====
-- kernel-overlay/include/uapi/evl/thread-abi.h and kernel-overlay/include/evl/thread.h: the thread
-- descriptor, its flag words, and the operations on them. Pointers are addresses.
pub mod Flags
pub mod State
pub mod Window
pub mod Lock
pub mod Start
pub mod Current
pub mod Samples
mod Tests
use spacemit_xenomai.Base.{ℕ, List, Option}
use spacemit_xenomai.Stat.Counter.{Counter}
use spacemit_xenomai.Stat.Account.{Account}

-- `struct evl_user_window`, the thread's flags as its user sees them.
pub record UserWindow : Type 0 where
  pub state : ℕ  -- __u32
  pub info : ℕ  -- __u32
  pub pp_pending : ℕ  -- __u32

pub record PollContext : Type 0 where
  pub table : ℕ
  pub generation : ℕ  -- unsigned int
  pub nr : ℕ  -- int
  pub active : ℕ  -- int

pub record ThreadStat : Type 0 where
  pub isw : Counter
  pub csw : Counter
  pub sc : Counter
  pub rwa : Counter
  pub account : Account
  pub lastperiod : Account

-- The scheduling classes that the inline code tells apart: `evl_sched_fifo`, `evl_sched_idle`, and
-- any other by its address.
pub data SchedClass : Type 0 where
  fifo : SchedClass
  idle : SchedClass
  other : ℕ → SchedClass

-- Links of lists and the timers are left to the components that keep them.
pub record Thread : Type 0 where
  pub address : ℕ
  pub rq : ℕ
  pub base_class : SchedClass
  pub sched_class : SchedClass
  pub bprio : ℕ  -- int
  pub cprio : ℕ  -- int
  pub wprio : ℕ  -- int
  pub boosters : List ℕ
  pub quota : Option ℕ
  pub tps : Option ℕ
  pub wchan : Option ℕ
  pub rrperiod : ℕ  -- ktime_t
  pub state : ℕ  -- __u32
  pub info : ℕ  -- __u32
  pub local_info : ℕ  -- __u32
  pub wait_data : ℕ
  pub poll_context : PollContext
  pub held_mutex_count : ℕ  -- atomic_t
  pub stat : ThreadStat
  pub u_window : Option UserWindow
  pub owned_mutexes : List ℕ
  pub affinity : ℕ
  pub raised_cap : ℕ
  pub oob_mm : ℕ
  pub observable : ℕ
  pub name : ℕ

-- `struct evl_kthread`, less its irq_work. `done` is the count of a completion.
pub record Kthread : Type 0 where
  pub thread : Thread
  pub done : ℕ
  pub threadfn : ℕ
  pub status : ℕ  -- int
  pub arg : ℕ
