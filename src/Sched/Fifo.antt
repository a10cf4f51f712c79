-- ===== src/Sched/Fifo.antt =====
-- kernel-overlay/include/evl/sched/fifo.h: the SCHED_FIFO class. `max_rt_prio` stands for the
-- kernel's MAX_RT_PRIO, `set_effective` for `evl_set_effective_thread_priority`.
pub mod Order
pub mod Range
pub mod Run
pub mod Sound
pub mod Refine
mod Tests
use spacemit_xenomai.Base.{
  ℕ, ◌+◌, ◌-◌, Bool, true, false, not, ◌||◌, Option, none, some, ◌==◌, if◌then◌else◌, ltb, signed32,
  neg32, test_flags, clear_flags,
}
use spacemit_xenomai.Sched.{SchedParam}
use spacemit_xenomai.Sched.Runnable.{RunQueue}
use spacemit_xenomai.Thread.{Thread}
use spacemit_xenomai.Thread.Flags.{StateFlag, state_flag}

-- EINVAL, of the kernel's errno-base.h.
abbrev pub einval : ℕ
einval = 22

abbrev pub core_min_prio : ℕ
core_min_prio = 0

abbrev pub core_max_prio : ℕ → ℕ
core_max_prio max_rt_prio = max_rt_prio + 1

abbrev pub core_nr_prio : ℕ → ℕ
core_nr_prio max_rt_prio = core_max_prio max_rt_prio - core_min_prio + 1

abbrev pub fifo_min_prio : ℕ
fifo_min_prio = 1

abbrev pub fifo_max_prio : ℕ → ℕ
fifo_max_prio max_rt_prio = max_rt_prio - 1

-- The threads by address, and the queue of runnable FIFO threads of each runqueue.
pub record Core (run : RunQueue) : Type 0 where
  pub threads : ℕ → Thread
  pub runnable : ℕ → run.Queue

module _ (run : RunQueue) where
  open run use {add_schedq, add_schedq_tail, del_schedq}

  abbrev pub cprio_of : Core run → ℕ → ℕ
  cprio_of s t = (s.threads t).cprio

  -- The queue that a thread's FIFO operations work on.
  abbrev pub queue_of : Core run → ℕ → run.Queue
  queue_of s t = s.runnable (s.threads t).rq

  abbrev put_queue : Core run → ℕ → run.Queue → Core run
  put_queue s t q = record s {
    runnable = λ rq. if rq == (s.threads t).rq then q else s.runnable rq;
  }

  unfoldable pub requeue_fifo_thread : Core run → ℕ → Core run
  requeue_fifo_thread s t = put_queue s t (add_schedq (cprio_of s) (queue_of s t) t)

  unfoldable pub enqueue_fifo_thread : Core run → ℕ → Core run
  enqueue_fifo_thread s t = put_queue s t (add_schedq_tail (cprio_of s) (queue_of s t) t)

  unfoldable pub dequeue_fifo_thread : Core run → ℕ → Core run
  dequeue_fifo_thread s t = put_queue s t (del_schedq (cprio_of s) (queue_of s t) t)

unfoldable pub chk_fifo_schedparam : ℕ → Thread → SchedParam → ℕ
chk_fifo_schedparam max_rt_prio thread p =
    let user = test_flags thread.state (state_flag StateFlag.user) in
    let low = if not user then core_min_prio else fifo_min_prio in
    let high = if not user then core_max_prio max_rt_prio else fifo_max_prio max_rt_prio in
    if ltb (signed32 p.prio) (signed32 low) || ltb (signed32 high) (signed32 p.prio)
    then neg32 einval
    else 0

unfoldable pub set_fifo_schedparam :
    (Thread → ℕ → Thread × Bool) → Thread → SchedParam → Thread × Bool
set_fifo_schedparam set_effective thread p =
    let (thread', ret) = set_effective thread p.prio in
    (
      if not (test_flags thread'.state (state_flag StateFlag.boost))
          then record thread' { state = clear_flags 32 thread'.state (state_flag StateFlag.weak) }
          else thread',
      ret,
    )

unfoldable pub get_fifo_schedparam : Thread → SchedParam → SchedParam
get_fifo_schedparam thread p = record p { prio = thread.cprio }

unfoldable pub track_fifo_priority : Thread → Option SchedParam → Thread
track_fifo_priority thread (some p) = record thread { cprio = p.prio }
track_fifo_priority thread none = record thread {
  cprio = thread.bprio;
  state = clear_flags 32 thread.state (state_flag StateFlag.weak);
}

unfoldable pub ceil_fifo_priority : Thread → ℕ → Thread
ceil_fifo_priority thread prio = record thread { cprio = prio }

unfoldable pub forget_fifo_thread : Thread → Thread
forget_fifo_thread thread = thread

unfoldable pub init_fifo_thread : Thread → ℕ
init_fifo_thread thread = 0
