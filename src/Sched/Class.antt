-- ===== src/Sched/Class.antt =====
-- kernel-overlay/include/evl/sched.h: what the core calls a scheduling class for. `classes` gives
-- the handlers of a class; threads are pinned by the caller.
pub mod Weight
pub mod Boost
pub mod Count
mod Tests
use spacemit_xenomai.Base.{
  ℕ, ◌+◌, ◌-◌, ◌*◌, ◌^◌, Bool, true, false, not, ◌&&◌, Option, none, some, ◌==◌, if◌then◌else◌, u32,
  test_flags,
}
use spacemit_xenomai.Sched.{Rq, SchedParam, ClassOps}
use spacemit_xenomai.Sched.Fifo.{
  Core, requeue_fifo_thread, enqueue_fifo_thread, dequeue_fifo_thread,
}
use spacemit_xenomai.Sched.Quota.{quota_init_thread}
use spacemit_xenomai.Sched.Runnable.{RunQueue}
use spacemit_xenomai.Sched.Tp.{tp_init_thread}
use spacemit_xenomai.Thread.{Thread, SchedClass, fifo, idle, other}
use spacemit_xenomai.Thread.Flags.{block_bits}

-- `==` of class addresses.
abbrev pub same_class : SchedClass → SchedClass → Bool
same_class fifo fifo = true
same_class idle idle = true
same_class (other a) (other b) = a == b
same_class a b = false

-- The threads with their runnable queues, and the `nthreads` member of each class.
pub record State (run : RunQueue) : Type 0 where
  pub core : Core run
  pub nthreads : SchedClass → ℕ  -- int

-- EVL_CLASS_WEIGHT
abbrev pub class_weight : ℕ → ℕ
class_weight n = n * 1024

module _ (run : RunQueue) where
  abbrev pub thread_at : State run → ℕ → Thread
  thread_at s t = s.core.threads t

  abbrev pub put_thread : State run → ℕ → Thread → State run
  put_thread s t thread = record s {
    core = record s.core { threads = λ a. if a == t then thread else s.core.threads a };
  }

-- With CONFIG_EVL_SCHED_QUOTA and CONFIG_EVL_SCHED_TP. What the initialisers of the idle and FIFO
-- classes return is not looked at, and neither writes the thread.
unfoldable pub init_rq_thread : Thread → Thread × ℕ
unfolding quota_init_thread tp_init_thread
init_rq_thread thread =
    let (thread', ret) = quota_init_thread thread in
    let (thread'', ret') = tp_init_thread thread' in
    if not (ret == 0) then (thread', ret) else (thread'', ret')

module _ (run : RunQueue) (classes : SchedClass → ClassOps (State run)) where
  abbrev pub class_of : State run → ℕ → SchedClass
  class_of s t = (thread_at run s t).sched_class

  abbrev pub base_of : State run → ℕ → SchedClass
  base_of s t = (thread_at run s t).base_class

  -- `preempt_count` stands for what `evl_preempt_count` returns.
  unfoldable pub sched_yield : ℕ → Rq → State run → State run
  sched_yield preempt_count rq s =
      let curr = rq.curr in
      elim (classes (class_of s curr)).sched_yield [
        | none ↦ s
        | some yield ↦
            if not (test_flags (thread_at run s curr).state block_bits)
              && same_class (class_of s curr) (base_of s curr)
              && (preempt_count == 0)
            then yield curr s
            else s
      ]

  unfoldable pub check_schedparams : SchedClass → ℕ → SchedParam → State run → ℕ
  check_schedparams c t p s = elim (classes c).sched_chkparam [ none ↦ 0 | some chk ↦ chk t p s ]

  abbrev count_thread : SchedClass → ℕ → State run → State run
  count_thread c t s =
      if not (same_class c (base_of s t))
      then record s {
        nthreads = λ d. if same_class d c then u32 (s.nthreads c + 1) else s.nthreads d;
      }
      else s

  unfoldable pub declare_thread : SchedClass → ℕ → SchedParam → State run → State run × ℕ
  declare_thread c t p s = elim (classes c).sched_declare [
    | none ↦ (count_thread c t s, 0)
    | some declare ↦
        let (s', ret) = declare t p s in
        if not (ret == 0) then (s', ret) else (count_thread c t s', 0)
  ]

  unfoldable pub calc_weighted_prio : SchedClass → ℕ → ℕ
  calc_weighted_prio c prio = u32 (prio + (classes c).weight)

  abbrev on_core : State run → (Core run → Core run) → State run
  on_core s f = record s { core = f s.core }

  unfoldable pub enqueue_thread : State run → ℕ → State run
  unfolding enqueue_fifo_thread
  enqueue_thread s t = elim (class_of s t) [
    | fifo ↦ on_core s (λ c. enqueue_fifo_thread run c t)
    | idle ↦ s
    | other a ↦ (classes (other a)).sched_enqueue t s
  ]

  unfoldable pub dequeue_thread : State run → ℕ → State run
  unfolding dequeue_fifo_thread
  dequeue_thread s t = elim (class_of s t) [
    | fifo ↦ on_core s (λ c. dequeue_fifo_thread run c t)
    | idle ↦ s
    | other a ↦ (classes (other a)).sched_dequeue t s
  ]

  unfoldable pub requeue_thread : State run → ℕ → State run
  unfolding requeue_fifo_thread
  requeue_thread s t = elim (class_of s t) [
    | fifo ↦ on_core s (λ c. requeue_fifo_thread run c t)
    | idle ↦ s
    | other a ↦ (classes (other a)).sched_requeue t s
  ]

  unfoldable pub set_schedparam : State run → ℕ → SchedParam → State run × Bool
  set_schedparam s t p = (classes (base_of s t)).sched_setparam t (some p) s

  unfoldable pub get_schedparam : State run → ℕ → SchedParam → SchedParam
  get_schedparam s t p = (classes (class_of s t)).sched_getparam t p s

  -- `thread->wprio = evl_calc_weighted_prio(thread->sched_class, thread->cprio)`
  unfoldable pub update_wprio : State run → ℕ → State run
  unfolding calc_weighted_prio
  update_wprio s t =
      let thread = thread_at run s t in
      put_thread run s t
        (record thread { wprio = calc_weighted_prio thread.sched_class thread.cprio })

  unfoldable pub track_priority : State run → ℕ → Option SchedParam → State run
  unfolding update_wprio
  track_priority s t p = update_wprio ((classes (class_of s t)).sched_trackprio t p s) t

  unfoldable pub ceil_priority : State run → ℕ → ℕ → State run
  unfolding update_wprio
  ceil_priority s t prio = update_wprio ((classes (class_of s t)).sched_ceilprio t prio s) t

  unfoldable pub forget_thread : State run → ℕ → State run
  forget_thread s t =
      let c = base_of s t in
      let s' = record s {
        nthreads = λ d. if same_class d c then u32 (s.nthreads c + 2 ^ 32 - 1) else s.nthreads d;
      } in
      elim (classes c).sched_forget [ none ↦ s' | some forget ↦ forget t s' ]

  unfoldable pub force_thread : State run → ℕ → State run
  force_thread s t = elim (classes (base_of s t)).sched_kick [ none ↦ s | some kick ↦ kick t s ]
