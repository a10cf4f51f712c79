-- ===== src/Sched/Fifo/Range.antt =====
-- The priorities that `__evl_chk_fifo_schedparam` lets through.
use spacemit_xenomai.Base.{
  ℕ, ◌+◌, ◌^◌, ◌≤◌, ◌<◌, ◌≡◌, Bool, ◌⊎◌, inl, inr, Bool-cases, arith, neg32, test_flags,
  if◌then◌else◌,
}
use spacemit_xenomai.Sched.{SchedParam}
use spacemit_xenomai.Sched.Fifo.{chk_fifo_schedparam, core_nr_prio, einval}
use spacemit_xenomai.SchedQueue.Mlq.{get_qindex}
use spacemit_xenomai.Thread.{Thread}
use spacemit_xenomai.Thread.Flags.{StateFlag, state_flag}

abbrev pub is_user : Thread → Bool
is_user thread = test_flags thread.state (state_flag StateFlag.user)

-- The priorities of a thread: from 1 to MAX_RT_PRIO - 1 for a user thread, else from 0 to
-- MAX_RT_PRIO + 1.
abbrev pub Accepts : ℕ → Thread → ℕ → Type 0
Accepts max_rt_prio thread prio =
    if is_user thread then (1 ≤ prio) × (prio + 1 ≤ max_rt_prio) else (prio ≤ max_rt_prio + 1)

-- `__evl_chk_fifo_schedparam` returns 0 or -EINVAL: 0 if and only if the priority is one of the
-- thread's. The level of a priority that it accepts is within the heads of the multi-level queue.
pub chk_fifo_schedparam_lem :
    (max_rt_prio : ℕ) (thread : Thread) (p : SchedParam)
    → 1 ≤ max_rt_prio
    → max_rt_prio < 2 ^ 30
    → p.prio < 2 ^ 32
    → let ret = chk_fifo_schedparam max_rt_prio thread p in
      ((ret ≡ 0) ⊎ (ret ≡ neg32 einval))
      × (ret ≡ 0 → Accepts max_rt_prio thread p.prio)
      × (Accepts max_rt_prio thread p.prio → ret ≡ 0)
      × (ret ≡ 0 → get_qindex (core_nr_prio max_rt_prio) p.prio < core_nr_prio max_rt_prio)
unfolding chk_fifo_schedparam get_qindex
chk_fifo_schedparam_lem max_rt_prio thread p pos small word = elim (Bool-cases (is_user thread)) [
  | inl e ↦ rw e (ground arith)
  | inr e ↦ rw e (ground arith)
]
