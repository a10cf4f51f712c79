-- ===== src/Thread/State.antt =====
-- kernel-overlay/include/evl/thread.h: the operations that read a thread's words. Functions that
-- thread.h only declares are arguments; `W` is the machine's state that they change.
use spacemit_xenomai.Base.{ℕ, Bool, Option, none, some, if◌then◌else◌, test_flags}
use spacemit_xenomai.Thread.{Thread, Kthread}
use spacemit_xenomai.Thread.Flags.{StateFlag, InfoFlag, state_flag, info_flag}

unfoldable pub thread_rq : Thread → ℕ
thread_rq t = t.rq

-- `current` is the thread that Dovetail keeps for the running task, if it has one.
unfoldable pub current_rq : Thread → ℕ
unfolding thread_rq
current_rq current = thread_rq current

module _ {W : Type 0} where
  -- `cancel` stands for `__evl_test_cancel`.
  unfoldable pub test_cancel : (Thread → W → W) → Option Thread → W → W
  test_cancel cancel none w = w
  test_cancel cancel (some curr) w =
      if test_flags curr.info (info_flag InfoFlag.canceld) then cancel curr w else w

  -- `propagate` stands for `__evl_propagate_schedparam_change`.
  unfoldable pub propagate_schedparam_change : (Thread → W → W) → Thread → W → W
  propagate_schedparam_change propagate curr w =
      if test_flags curr.info (info_flag InfoFlag.schedp) then propagate curr w else w

  -- `cancel` and `join` stand for `evl_cancel_thread` and `evl_join_thread`.
  unfoldable pub stop_kthread : (Thread → W → W) → (Thread → Bool → W → W × ℕ) → Kthread → W → W
  stop_kthread cancel join k w = (join k.thread Bool.true (cancel k.thread w)).0

  -- `unblock` stands for `evl_unblock_thread`.
  unfoldable pub unblock_kthread : (Thread → ℕ → W → W) → Kthread → ℕ → W → W
  unblock_kthread unblock k reason w = unblock k.thread reason w

  unfoldable pub join_kthread : (Thread → Bool → W → W × ℕ) → Kthread → Bool → W → W × ℕ
  join_kthread join k uninterruptible w = join k.thread uninterruptible w

unfoldable pub kthread_should_stop : Thread → Bool
kthread_should_stop current = test_flags current.info (info_flag InfoFlag.canceld)

-- `container_of` gives the kernel thread that a thread stands in.
unfoldable pub current_kthread : (Thread → Kthread) → Option Thread → Option Kthread
current_kthread container_of none = none
current_kthread container_of (some t) =
    if test_flags t.state (state_flag StateFlag.user) then none else some (container_of t)
