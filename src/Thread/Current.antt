-- ===== src/Thread/Current.antt =====
-- kernel-overlay/include/asm-generic/evl/thread_info.h, kernel-overlay/include/evl/thread.h and
-- kernel-overlay/include/evl/monitor.h: what the core keeps for each task of the kernel. A state is
-- what `dovetail_current_state` or `dovetail_task_state` gives; threads and subscribers are addresses.
use spacemit_xenomai.Base.{ℕ, List, Option, none, not, ◌==◌, if◌then◌else◌}
use spacemit_xenomai.Thread.{UserWindow}
use spacemit_xenomai.Wait.{WaitQueue}

pub record OobThreadState : Type 0 where
  pub thread : Option ℕ
  pub subscriber : Option ℕ
  pub preempt_count : ℕ  -- int

unfoldable pub init_thread_state : OobThreadState → OobThreadState
init_thread_state p = record p { thread = none; subscriber = none; preempt_count = 0 }

unfoldable pub current : OobThreadState → Option ℕ
current p = p.thread

unfoldable pub thread_from_task : OobThreadState → Option ℕ
thread_from_task p = p.thread

unfoldable pub get_subscriber : OobThreadState → Option ℕ
get_subscriber p = p.subscriber

unfoldable pub set_subscriber : OobThreadState → Option ℕ → OobThreadState
set_subscriber p sbr = record p { subscriber = sbr }

-- EVL_NO_HANDLE
abbrev pub no_handle : ℕ
no_handle = 0

-- `commit` stands for `__evl_commit_monitor_ceiling`; the window is the current thread's.
unfoldable pub commit_monitor_ceiling : {W : Type 0} → (W → W) → UserWindow → W → W
commit_monitor_ceiling commit u_window w =
    if not (u_window.pp_pending == no_handle) then commit w else w

-- `struct oob_mm_state` of kernel-overlay/include/asm-generic/evl/mm_info.h.
abbrev pub mm_ptsync_bit : ℕ
mm_ptsync_bit = 0

abbrev pub mm_active_bit : ℕ
mm_active_bit = 30

abbrev pub mm_init_bit : ℕ
mm_init_bit = 31

pub record OobMmState : Type 0 where
  pub flags : ℕ  -- unsigned long
  pub ptrace_sync : List ℕ
  pub ptsync_barrier : WaitQueue

-- `raw_unlock` stands for `raw_spin_unlock` on the lock of the channel at an address. The assertion
-- on the lock is left out.
unfoldable pub put_thread_wchan : {W : Type 0} → (ℕ → W → W) → ℕ → W → W
put_thread_wchan raw_unlock wchan w = raw_unlock wchan w
