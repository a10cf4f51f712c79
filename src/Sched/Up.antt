-- ===== src/Sched/Up.antt =====
-- kernel-overlay/include/evl/sched.h, what differs without CONFIG_SMP.
use spacemit_xenomai.Base.{ℕ, Bool, true}
use spacemit_xenomai.Sched.{Rq}
use spacemit_xenomai.Sched.Resched.{set_self_resched}
use spacemit_xenomai.Thread.{Thread}

unfoldable pub is_evl_cpu : ℕ → Bool
is_evl_cpu cpu = true

unfoldable pub rq_cpu : Rq → ℕ
rq_cpu rq = 0

unfoldable pub set_resched : Rq → Rq
unfolding set_self_resched
set_resched rq = set_self_resched rq

unfoldable pub is_threading_cpu : ℕ → Bool
is_threading_cpu cpu = true

unfoldable pub migrate_thread : Thread → ℕ → Thread
migrate_thread thread dst_rq = thread
