-- ===== src/Timer/Up.antt =====
-- kernel-overlay/include/evl/timer.h, the operations that differ without CONFIG_SMP. `this` stands
-- for what `this_evl_rq` returns.
use spacemit_xenomai.Base.{ℕ, Bool, true, not, ◌==◌, if◌then◌else◌}
use spacemit_xenomai.Timer.Core.{Timer}

unfoldable pub get_timer_rq : ℕ → Timer → ℕ
get_timer_rq this t = this

-- `move` stands for `evl_move_timer`.
unfoldable pub prepare_timed_wait : (Timer → ℕ → ℕ → Timer) → Timer → ℕ → ℕ → Timer
prepare_timed_wait move t clock rq = if not (clock == t.clock) then move t clock rq else t

unfoldable pub timer_on_rq : Timer → ℕ → Bool
timer_on_rq t rq = true
