-- ===== src/Assert.antt =====
-- kernel-overlay/include/evl/assert.h: assertions. `debug` tells for the subsystem whether its
-- CONFIG_EVL_DEBUG option is on. A warning is a result: whether the kernel's WARN macros warn, which is
-- what they return. WARN_ON_ONCE warns in the log only the first time, but returns the same.
use spacemit_xenomai.Base.{Bool, true, false, not, ◌&&◌}

unfoldable pub evl_assert : Bool → Bool → Bool
evl_assert debug cond = not (debug && not cond)

unfoldable pub evl_warn : Bool → Bool → Bool
evl_warn debug cond = debug && cond

unfoldable pub evl_warn_on : Bool → Bool → Bool
evl_warn_on debug cond = debug && cond

unfoldable pub evl_warn_on_once : Bool → Bool → Bool
evl_warn_on_once debug cond = debug && cond

-- `smp` stands for CONFIG_SMP.
unfoldable pub evl_warn_on_smp : Bool → Bool → Bool → Bool
unfolding evl_warn_on
evl_warn_on_smp true debug cond = evl_warn_on debug cond
evl_warn_on_smp false debug cond = false

unfoldable pub oob_context_only : Bool → Bool → Bool
unfolding evl_warn_on_once
oob_context_only debug running_inband = evl_warn_on_once debug running_inband

unfoldable pub inband_context_only : Bool → Bool → Bool
unfolding evl_warn_on_once
inband_context_only debug running_inband = evl_warn_on_once debug (not running_inband)

-- `is_locked` is what `raw_spin_is_locked` returns.
unfoldable pub assert_hard_lock : Bool → Bool → Bool → Bool → Bool
unfolding evl_warn_on_once
assert_hard_lock true debug is_locked hard_irqs_disabled =
    evl_warn_on_once debug (not (is_locked && hard_irqs_disabled))
assert_hard_lock false debug is_locked hard_irqs_disabled =
    evl_warn_on_once debug (not hard_irqs_disabled)

-- The two warnings, for the thread's lock and for that of its runqueue.
unfoldable pub assert_thread_pinned : Bool → Bool → Bool → Bool → Bool → Bool × Bool
unfolding assert_hard_lock
assert_thread_pinned smp debug thread_locked rq_locked hard_irqs_disabled = (
  assert_hard_lock smp debug thread_locked hard_irqs_disabled,
  assert_hard_lock smp debug rq_locked hard_irqs_disabled,
)
