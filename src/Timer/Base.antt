-- ===== src/Timer/Base.antt =====
-- kernel-overlay/include/evl/timer.h: the timer bases of a clock, how timers are initialised, and
-- what is left of their statistics without CONFIG_EVL_RUNSTATS. Bases, runqueues, handlers and names
-- are addresses; the clock is its `timerdata`, or its address.
use spacemit_xenomai.Base.{ℕ, ◌+◌, Option, none, some, List}
use spacemit_xenomai.Timer.Core.{Timer, timer_kgravity, timer_ugravity}

-- EVL_TIMER_IGRAVITY, the most conservative one.
abbrev pub timer_igravity : ℕ
timer_igravity = 0

-- The masks are unions of different bits.
abbrev pub timer_gravity_mask : ℕ
timer_gravity_mask = timer_kgravity + timer_ugravity

abbrev pub timer_init_mask : ℕ
timer_init_mask = timer_gravity_mask

pub record TimerBase : Type 0 where
  pub lock : ℕ
  pub q : List ℕ

-- `per_cpu_ptr` and `raw_cpu_ptr` are the kernel's.
unfoldable pub percpu_timers : (ℕ → ℕ → ℕ) → ℕ → ℕ → ℕ
percpu_timers per_cpu_ptr timerdata cpu = per_cpu_ptr timerdata cpu

unfoldable pub this_cpu_timers : (ℕ → ℕ) → ℕ → ℕ
this_cpu_timers raw_cpu_ptr timerdata = raw_cpu_ptr timerdata

-- `delta` stands for `__evl_get_timer_delta`.
unfoldable pub get_stopped_timer_delta : (Timer → ℕ) → Timer → ℕ
get_stopped_timer_delta delta t = delta t

-- `init` stands for `__evl_init_timer`, given a clock, a handler, a runqueue, a name and flags.
module _ {W : Type 0} (init : ℕ → ℕ → ℕ → Option ℕ → ℕ → ℕ → W → W) where
  -- `name_of` is the text of a handler in the call.
  unfoldable pub init_timer_on_rq : (ℕ → ℕ) → ℕ → ℕ → ℕ → Option ℕ → ℕ → W → W
  init_timer_on_rq name_of timer clock handler rq flags w =
      init timer clock handler rq (name_of handler) flags w

  -- `mono` is the address of `evl_mono_clock`.
  unfoldable pub init_timer_on_cpu : (ℕ → ℕ) → (ℕ → ℕ) → ℕ → ℕ → ℕ → ℕ → W → W
  unfolding init_timer_on_rq
  init_timer_on_cpu name_of cpu_rq mono timer cpu handler w =
      init_timer_on_rq name_of timer mono handler (some (cpu_rq cpu)) timer_igravity w

  unfoldable pub init_timer : (ℕ → ℕ) → ℕ → ℕ → ℕ → W → W
  unfolding init_timer_on_rq
  init_timer name_of mono timer handler w =
      init_timer_on_rq name_of timer mono handler none timer_igravity w

unfoldable pub reset_timer_stats : Timer → Timer
reset_timer_stats timer = timer

unfoldable pub account_timer_scheduled : Timer → Timer
account_timer_scheduled timer = timer

unfoldable pub account_timer_fired : Timer → Timer
account_timer_fired timer = timer
