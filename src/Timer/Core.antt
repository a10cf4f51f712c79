-- ===== src/Timer/Core.antt =====
-- kernel-overlay/include/evl/timer.h: the timer and its operations. Clocks, runqueues, timer bases,
-- handlers and names are addresses. A timer's date stands in its node, so it is read and written
-- through the memory of dates. CONFIG_SMP and CONFIG_EVL_RUNSTATS are on. The operations that
-- timer.h only declares are arguments.
use spacemit_xenomai.Base.{
  ℕ, ◌+◌, ◌-◌, ◌*◌, ◌^◌, Bool, List, not, ◌||◌, ◌==◌, leb, if◌then◌else◌, u64, signed64, test_flags,
  set_flags, clear_flags,
}
use spacemit_xenomai.Clock.{Gravity}
use spacemit_xenomai.Stat.Counter.{Counter, inc_counter, set_counter}
use spacemit_xenomai.Timer.Queue.{insert_tnode, remove_tnode}

abbrev pub timer_dequeued : ℕ
timer_dequeued = 0x00000001

abbrev pub timer_killed : ℕ
timer_killed = 0x00000002

abbrev pub timer_periodic : ℕ
timer_periodic = 0x00000004

abbrev pub timer_fired : ℕ
timer_fired = 0x00000010

abbrev pub timer_running : ℕ
timer_running = 0x00000020

abbrev pub timer_kgravity : ℕ
timer_kgravity = 0x00000040

abbrev pub timer_ugravity : ℕ
timer_ugravity = 0x00000080

pub record Timer : Type 0 where
  pub clock : ℕ
  pub node : ℕ
  pub status : ℕ  -- int
  pub interval : ℕ  -- ktime_t, 0 for a timer that fires once
  pub start_date : ℕ  -- ktime_t
  pub consumed_ticks : ℕ  -- u64
  pub periodic_ticks : ℕ  -- u64
  pub rq : ℕ
  pub base : ℕ
  pub handler : ℕ
  pub name : ℕ
  pub scheduled : Counter
  pub fired : Counter

-- EVL_INFINITE
abbrev pub infinite : ℕ
infinite = 0

unfoldable pub timer_is_running : Timer → Bool
timer_is_running t = test_flags t.status timer_running

unfoldable pub timer_is_periodic : Timer → Bool
timer_is_periodic t = test_flags t.status timer_periodic

-- `stop` stands for `__evl_stop_timer`.
unfoldable pub stop_timer : (Timer → Timer) → Timer → Timer
unfolding timer_is_running
stop_timer stop t = if timer_is_running t then stop t else t

-- `now` gives `evl_read_clock` of a clock; a sum of `ktime_t` wraps.
unfoldable pub abs_timeout : (ℕ → ℕ) → Timer → ℕ → ℕ
abs_timeout now t delta = u64 (now t.clock + delta)

-- `gravity` gives the member of that name of a clock.
unfoldable pub get_timer_gravity : (ℕ → Gravity) → Timer → ℕ
get_timer_gravity gravity t =
    let g = gravity t.clock in
    if test_flags t.status timer_kgravity
    then g.kernel
    else (if test_flags t.status timer_ugravity then g.user else g.irq)

-- `evl_tdate(timer)`
abbrev pub tdate : (ℕ → ℕ) → Timer → ℕ
tdate dates t = dates t.node

-- The node at one address gets a new date.
abbrev pub set_date : (ℕ → ℕ) → ℕ → ℕ → ℕ → ℕ
set_date dates node d n = if n == node then d else dates n

-- The product, the difference and the sum are those of 64-bit words.
unfoldable pub update_timer_date : (ℕ → Gravity) → (ℕ → ℕ) → Timer → ℕ → ℕ
unfolding get_timer_gravity
update_timer_date gravity dates t = set_date dates t.node (
    u64 (
      t.start_date
      + u64 (u64 (t.periodic_ticks * t.interval) + 2 ^ 64 - get_timer_gravity gravity t)))

unfoldable pub get_timer_next_date : Timer → ℕ
get_timer_next_date t = u64 (t.start_date + u64 (t.consumed_ticks * t.interval))

-- The ideal expiry date, without anticipation.
unfoldable pub get_timer_expiry : (ℕ → Gravity) → (ℕ → ℕ) → Timer → ℕ
unfolding get_timer_gravity
get_timer_expiry gravity dates t = u64 (tdate dates t + get_timer_gravity gravity t)

-- `delta` stands for `__evl_get_timer_delta`.
unfoldable pub get_timer_delta : (Timer → ℕ) → Timer → ℕ
unfolding timer_is_running
get_timer_delta delta t = if not (timer_is_running t) then infinite else delta t

unfoldable pub get_stopped_timer_delta : (Timer → ℕ) → Timer → ℕ
get_stopped_timer_delta delta t =
    let d = delta t in if leb (signed64 d) (signed64 1) then infinite else d

unfoldable pub reset_timer_stats : Timer → Timer
reset_timer_stats t = record t {
  scheduled = set_counter t.scheduled 0;
  fired = set_counter t.fired 0;
}

unfoldable pub account_timer_scheduled : Timer → Timer
account_timer_scheduled t = record t { scheduled = (inc_counter t.scheduled).1 }

unfoldable pub account_timer_fired : Timer → Timer
account_timer_fired t = record t { fired = (inc_counter t.fired).1 }

unfoldable pub set_timer_name : Timer → ℕ → Timer
set_timer_name t name = record t { name = name }

unfoldable pub dequeue_timer : Timer → List ℕ → Timer × List ℕ
dequeue_timer t tq =
    (record t { status = set_flags t.status timer_dequeued }, remove_tnode tq t.node)

unfoldable pub enqueue_timer : (ℕ → ℕ) → Timer → List ℕ → Timer × List ℕ
unfolding account_timer_scheduled
enqueue_timer dates t tq =
    let tq' = insert_tnode dates tq t.node in
    let t' = record t { status = clear_flags 32 t.status timer_dequeued } in
    (account_timer_scheduled t', tq')

-- `move` stands for `evl_move_timer`.
unfoldable pub prepare_timed_wait : (Timer → ℕ → ℕ → Timer) → Timer → ℕ → ℕ → Timer
prepare_timed_wait move t clock rq =
    if not (rq == t.rq) || not (clock == t.clock) then move t clock rq else t

unfoldable pub timer_on_rq : Timer → ℕ → Bool
timer_on_rq t rq = t.rq == rq

unfoldable pub get_timer_rq : Timer → ℕ
get_timer_rq t = t.rq

unfoldable pub get_timer_name : Timer → ℕ
get_timer_name t = t.name
