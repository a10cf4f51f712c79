-- ===== src/Timer/Run.antt =====
-- kernel-overlay/include/evl/timer.h: the timers of one timer base over time. A timer is named by
-- the address of its node, the queue is the list of the form without CONFIG_EVL_TIMER_SCALABLE.
pub mod Invariant
pub mod Earliest
pub mod Visits
mod Tests
use spacemit_xenomai.Base.{ℕ, ◌≡◌, List, bit, if◌then◌else◌, ◌==◌}
use spacemit_xenomai.Clock.{Gravity}
use spacemit_xenomai.Timer.Core.{Timer, update_timer_date, enqueue_timer, dequeue_timer}
use spacemit_xenomai.Timer.Queue.{init_tqueue}

-- The timers, the dates that their nodes hold, and the queue.
pub record Timers : Type 0 where
  pub timer : ℕ → Timer
  pub dates : ℕ → ℕ
  pub queue : List ℕ

abbrev pub put_timer : (ℕ → Timer) → ℕ → Timer → ℕ → Timer
put_timer timer a t b = if b == a then t else timer b

-- Digit 0 of the status is EVL_TIMER_DEQUEUED.
abbrev pub dequeued : Timers → ℕ → ℕ
dequeued s a = bit (s.timer a).status 0

unfoldable pub enqueue : Timers → ℕ → Timers
enqueue s a =
    let (t, queue) = enqueue_timer s.dates (s.timer a) s.queue in
    record s { timer = put_timer s.timer a t; queue = queue }

unfoldable pub dequeue : Timers → ℕ → Timers
dequeue s a =
    let (t, queue) = dequeue_timer (s.timer a) s.queue in
    record s { timer = put_timer s.timer a t; queue = queue }

-- The owner of the timer writes its start date, its interval and its ticks, then the date is
-- computed again.
unfoldable pub reprogram : (ℕ → Gravity) → Timers → ℕ → ℕ → ℕ → ℕ → Timers
reprogram gravity s a start interval ticks =
    let t : Timer = record (s.timer a) {
      start_date = start;
      interval = interval;
      periodic_ticks = ticks;
    } in
    record s { timer = put_timer s.timer a t; dates = update_timer_date gravity s.dates t }

module _ (gravity : ℕ → Gravity) where
  -- The callers keep to the flag: what is queued is not queued again, what is off the queue is not
  -- taken off, and the date of a queued timer stays.
  pub data Step : Timers → Timers → Type 0 where
    enqueues : (s : Timers) (a : ℕ) → dequeued s a ≡ 1 → Step s (enqueue s a)
    dequeues : (s : Timers) (a : ℕ) → dequeued s a ≡ 0 → Step s (dequeue s a)
    reprograms :
        (s : Timers) (a start interval ticks : ℕ)
        → dequeued s a ≡ 1
        → Step s (reprogram gravity s a start interval ticks)

  pub data Reach (s : Timers) : Timers → Type 0 where
    here : Reach s s
    next : {t u : Timers} → Reach s t → Step t u → Reach s u

-- All timers are off the queue, each has its own node.
pub record IsInitial (s : Timers) : Type 0 where
  pub named : (a : ℕ) → (s.timer a).node ≡ a
  pub off : (a : ℕ) → dequeued s a ≡ 1
  pub empty : s.queue ≡ init_tqueue
