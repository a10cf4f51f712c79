-- ===== src/Sched/Idle.antt =====
-- kernel-overlay/include/evl/sched/idle.h: the idle class. Warnings are not represented.
use spacemit_xenomai.Base.{ℕ, Bool, Option, none, some, neg32, clear_flags}
use spacemit_xenomai.Sched.{SchedParam}
use spacemit_xenomai.Thread.{Thread}
use spacemit_xenomai.Thread.Flags.{StateFlag, state_flag}

-- EVL_IDLE_PRIO, -1.
abbrev pub idle_prio : ℕ
idle_prio = neg32 1

unfoldable pub set_idle_schedparam :
    (Thread → ℕ → Thread × Bool) → Thread → SchedParam → Thread × Bool
set_idle_schedparam set_effective thread p =
    set_effective
      (record thread { state = clear_flags 32 thread.state (state_flag StateFlag.weak) }) p.prio

unfoldable pub get_idle_schedparam : Thread → SchedParam → SchedParam
get_idle_schedparam thread p = record p { prio = thread.cprio }

unfoldable pub track_idle_priority : Thread → Option SchedParam → Thread
track_idle_priority thread (some p) = thread
track_idle_priority thread none = record thread { cprio = idle_prio }

unfoldable pub ceil_idle_priority : Thread → ℕ → Thread
ceil_idle_priority thread prio = thread

unfoldable pub init_idle_thread : Thread → ℕ
init_idle_thread thread = 0
