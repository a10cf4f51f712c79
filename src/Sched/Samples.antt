-- ===== src/Sched/Samples.antt =====
-- A timer and a runqueue for the tests.
use spacemit_xenomai.Base.{ℕ}
use spacemit_xenomai.Sched.{Rq}
use spacemit_xenomai.Timer.Core.{Timer}

abbrev pub timer : Timer
timer = record {
  clock = 1;
  node = 2;
  status = 0;
  interval = 0;
  start_date = 0;
  consumed_ticks = 0;
  periodic_ticks = 0;
  rq = 0;
  base = 0;
  handler = 0;
  name = 0;
  scheduled = record { counter = 0 };
  fired = record { counter = 0 };
}

-- The runqueue of CPU `cpu`, with nothing to do.
abbrev pub quiet : ℕ → Rq
quiet cpu = record {
  flags = 0;
  curr = 64;
  accounting = record { last_account_switch = 0; current_account = 0 };
  local_flags = 0;
  cpu = cpu;
  resched_cpus = 0;
  inband_timer = timer;
  rrbtimer = timer;
  proxy_timer_name = 0;
  rrb_timer_name = 0;
}
