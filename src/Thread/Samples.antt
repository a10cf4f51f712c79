-- ===== src/Thread/Samples.antt =====
-- A thread for the tests: a user thread that the FIFO class runs at priority 4.
use spacemit_xenomai.Base.{none, some, []}
use spacemit_xenomai.Thread.{Thread, fifo}

abbrev pub sample : Thread
sample = record {
  address = 64;
  rq = 1;
  base_class = fifo;
  sched_class = fifo;
  bprio = 4;
  cprio = 4;
  wprio = 4;
  boosters = [];
  quota = none;
  tps = none;
  wchan = none;
  rrperiod = 0;
  state = 0x00006000;
  info = 0x00000040;
  local_info = 0;
  wait_data = 0;
  poll_context = record { table = 0; generation = 0; nr = 0; active = 0 };
  held_mutex_count = 0;
  stat = record {
    isw = record { counter = 0 };
    csw = record { counter = 0 };
    sc = record { counter = 0 };
    rwa = record { counter = 0 };
    account = record { start = 0; total = 0 };
    lastperiod = record { start = 0; total = 0 };
  };
  u_window = some (record { state = 0; info = 0; pp_pending = 0 });
  owned_mutexes = [];
  affinity = 1;
  raised_cap = 0;
  oob_mm = 0;
  observable = 0;
  name = 0;
}
