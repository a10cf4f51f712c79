-- ===== src/Stat/Counter.antt =====
-- kernel-overlay/include/evl/stat.h: event counters. A call returns its result and the counter.
use spacemit_xenomai.Base.{ℕ, ◌+◌, u64}

pub record Counter : Type 0 where
  pub counter : ℕ  -- unsigned long

unfoldable pub inc_counter : Counter → ℕ × Counter
inc_counter c = (c.counter, record c { counter = u64 (c.counter + 1) })

unfoldable pub get_counter : Counter → ℕ
get_counter c = c.counter

unfoldable pub set_counter : Counter → ℕ → Counter
set_counter c value = record c { counter = value }
