-- ===== src/Stat/Off.antt =====
-- kernel-overlay/include/evl/stat.h: the time stamp of accounts, and what is left of accounts and
-- counters without CONFIG_EVL_RUNSTATS. `rq` is whatever the caller has for its runqueue.
use spacemit_xenomai.Base.{ℕ, Option, none}
use spacemit_xenomai.Clock.{Clock, read_clock}

-- With the option on. `mono` is the address of `evl_mono_clock`, and `now` stands for
-- `ktime_get_mono_fast_ns`.
unfoldable pub get_timestamp : {W : Type 0} → ℕ → (W → ℕ) → (ℕ → Clock W) → W → ℕ
unfolding read_clock
get_timestamp mono now clocks w = read_clock mono now (clocks mono) w

-- `struct evl_account` and `struct evl_counter` have no members.
pub record NoAccount : Type 0 where

pub record NoCounter : Type 0 where

unfoldable pub no_timestamp : ℕ
no_timestamp = 0

unfoldable pub get_account_total : NoAccount → ℕ
get_account_total account = 0

unfoldable pub reset_account : NoAccount → NoAccount
reset_account account = account

module _ {R : Type 0} where
  unfoldable pub update_account : R → R
  update_account rq = rq

  unfoldable pub set_current_account : R → NoAccount → R × Option ℕ
  set_current_account rq new_account = (rq, none)

  unfoldable pub close_account : R → NoAccount → R
  close_account rq new_account = rq

  unfoldable pub get_last_account_switch : R → ℕ
  get_last_account_switch rq = 0

unfoldable pub inc_counter : NoCounter → NoCounter × ℕ
inc_counter c = (c, 0)

unfoldable pub get_counter : NoCounter → ℕ
get_counter c = 0

unfoldable pub set_counter : NoCounter → ℕ → NoCounter
set_counter c value = c
