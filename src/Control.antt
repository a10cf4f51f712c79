-- ===== src/Control.antt =====
-- kernel-overlay/include/evl/control.h: the state that the core as a whole is in.
use spacemit_xenomai.Base.{ℕ, Bool, not, ◌==◌}

-- `enum evl_run_states`
pub data RunState : Type 0 where
  disabled running stopped teardown warmup : RunState

-- `evl_runstate` holds the number of a state.
abbrev pub state_number : RunState → ℕ
state_number disabled = 0
state_number running = 1
state_number stopped = 2
state_number teardown = 3
state_number warmup = 4

unfoldable pub get_evl_state : ℕ → ℕ
get_evl_state runstate = runstate

unfoldable pub is_warming : ℕ → Bool
unfolding get_evl_state
is_warming runstate = get_evl_state runstate == state_number warmup

unfoldable pub is_running : ℕ → Bool
unfolding get_evl_state
is_running runstate = get_evl_state runstate == state_number running

unfoldable pub is_enabled : ℕ → Bool
unfolding get_evl_state
is_enabled runstate = not (get_evl_state runstate == state_number disabled)

unfoldable pub is_stopped : ℕ → Bool
unfolding get_evl_state
is_stopped runstate = get_evl_state runstate == state_number stopped

unfoldable pub set_evl_state : RunState → ℕ → ℕ
set_evl_state state runstate = state_number state
