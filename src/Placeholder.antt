-- ===== src/Placeholder.antt =====
-- kernel-overlay/include/dovetail: what the kernel sees in place of a core, and
-- kernel-overlay/include/asm-generic/evl: what is left of the core's own state without CONFIG_EVL or
-- CONFIG_EVL_NET. The structures are empty and the operations do nothing; a machine is `W`.
use spacemit_xenomai.Base.{ℕ}

pub record OobMmState : Type 0 where

pub record OobNetState : Type 0 where

pub record OobNetdevState : Type 0 where

pub record OobNetqueueState : Type 0 where

pub record OobPollWait : Type 0 where

pub record OobPollQueue : Type 0 where

pub record OobThreadState : Type 0 where

module _ {W : Type 0} where
  unfoldable pub irq_enter_pipeline : W → W
  irq_enter_pipeline w = w

  unfoldable pub irq_exit_pipeline : W → W
  irq_exit_pipeline w = w

  unfoldable pub net_init_oob_state : ℕ → W → W
  net_init_oob_state net w = w

  unfoldable pub net_cleanup_oob_state : ℕ → W → W
  net_cleanup_oob_state net w = w

  unfoldable pub netqueue_init_oob : OobNetqueueState → W → W
  netqueue_init_oob qs w = w

  unfoldable pub netqueue_destroy_oob : OobNetqueueState → W → W
  netqueue_destroy_oob qs w = w

  unfoldable pub hard_spin_lock_prepare : ℕ → W → W
  hard_spin_lock_prepare lock w = w

  unfoldable pub hard_spin_unlock_finish : ℕ → W → W
  hard_spin_unlock_finish lock w = w

  unfoldable pub hard_spin_trylock_prepare : ℕ → W → W
  hard_spin_trylock_prepare lock w = w

  unfoldable pub hard_spin_trylock_fail : ℕ → W → W
  hard_spin_trylock_fail lock w = w

  -- The queue and the mask, or the queue and the wait, are evaluated and dropped.
  unfoldable pub init_oob_poll_queue : OobPollQueue → W → W
  init_oob_poll_queue pwq w = w

  unfoldable pub poll_signal_oob : OobPollQueue → ℕ → W → W
  poll_signal_oob pwq mask w = w

  unfoldable pub poll_wait_oob : OobPollQueue → OobPollWait → W → W
  poll_wait_oob pwq wait w = w

-- evl/device.h, what drivers see without CONFIG_EVL.
pub record EvlFile : Type 0 where

abbrev pub open_file : ℕ
open_file = 0

unfoldable pub release_file : {W : Type 0} → W → W
release_file w = w
