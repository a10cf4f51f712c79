-- ===== src/Sched/Preempt/Debug.antt =====
-- kernel-overlay/include/evl/lock.h: what CONFIG_LOCKDEP and CONFIG_EVL_DEBUG_CORE add to the locks,
-- and the nested lock. A call that warns returns whether it does.
use spacemit_xenomai.Base.{ℕ, Bool, true, false, not, ◌||◌}
use spacemit_xenomai.Sched.Preempt.{RawLocks, spin_lock, spin_trylock, disable_preempt}

-- The kernel's operations that the checks use; `might_lock` and the nested lock are given the address
-- of the lock.
pub record LockChecks (W : Type 0) : Type 0 where
  pub local_irq_save_full : W → W
  pub local_irq_restore_full : W → W
  pub rcu_read_lock : W → W
  pub rcu_read_unlock : W → W
  pub might_lock : ℕ → W → W
  pub raw_spin_lock_nested : ℕ → ℕ → W → W
  pub running_oob : W → Bool
  pub irqs_disabled : W → Bool
  pub hard_irqs_disabled : W → Bool

module _ {W : Type 0} (checks : LockChecks W) (raw : RawLocks W) (schedule : W → W) where
  open checks use {
    local_irq_save_full, local_irq_restore_full, rcu_read_lock, rcu_read_unlock, might_lock,
    raw_spin_lock_nested, running_oob, irqs_disabled, hard_irqs_disabled,
  }

  -- `lockdep` stands for CONFIG_LOCKDEP.
  unfoldable pub might_hard_lock : Bool → ℕ → W → W
  might_hard_lock true lock w =
      local_irq_restore_full
        (rcu_read_unlock (might_lock lock (rcu_read_lock (local_irq_save_full w))))
  might_hard_lock false lock w = w

  unfoldable pub spin_lock_nested : ℕ → ℕ → ℕ × W → ℕ × W
  unfolding disable_preempt
  spin_lock_nested lock subclass s =
      let (c, w) = disable_preempt s in (c, raw_spin_lock_nested lock subclass w)

  -- `_evl_spin_lock_check`: whether it warns.
  unfoldable pub spin_lock_check : W → Bool
  spin_lock_check w = not (running_oob w || (irqs_disabled w || hard_irqs_disabled w))

  -- `debug` stands for CONFIG_EVL_DEBUG_CORE.
  unfoldable pub checked_spin_lock : Bool → ℕ → ℕ × W → (ℕ × W) × Bool
  unfolding spin_lock spin_lock_check
  checked_spin_lock true lock s = (spin_lock raw schedule lock s, spin_lock_check s.1)
  checked_spin_lock false lock s = (spin_lock raw schedule lock s, false)

  unfoldable pub checked_spin_lock_nested : Bool → ℕ → ℕ → ℕ × W → (ℕ × W) × Bool
  unfolding spin_lock_nested spin_lock_check
  checked_spin_lock_nested true lock subclass s =
      (spin_lock_nested lock subclass s, spin_lock_check s.1)
  checked_spin_lock_nested false lock subclass s = (spin_lock_nested lock subclass s, false)

  unfoldable pub checked_spin_trylock : Bool → ℕ → ℕ × W → ((ℕ × W) × Bool) × Bool
  unfolding spin_trylock spin_lock_check
  checked_spin_trylock true lock s = (spin_trylock raw schedule lock s, spin_lock_check s.1)
  checked_spin_trylock false lock s = (spin_trylock raw schedule lock s, false)
