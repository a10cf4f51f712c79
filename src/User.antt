-- ===== src/User.antt =====
-- kernel-overlay/include/evl/uaccess.h and kernel-overlay/include/evl/observable.h: pointers of the
-- user that travel as 64-bit words. `unsigned long` and pointers have 64 bits.
use spacemit_xenomai.Base.{ℕ, List, u64}
use spacemit_xenomai.Element.{Element}
use spacemit_xenomai.Poll.{PollHead}
use spacemit_xenomai.Wait.{WaitQueue}

unfoldable pub ptrval64 : ℕ → ℕ
ptrval64 ptr = u64 ptr

unfoldable pub valptr64 : ℕ → ℕ
valptr64 val = u64 val

module _ {W : Type 0} where
  -- `raw_copy_from_user` and `raw_copy_to_user` are the kernel's; they return what is not copied.
  unfoldable pub raw_copy_from_user_ptr64 : (ℕ → ℕ → ℕ → W → W × ℕ) → ℕ → ℕ → ℕ → W → W × ℕ
  unfolding valptr64
  raw_copy_from_user_ptr64 raw_copy_from_user to from_ptr n w =
      raw_copy_from_user to (valptr64 from_ptr) n w

  unfoldable pub raw_copy_to_user_ptr64 : (ℕ → ℕ → ℕ → W → W × ℕ) → ℕ → ℕ → ℕ → W → W × ℕ
  unfolding valptr64
  raw_copy_to_user_ptr64 raw_copy_to_user to from n w = raw_copy_to_user (valptr64 to) from n w

-- `struct evl_observable`, less its lock; observers and interrupt work are addresses.
pub record Observable : Type 0 where
  pub element : Element
  pub observers : List ℕ
  pub flush_list : List ℕ
  pub oob_wait : WaitQueue
  pub inband_wait_r : List ℕ
  pub inband_wait_w : List ℕ
  pub poll_head : PollHead
  pub wake_r_irqwork : ℕ
  pub wake_w_irqwork : ℕ
  pub flush_irqwork : ℕ
  pub serial_counter : ℕ  -- u32
  pub writable_observers : ℕ  -- int
