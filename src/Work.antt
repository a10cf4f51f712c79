-- ===== src/Work.antt =====
-- kernel-overlay/include/evl/work.h: work that out-of-band code hands to the in-band stage. The
-- kernel's irq_work and workqueues, and what work.h only declares, are arguments. Functions,
-- workqueues and elements are addresses.
use spacemit_xenomai.Base.{ℕ, Bool, Option, none}
use spacemit_xenomai.Wait.Flag.{Flag, init_flag}

-- `irq_work` is the function of the `struct irq_work`, `wq_work` that of the `struct work_struct`.
pub record Work : Type 0 where
  pub irq_work : ℕ
  pub wq_work : ℕ
  pub wq : Option ℕ
  pub handler : ℕ
  pub element : Option ℕ

pub record SyncWork : Type 0 where
  pub work : Work
  pub done : Flag
  pub result : ℕ  -- int

-- EVL_DEFINE_WORK; `do_irq_work` and `do_work` stand for `__evl_do_irq_work` and `__evl_do_work`.
unfoldable pub define_work : ℕ → ℕ → ℕ → Work
define_work do_irq_work do_work handler = record {
  irq_work = do_irq_work;
  wq_work = do_work;
  wq = none;
  handler = handler;
  element = none;
}

-- EVL_DEFINE_SYNC_WORK; `mono` is the address of `evl_mono_clock`, `name` the name of the flag.
unfoldable pub define_sync_work : ℕ → ℕ → ℕ → ℕ → ℕ → SyncWork
unfolding init_flag
define_sync_work do_irq_work do_sync_work mono name handler = record {
  work = record {
    irq_work = do_irq_work;
    wq_work = do_sync_work;
    wq = none;
    handler = handler;
    element = none;
  };
  done = init_flag mono name;
  result = 0;
}

-- The kernel's side, by the address of the work.
pub record Workqueues (W : Type 0) : Type 0 where
  pub system_wq : ℕ
  pub irq_work_sync : ℕ → W → W
  pub flush_work : ℕ → W → W
  pub cancel_work_sync : ℕ → W → W

module _ {W : Type 0} (kernel : Workqueues W) where
  -- `from` stands for `evl_call_inband_from`.
  unfoldable pub call_inband : (ℕ → ℕ → W → W × Bool) → ℕ → W → W × Bool
  call_inband from work w = from work kernel.system_wq w

  unfoldable pub flush_work : ℕ → W → W
  flush_work work w = kernel.flush_work work (kernel.irq_work_sync work w)

  unfoldable pub cancel_work : ℕ → W → W
  cancel_work work w = kernel.cancel_work_sync work (kernel.irq_work_sync work w)

  -- `from` stands for `evl_call_inband_sync_from`.
  unfoldable pub call_inband_sync : (ℕ → ℕ → W → W × ℕ) → ℕ → W → W × ℕ
  call_inband_sync from sync_work w = from sync_work kernel.system_wq w

  -- The work is the first member of the synchronous work, so both have one address.
  unfoldable pub flush_sync_work : ℕ → W → W
  unfolding flush_work
  flush_sync_work sync_work w = flush_work sync_work w
