-- ===== src/Wait.antt =====
-- kernel-overlay/include/evl/wait.h: wait channels and the loop of evl_wait_event_timeout(). Locks
-- are not represented: the loop holds the channel's lock except while it sleeps, so everything
-- that others do happens in the sleep.
pub mod Flag
pub mod Raise
pub mod Init
pub mod Mutex
mod Tests
use spacemit_xenomai.Base.{
  ℕ, ◌+◌, ◌-◌, ◌^◌, Bool, true, false, not, ◌&&◌, ◌||◌, Option, none, some, List, [], ◌∷◌, ◌==◌,
  if◌then◌else◌, neg32,
}
use spacemit_xenomai.SchedQueue.Mlq.{list_empty}
use spacemit_xenomai.Timer.Queue.{first_of}

abbrev pub eagain : ℕ
eagain = 11

-- EVL_NONBLOCK, the kernel's KTIME_MAX.
abbrev pub nonblock : ℕ
nonblock = 2 ^ 63 - 1

abbrev pub infinite : ℕ
infinite = 0

unfoldable pub timeout_infinite : ℕ → Bool
timeout_infinite kt = kt == infinite

unfoldable pub timeout_nonblock : ℕ → Bool
timeout_nonblock kt = kt == nonblock

-- EVL_REL and EVL_ABS
pub data TimeoutMode : Type 0 where
  rel abs : TimeoutMode

abbrev pub wait_fifo : ℕ
wait_fifo = 0

abbrev pub wait_prio : ℕ
wait_prio = 1

-- `struct evl_wait_channel`, less its lock and its function: threads are addresses.
pub record WaitChannel : Type 0 where
  pub owner : Option ℕ
  pub wait_list : List ℕ
  pub name : ℕ

pub record WaitQueue : Type 0 where
  pub flags : ℕ  -- int
  pub clock : ℕ
  pub wchan : WaitChannel

-- EVL_WAIT_INITIALIZER, for the address of `evl_mono_clock`.
unfoldable pub wait_initializer : ℕ → ℕ → WaitQueue
wait_initializer mono name = record {
  flags = wait_prio;
  clock = mono;
  wchan = record { owner = none; wait_list = []; name = name };
}

unfoldable pub head_waiter : WaitQueue → Option ℕ
head_waiter wq = first_of wq.wchan.wait_list

unfoldable pub wait_active : WaitQueue → Bool
wait_active wq = not (list_empty wq.wchan.wait_list)

-- `wake_up` stands for `evl_wake_up`.
unfoldable pub wake_up_head : {W : Type 0} → (Option ℕ → ℕ → W → W × Option ℕ) → W → W × Option ℕ
wake_up_head wake_up w = wake_up none 0 w

-- What comes of one sleep: the state when the lock is held again, what `evl_wait_schedule`
-- returned, and whether EVL_T_BCAST was then set in the thread's `info`.
pub record Awake (W : Type 0) : Type 0 where
  pub state : W
  pub ret : ℕ  -- int
  pub bcast : Bool

module _ {W : Type 0} (cond : W → W × Bool) where
  -- The rounds of the loop, over what the sleeps do one after the other; `none` where the thread
  -- still sleeps. Each sleep starts with `evl_add_wait_queue`.
  unfoldable pub wait_rounds : List (W → Awake W) → W → Option (W × ℕ)
  wait_rounds [] w = none
  wait_rounds (sleep ∷ sleeps) w =
      let a = sleep w in
      let (w', holds) = cond a.state in
      let rest = wait_rounds sleeps w' in
      if not (a.ret == 0) || a.bcast
      then some (a.state, a.ret)
      else (if holds then some (w', a.ret) else rest)

  unfoldable pub wait_event_timeout : List (W → Awake W) → ℕ → W → Option (W × ℕ)
  unfolding wait_rounds timeout_nonblock
  wait_event_timeout sleeps timeout w =
      let (w', holds) = cond w in
      let waited = wait_rounds sleeps w' in
      if holds
      then some (w', 0)
      else (if timeout_nonblock timeout then some (w', neg32 eagain) else waited)
