-- ===== src/Wait/Init.antt =====
-- kernel-overlay/include/evl/wait.h, flag.h, sem.h and mutex.h: initialisers, and the rest of what
-- wait.h makes of the operations that it declares. Names are those that the macros make of their
-- arguments; keys of the lock checker are left out.
use spacemit_xenomai.Base.{ℕ, Bool, false, Option, none, some, List}
use spacemit_xenomai.Wait.{
  WaitChannel, WaitQueue, Awake, wait_initializer, wait_event_timeout, wait_prio, infinite,
}
use spacemit_xenomai.Wait.Flag.{Flag}
use spacemit_xenomai.Wait.Mutex.{Mutex, Ksem}

-- The threads that the loop visits.
unfoldable pub waiters : WaitQueue → List ℕ
waiters wq = wq.wchan.wait_list

unfoldable pub wait_event : {W : Type 0} → (W → W × Bool) → List (W → Awake W) → W → Option (W × ℕ)
unfolding wait_event_timeout
wait_event cond sleeps w = wait_event_timeout cond sleeps infinite w

-- `schedule` stands for `__evl_wait_schedule`.
unfoldable pub wait_schedule : {W : Type 0} → (WaitChannel → W → W × ℕ) → WaitQueue → W → W × ℕ
wait_schedule schedule wq w = schedule wq.wchan w

-- `init` stands for `__evl_init_wait`, given a clock, flags and a name.
module _ (init : WaitQueue → ℕ → ℕ → ℕ → WaitQueue) where
  unfoldable pub init_wait : ℕ → WaitQueue → ℕ → ℕ → WaitQueue
  init_wait name wq clock flags = init wq clock flags name

  unfoldable pub init_wait_on_stack : ℕ → WaitQueue → ℕ → ℕ → WaitQueue
  unfolding init_wait
  init_wait_on_stack name wq clock flags = init_wait name wq clock flags

  -- `mono` is the address of `evl_mono_clock`.
  unfoldable pub init_flag_on_stack : ℕ → ℕ → Flag → Flag
  unfolding init_wait_on_stack
  init_flag_on_stack name mono wf = record {
    wait = init_wait_on_stack name wf.wait mono wait_prio;
    raised = false;
  }

unfoldable pub flag_initializer : ℕ → ℕ → Flag
unfolding wait_initializer
flag_initializer mono name = record { wait = wait_initializer mono name; raised = false }

unfoldable pub ksem_initializer : ℕ → ℕ → ℕ → Ksem
unfolding wait_initializer
ksem_initializer mono name value = record { wait = wait_initializer mono name; value = value }

-- `init` stands for `__evl_init_mutex`, given a clock, the addresses of the fast lock and of the
-- ceiling, and a name.
module _ (init : Mutex → ℕ → ℕ → Option ℕ → ℕ → Mutex) where
  unfoldable pub init_mutex : ℕ → Mutex → ℕ → ℕ → Option ℕ → Mutex
  init_mutex name mutex clock fastlock ceiling = init mutex clock fastlock ceiling name

  unfoldable pub init_mutex_pi : ℕ → Mutex → ℕ → ℕ → Mutex
  unfolding init_mutex
  init_mutex_pi name mutex clock fastlock = init_mutex name mutex clock fastlock none

  unfoldable pub init_mutex_pp : ℕ → Mutex → ℕ → ℕ → ℕ → Mutex
  unfolding init_mutex
  init_mutex_pp name mutex clock fastlock ceiling =
      init_mutex name mutex clock fastlock (some ceiling)

-- `evl_for_each_waiter_safe` visits the same threads, also where the body takes the one at hand off.
unfoldable pub waiters_safe : WaitQueue → List ℕ
waiters_safe wq = wq.wchan.wait_list
