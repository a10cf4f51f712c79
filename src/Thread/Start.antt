-- ===== src/Thread/Start.antt =====
-- kernel-overlay/include/evl/thread.h: how a kernel thread is set up and started. `init` stands for
-- `evl_init_thread` and `start` for `__evl_run_kthread`; `W` is the machine's state.
use spacemit_xenomai.Base.{ℕ, ◌^◌, Option, none, ◌==◌, if◌then◌else◌}
use spacemit_xenomai.Sched.{SchedParam}
use spacemit_xenomai.Thread.{Thread, Kthread, SchedClass, fifo}

-- `struct evl_init_thread_attr`; a `cpumask` has a digit for each CPU.
pub record InitThreadAttr : Type 0 where
  pub affinity : ℕ
  pub observable : Option ℕ
  pub flags : ℕ  -- int
  pub sched_class : SchedClass
  pub sched_param : SchedParam

module _ {W : Type 0} (init : Thread → InitThreadAttr → Option ℕ → ℕ → W → W × Thread × ℕ)
    (start : Kthread → ℕ → W → W × Kthread × ℕ) where
  -- `name` is what the format and its arguments give.
  unfoldable pub run_kthread_with : Kthread → ℕ → ℕ → ℕ → ℕ → ℕ → ℕ → W → W × Kthread × ℕ
  run_kthread_with kthread affinity fn arg priority clone_flags name w =
      let iattr : InitThreadAttr = record {
        affinity = affinity;
        observable = none;
        flags = 0;
        sched_class = fifo;
        sched_param = record { prio = priority; id = 0 };
      } in
      let kthread' = record kthread { threadfn = fn; arg = arg; status = 0; done = 0 } in
      let (w', thread, ret) = init kthread'.thread iattr none name w in
      let kthread'' = record kthread' { thread = thread } in
      let started = start kthread'' clone_flags w' in
      if ret == 0 then started else (w', kthread'', ret)

  unfoldable pub run_kthread : ℕ → Kthread → ℕ → ℕ → ℕ → ℕ → ℕ → W → W × Kthread × ℕ
  unfolding run_kthread_with
  run_kthread oob_cpus kthread fn arg priority clone_flags name w =
      run_kthread_with kthread oob_cpus fn arg priority clone_flags name w

  -- `cpumask_of` is the mask with the one CPU.
  unfoldable pub run_kthread_on_cpu : Kthread → ℕ → ℕ → ℕ → ℕ → ℕ → ℕ → W → W × Kthread × ℕ
  unfolding run_kthread_with
  run_kthread_on_cpu kthread cpu fn arg priority clone_flags name w =
      run_kthread_with kthread (2 ^ cpu) fn arg priority clone_flags name w
