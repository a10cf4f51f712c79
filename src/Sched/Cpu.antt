-- ===== src/Sched/Cpu.antt =====
-- kernel-overlay/include/evl/sched.h: the runqueues of the CPUs;
-- kernel-overlay/include/evl/tick.h: the tick of the proxy device. Runqueues are addresses, which
-- `per_cpu` gives for a CPU.
use spacemit_xenomai.Base.{ℕ, Bool, false, if◌then◌else◌, clear_flags}
use spacemit_xenomai.Sched.{Rq, rq_tproxy}
use spacemit_xenomai.Sched.Resched.{enter_irq, exit_irq}

unfoldable pub cpu_rq : (ℕ → ℕ) → ℕ → ℕ
cpu_rq per_cpu cpu = per_cpu cpu

-- `this_cpu` is the CPU that the caller runs on.
unfoldable pub this_evl_rq : (ℕ → ℕ) → ℕ → ℕ
this_evl_rq per_cpu this_cpu = per_cpu this_cpu

unfoldable pub this_evl_rq_thread : (ℕ → ℕ) → (ℕ → Rq) → ℕ → ℕ
unfolding this_evl_rq
this_evl_rq_thread per_cpu rqs this_cpu = (rqs (this_evl_rq per_cpu this_cpu)).curr

-- `tick` stands for `tick_notify_proxy`.
unfoldable pub notify_proxy_tick : {W : Type 0} → (W → W) → Rq → W → Rq × W
notify_proxy_tick tick this_rq w =
    (record this_rq { local_flags = clear_flags 64 this_rq.local_flags rq_tproxy }, tick w)

-- kernel-overlay/include/asm-generic/evl/irq.h; `config_evl` stands for CONFIG_EVL.
unfoldable pub irq_enter_pipeline : Bool → Rq → Rq
unfolding enter_irq
irq_enter_pipeline config_evl rq = if config_evl then enter_irq rq else rq

-- The runqueue, and whether `evl_schedule` is called.
unfoldable pub irq_exit_pipeline : Bool → Rq → Rq × Bool
unfolding exit_irq
irq_exit_pipeline config_evl rq = if config_evl then exit_irq rq else (rq, false)
