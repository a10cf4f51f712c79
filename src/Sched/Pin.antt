-- ===== src/Sched/Pin.antt =====
-- kernel-overlay/include/evl/sched.h: how a thread is pinned to its runqueue, by its own lock and the
-- runqueue's, and unpinned. The flags of the `irqsave` forms are part of the state `W`.
mod Tests
use spacemit_xenomai.Base.{
  erase, ℕ, ◌+◌, ◌≡◌, sym, Bool, List, [], ◌∷◌, if◌then◌else◌, test_flags, clear_flags,
}
use spacemit_xenomai.Sched.Preempt.{RawLocks}
use spacemit_xenomai.Thread.{Thread}
use spacemit_xenomai.Thread.Flags.{InfoFlag, info_flag}

-- What the macros use of the machine: the threads by address, the write of a thread's `info`, the
-- addresses of the `lock` members, `hard_local_irq_restore`, and `evl_adjust_wait_priority`.
pub record Machine (W : Type 0) : Type 0 where
  pub thread_at : W → ℕ → Thread
  pub put_info : ℕ → ℕ → W → W
  pub thread_lock : ℕ → ℕ
  pub rq_lock : ℕ → ℕ
  pub hard_local_irq_restore : W → W
  pub adjust_wait_priority : ℕ → W → W

module _ {W : Type 0} (raw : RawLocks W) (machine : Machine W) where
  open machine use {thread_at, put_info, thread_lock, rq_lock}

  -- The machine, and the runqueue that the macro yields.
  unfoldable pub get_thread_rq_noirq : ℕ → W → W × ℕ
  get_thread_rq_noirq t w =
      let w' = raw.raw_spin_lock (thread_lock t) w in
      let rq = (thread_at w' t).rq in (raw.raw_spin_lock (rq_lock rq) w', rq)

  unfoldable pub get_thread_rq : ℕ → W → W × ℕ
  get_thread_rq t w =
      let w' = raw.raw_spin_lock_irqsave (thread_lock t) w in
      let rq = (thread_at w' t).rq in (raw.raw_spin_lock (rq_lock rq) w', rq)

  unfoldable pub put_thread_rq_noirq : ℕ → ℕ → W → W
  put_thread_rq_noirq t rq w =
      raw.raw_spin_unlock (thread_lock t) (raw.raw_spin_unlock (rq_lock rq) w)

  unfoldable pub put_thread_rq : ℕ → ℕ → W → W
  put_thread_rq t rq w =
      raw.raw_spin_unlock_irqrestore (thread_lock t) (raw.raw_spin_unlock (rq_lock rq) w)

  unfoldable pub put_thread_rq_check_noirq : ℕ → ℕ → W → W
  unfolding put_thread_rq_noirq
  put_thread_rq_check_noirq t rq w =
      let info = (thread_at w t).info in
      let need_requeue = test_flags info (info_flag InfoFlag.wchan) in
      let w' =
        if need_requeue then put_info t (clear_flags 32 info (info_flag InfoFlag.wchan)) w else w in
      let w'' = put_thread_rq_noirq t rq w' in
      if need_requeue then machine.adjust_wait_priority t w'' else w''

  unfoldable pub put_thread_rq_check : ℕ → ℕ → W → W
  unfolding put_thread_rq_check_noirq
  put_thread_rq_check t rq w = machine.hard_local_irq_restore (put_thread_rq_check_noirq t rq w)

  -- What the kernel documents of raw spin locks, for the locks that the CPU holds, the last taken
  -- first; a write of `info` changes that member and no lock.
  pub record TracksLocks : Type 0 where
    pub held : W → List ℕ
    pub locks : (l : ℕ) (w : W) → held (raw.raw_spin_lock l w) ≡ l ∷ held w
    pub unlocks : (l : ℕ) (w : W) → held (raw.raw_spin_unlock l w) ≡ erase l (held w)
    pub writes : (t info : ℕ) (w : W) → (thread_at (put_info t info w) t).info ≡ info
    pub write_holds : (t info : ℕ) (w : W) → held (put_info t info w) ≡ held w
