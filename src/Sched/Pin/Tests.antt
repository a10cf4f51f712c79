-- ===== src/Sched/Pin/Tests.antt =====
-- A thread that is pinned and unpinned, on a concrete machine.
use spacemit_xenomai.Base.{erase, ◌+◌, ℕ, refl, true, List, [], ◌∷◌}
use spacemit_xenomai.Sched.Pin.{Machine, TracksLocks}
use spacemit_xenomai.Sched.Preempt.{RawLocks}
use spacemit_xenomai.Thread.Samples.{sample}

-- A machine that knows the `info` of the one thread, the locks held, and the calls of
-- `evl_adjust_wait_priority`.
abbrev raw_locks : RawLocks (ℕ × List ℕ × ℕ)
raw_locks = record {
  raw_spin_lock = λ l (i, ls, n). (i, l ∷ ls, n);
  raw_spin_unlock = λ l (i, ls, n). (i, erase l ls, n);
  raw_spin_trylock = λ l (i, ls, n). ((i, l ∷ ls, n), true);
  raw_spin_lock_irq = λ l (i, ls, n). (i, l ∷ ls, n);
  raw_spin_unlock_irq = λ l (i, ls, n). (i, erase l ls, n);
  raw_spin_lock_irqsave = λ l (i, ls, n). (i, l ∷ ls, n);
  raw_spin_unlock_irqrestore = λ l (i, ls, n). (i, erase l ls, n);
}

abbrev one_thread : Machine (ℕ × List ℕ × ℕ)
one_thread = record {
  thread_at = λ (i, ls, n) t. record sample { info = i };
  put_info = λ t info (i, ls, n). (info, ls, n);
  thread_lock = λ t. t;
  rq_lock = λ rq. rq + 1000;
  hard_local_irq_restore = λ w. w;
  adjust_wait_priority = λ t (i, ls, n). (i, ls, n + 1);
}

abbrev one_thread-TracksLocks : TracksLocks raw_locks one_thread
one_thread-TracksLocks = record {
  held = λ (i, ls, n). ls;
  locks = λ l w. refl;
  unlocks = λ l w. refl;
  writes = λ t info w. refl;
  write_holds = λ t info w. refl;
}

abbrev both : List ℕ
both = 1001 ∷ 64 ∷ []
