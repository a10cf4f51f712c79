-- ===== src/Thread/Tests.antt =====
-- Threads on concrete inputs.
use spacemit_xenomai.Base.{ℕ, zero, suc, ◌<◌, ◌≡◌, ◌≢◌, refl, [], ◌∷◌, arith}
use spacemit_xenomai.Thread.Lock.{Attempt, Spins, double_thread_lock, double_thread_lock_progress}

-- Each of the CPUs has got one lock, for threads 1 and 2, 2 and 3, and 3 and 1.
abbrev ring : ℕ → Attempt
ring zero = record { t1 = 1; t2 = 2; taken = 1 }
ring (suc zero) = record { t1 = 2; t2 = 3; taken = 1 }
ring (suc (suc k)) = record { t1 = 3; t2 = 1; taken = 0 }

ring-distinct : (k : ℕ) → k < 3 → (ring k).t1 ≢ (ring k).t2
ring-distinct zero h = λ e. omega arith
ring-distinct (suc zero) h = λ e. omega arith
ring-distinct (suc (suc k)) h = λ e. omega arith

double_thread_lock_progress_example : ¬ ((k : ℕ) → k < 3 → Spins 3 ring k)
double_thread_lock_progress_example = double_thread_lock_progress 3 ring (omega arith) ring-distinct

lock_order : (double_thread_lock 3 1 ≡ 1 ∷ 3 ∷ []) × (double_thread_lock 1 3 ≡ 1 ∷ 3 ∷ [])
unfolding double_thread_lock
lock_order = (refl, refl)
