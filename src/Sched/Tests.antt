-- ===== src/Sched/Tests.antt =====
-- The scheduler core on concrete inputs.
use spacemit_xenomai.Base.{
  true, false, ℕ, ◌<◌, ◌≡◌, ◌≢◌, ◌⊎◌, List, refl, some, none, [], ◌∷◌, arith, ◌==◌, if◌then◌else◌,
  bit, neg32,
}
use spacemit_xenomai.SchedQueue.Linear.{prio_of}
use spacemit_xenomai.SchedQueue.Mlq.{get_qindex}
use spacemit_xenomai.Sched.{ClassOps}
use spacemit_xenomai.Sched.Class.{State, thread_at, put_thread, track_priority, ceil_priority}
use spacemit_xenomai.Sched.Class.Boost.{track_priority_lem}
use spacemit_xenomai.Sched.Fifo.{
  Core, cprio_of, queue_of, requeue_fifo_thread, enqueue_fifo_thread, dequeue_fifo_thread,
  chk_fifo_schedparam, core_nr_prio, einval, track_fifo_priority, ceil_fifo_priority,
}
use spacemit_xenomai.Sched.Fifo.Order.{runnable_with, dequeue_fifo_thread_lem}
use spacemit_xenomai.Sched.Fifo.Range.{Accepts, chk_fifo_schedparam_lem}
use spacemit_xenomai.Sched.Resched.{set_resched}
use spacemit_xenomai.Sched.Samples.{quiet}
use spacemit_xenomai.Sched.Resched.Marks.{sched_digit, set_resched_lem}
use spacemit_xenomai.Sched.Resched.Remote.Signals.{run_calls_lem}
use spacemit_xenomai.Sched.Resched.Remote.{Call, run_calls, wanted, asks}
use spacemit_xenomai.Sched.Runnable.{linear}
use spacemit_xenomai.Thread.{SchedClass, fifo}
use spacemit_xenomai.Thread.Samples.{sample}

abbrev near : ℕ
near = 1

abbrev far : ℕ
far = 3

set_resched_example :
    let rqs' = set_resched quiet near far in
    (bit (rqs' 3).flags 28 ≡ 1)
    × ((a : ℕ) → a ≢ near → a ≢ far → rqs' a ≡ quiet a)
    × (near ≢ far
        → bit (quiet 3).flags 28 ≡ 0
        → (sched_digit (rqs' 1) ≡ 1)
          × ((cpu : ℕ)
              → bit (rqs' 1).resched_cpus cpu
                ≡ (if (quiet 3).cpu == cpu then 1 else bit (quiet 1).resched_cpus cpu))
          × ((k : ℕ)
              → bit (rqs' 1).local_flags k ≡ (if 28 == k then 1 else bit (quiet 1).local_flags k))
          × ((rqs' 1).flags ≡ (quiet 1).flags))
    × (near ≢ far → bit (quiet 3).flags 28 ≡ 1 → rqs' ≡ quiet)
set_resched_example = set_resched_lem quiet 1 3

-- Threads 64, 65 and 66, all of priority 4, and 67 of priority 2.
abbrev four : Core linear
unfolding linear
four = record {
  threads = λ t. if t == 67 then record sample { cprio = 2 } else sample;
  runnable = λ rq. 64 ∷ 65 ∷ 66 ∷ 67 ∷ [];
}

dequeue_fifo_thread_example :
    let prio = prio_of (cprio_of linear four) in
    let preempted = requeue_fifo_thread linear (dequeue_fifo_thread linear four 64) 64 in
    let yielded = enqueue_fifo_thread linear (dequeue_fifo_thread linear four 64) 64 in
    (runnable_with linear preempted 64 ≡ 64 ∷ 65 ∷ 66 ∷ 67 ∷ [])
    × (runnable_with linear yielded 64 ≡ 65 ∷ 66 ∷ 64 ∷ 67 ∷ [])
    × linear.IsOk (cprio_of linear four) (queue_of linear preempted 64)
    × linear.IsOk (cprio_of linear four) (queue_of linear yielded 64)
unfolding linear
dequeue_fifo_thread_example =
    dequeue_fifo_thread_lem linear four 64 (65 ∷ 66 ∷ 67 ∷ []) (omega arith) tt refl

chk_fifo_schedparam_example :
    let ret = chk_fifo_schedparam 100 sample (record { prio = 99; id = 0 }) in
    ((ret ≡ 0) ⊎ (ret ≡ neg32 einval))
    × (ret ≡ 0 → Accepts 100 sample 99)
    × (Accepts 100 sample 99 → ret ≡ 0)
    × (ret ≡ 0 → get_qindex (core_nr_prio 100) 99 < core_nr_prio 100)
chk_fifo_schedparam_example =
    chk_fifo_schedparam_lem 100 sample (record { prio = 99; id = 0 }) (omega arith) (omega arith)
      (omega arith)

-- A table of the FIFO class, for all classes, with weight 4096 for it and 3072 for the others.
abbrev table : SchedClass → ClassOps (State linear)
table c = record {
  sched_init = none;
  sched_enqueue = λ t s. s;
  sched_dequeue = λ t s. s;
  sched_requeue = λ t s. s;
  sched_pick = λ rq s. (s, none);
  sched_yield = none;
  sched_migrate = none;
  sched_setparam = λ t p s. (s, false);
  sched_getparam = λ t p s. p;
  sched_chkparam = none;
  sched_trackprio = λ t p s. put_thread linear s t (track_fifo_priority (thread_at linear s t) p);
  sched_ceilprio =
      λ t prio s. put_thread linear s t (ceil_fifo_priority (thread_at linear s t) prio);
  sched_declare = none;
  sched_forget = none;
  sched_kick = none;
  weight = elim c [ fifo ↦ 4096 | _ ↦ 3072 ];
  policy = 1;
  name = 0;
}

abbrev scheduled : State linear
scheduled = record { core = four; nthreads = λ c. 0 }

track_priority_example :
    let s1 = track_priority linear table scheduled 64 (some (record { prio = 9; id = 0 })) in
    let s2 = ceil_priority linear table s1 64 12 in
    let s3 = track_priority linear table s2 64 none in
    ((thread_at linear s1 64).cprio ≡ 9)
    × ((thread_at linear s1 64).wprio ≡ 4105)
    × ((thread_at linear s2 64).cprio ≡ 12)
    × ((thread_at linear s2 64).wprio ≡ 4108)
    × ((thread_at linear s3 64).cprio ≡ 4)
    × ((thread_at linear s3 64).wprio ≡ 4100)
    × ((k : ℕ)
        → k < 32
        → bit (thread_at linear s3 64).state k ≡ (if 13 == k then 0 else bit sample.state k))
unfolding four
track_priority_example =
    track_priority_lem linear table scheduled 64 (record { prio = 9; id = 0 }) 12
      (record { tracks = λ t p s. refl; ceils = λ t prio s. refl }) refl

-- CPU 1 asks for CPUs 3 and 0, CPU 2 for CPU 3 too, CPU 4 for itself.
abbrev calls : List Call
calls =
    record { this = 1; rq = 3 }
    ∷ record { this = 2; rq = 3 }
    ∷ record { this = 1; rq = 0 }
    ∷ record { this = 4; rq = 4 }
    ∷ []

run_calls_example :
    let rqs' = run_calls quiet calls in
    (wanted calls 3 ≡ true
      → (bit (rqs' 3).flags 28 ≡ 1)
        × ((asks calls 3 ≡ true)
            ⊎ ((t : ℕ) × (t ≢ 3) × (sched_digit (rqs' t) ≡ 1) × (bit (rqs' t).resched_cpus 3 ≡ 1))))
    × (wanted calls 3 ≡ false → (rqs' 3).flags ≡ 0)
run_calls_example = run_calls_lem quiet calls 3 refl
