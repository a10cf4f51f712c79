-- ===== src/Sched/Fifo/Tests.antt =====
-- A run of the FIFO class on concrete inputs. Every thread starts on runqueue 1 at priority 4.
use spacemit_xenomai.Base.{ℕ, ◌≡◌, refl, some, List, [], ◌∷◌, arith, erase}
use spacemit_xenomai.PrioList.Order.{Sorted}
use spacemit_xenomai.SchedQueue.Linear.{prio_of}
use spacemit_xenomai.SchedQueue.Mlq
use spacemit_xenomai.SchedQueue.Mlq.{add_q, get_qindex}
use spacemit_xenomai.SchedQueue.Mlq.Fresh.{no_threads, no_threads-IsValid}
use spacemit_xenomai.Sched.Runnable.{linear, multi_level}
use spacemit_xenomai.Sched.Fifo.Refine.{as_ready, spec_fifo, run_spec, run_fifo_refines}
use spacemit_xenomai.Sched.Fifo.{
  Core, cprio_of, enqueue_fifo_thread, requeue_fifo_thread, dequeue_fifo_thread,
  track_fifo_priority, ceil_fifo_priority,
}
use spacemit_xenomai.Sched.Fifo.Run
use spacemit_xenomai.SchedQueue.Linear
use spacemit_xenomai.PrioList.{list_add_priff, list_add_prilf, list_add_pri}
use spacemit_xenomai.Sched.Fifo.Run.{FifoOp, run_fifo, Inv}
use spacemit_xenomai.Sched.Fifo.Sound.{run_fifo-Inv}
use spacemit_xenomai.Thread.Samples.{sample}

abbrev nothing_queued : Core linear
unfolding linear
nothing_queued = record { threads = λ t. sample; runnable = λ rq. [] }

nothing_queued-Inv : Inv linear nothing_queued
unfolding linear
nothing_queued-Inv = record {
  ok = λ rq. tt;
  placed = λ rq t h. absurd (omega (arith, h));
  once = λ rq t. omega arith;
}

-- 66 goes to priority 7 before it is queued, 64 to 9 after it was first.
abbrev calls : List FifoOp
calls =
    FifoOp.enqueue 64
    ∷ FifoOp.enqueue 65
    ∷ FifoOp.track 66 (some (record { prio = 7; id = 0 }))
    ∷ FifoOp.requeue 66
    ∷ FifoOp.dequeue 64
    ∷ FifoOp.ceil 64 9
    ∷ FifoOp.enqueue 64
    ∷ []

calls_run : linear.threads ((run_fifo linear nothing_queued calls).runnable 1) ≡ 64 ∷ 66 ∷ 65 ∷ []
unfolding run_fifo Run.apply_fifo linear nothing_queued enqueue_fifo_thread requeue_fifo_thread
    dequeue_fifo_thread track_fifo_priority ceil_fifo_priority Linear.add_schedq
    Linear.add_schedq_tail Linear.del_schedq list_add_priff list_add_prilf list_add_pri erase
calls_run = refl

run_fifo-Inv_example :
    Inv linear (run_fifo linear nothing_queued calls)
    × ((rq : ℕ)
        → Sorted
            (prio_of (cprio_of linear (run_fifo linear nothing_queued calls)))
            (linear.threads ((run_fifo linear nothing_queued calls).runnable rq)))
unfolding Run.apply_fifo linear nothing_queued enqueue_fifo_thread requeue_fifo_thread
    dequeue_fifo_thread track_fifo_priority ceil_fifo_priority Linear.add_schedq
    Linear.add_schedq_tail Linear.del_schedq list_add_priff list_add_prilf list_add_pri erase
run_fifo-Inv_example =
    run_fifo-Inv linear nothing_queued calls nothing_queued-Inv
      ((refl, tt), ((refl, tt), (refl, ((refl, tt), (refl, (refl, ((refl, tt), tt)))))))

-- The same calls over 16 levels.
abbrev on_levels : Core (multi_level 16)
unfolding multi_level
on_levels = record { threads = λ t. sample; runnable = λ rq. no_threads 16 }

on_levels-Inv : Inv (multi_level 16) on_levels
unfolding multi_level
on_levels-Inv = record {
  ok = λ rq. no_threads-IsValid 16 (λ t. 4) (omega arith);
  placed = λ rq t h. absurd (omega (arith, h));
  once = λ rq t. omega arith;
}

run_fifo_refines_example :
    (as_ready (multi_level 16) (run_fifo (multi_level 16) on_levels calls)
      ≡ run_spec (as_ready (multi_level 16) on_levels) calls)
    × (as_ready linear (run_fifo linear nothing_queued calls)
        ≡ run_spec (as_ready linear nothing_queued) calls)
unfolding Run.apply_fifo multi_level on_levels enqueue_fifo_thread requeue_fifo_thread
    dequeue_fifo_thread track_fifo_priority ceil_fifo_priority Mlq.add_schedq Mlq.add_schedq_tail
    Mlq.del_schedq Mlq.del_schedq_at add_q get_qindex erase linear nothing_queued Linear.add_schedq
    Linear.add_schedq_tail Linear.del_schedq list_add_priff list_add_prilf list_add_pri
run_fifo_refines_example =
    run_fifo_refines 16 on_levels nothing_queued calls on_levels-Inv nothing_queued-Inv
      (
        (refl, omega arith),
        (
          (refl, omega arith),
          (refl, ((refl, omega arith), (refl, (refl, ((refl, omega arith), tt))))),
        ),
      )
      ((refl, tt), ((refl, tt), (refl, ((refl, tt), (refl, (refl, ((refl, tt), tt)))))))

-- The specification on the same calls.
calls_spec : (run_spec (as_ready linear nothing_queued) calls).ready 1 ≡ 64 ∷ 66 ∷ 65 ∷ []
unfolding run_spec spec_fifo linear nothing_queued erase
calls_spec = refl
