-- ===== src/Sched/Class/Weight.antt =====
-- Priorities across the scheduling classes.
use spacemit_xenomai.Base.{ℕ, ◌^◌, ◌<◌, ◌≡◌, ◌↔◌, arith}
use spacemit_xenomai.Sched.{ClassOps}
use spacemit_xenomai.Sched.Class.{State, class_weight, calc_weighted_prio}
use spacemit_xenomai.Sched.Runnable.{RunQueue}
use spacemit_xenomai.Thread.{SchedClass}

-- For classes with weights EVL_CLASS_WEIGHT(i) and EVL_CLASS_WEIGHT(j), and priorities from 0 to
-- 1023: every weighted priority of the class of lower weight is below those of the other one, and
-- within one weight the order is that of the priorities. No sum leaves the range of `int`.
pub calc_weighted_prio_lem :
    (run : RunQueue) (classes : SchedClass → ClassOps (State run)) (c d : SchedClass) (i j p q : ℕ)
    → (classes c).weight ≡ class_weight i
    → (classes d).weight ≡ class_weight j
    → i < 2 ^ 20
    → j < 2 ^ 20
    → p < 1024
    → q < 1024
    → let wp = calc_weighted_prio run classes c p in
      let wq = calc_weighted_prio run classes d q in
      (i < j → wp < wq) × (i ≡ j → (wp < wq) ↔ (p < q)) × (wp < 2 ^ 31) × (wq < 2 ^ 31)
unfolding calc_weighted_prio
calc_weighted_prio_lem run classes c d i j p q wc wd hi hj hp hq =
    ((λ lt. omega arith), (λ e. (λ h. omega arith, λ h. omega arith)), omega arith, omega arith)
