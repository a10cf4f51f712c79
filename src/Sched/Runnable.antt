-- ===== src/Sched/Runnable.antt =====
-- What the scheduling classes rely on of a queue of runnable threads, kept by both forms of
-- kernel-overlay/include/evl/sched/queue.h, and the state that they work on.
use spacemit_xenomai.Base.{ℕ, ◌≡◌, refl, true, List, contains}
use spacemit_xenomai.PrioList.Order.{Sorted, list_add_priff_lem, list_add_prilf_lem}
use spacemit_xenomai.PrioList.Removal.{Sorted-erase}
use spacemit_xenomai.SchedQueue.Linear
use spacemit_xenomai.SchedQueue.Linear.{prio_of}
use spacemit_xenomai.SchedQueue.Mlq
use spacemit_xenomai.SchedQueue.Mlq.{SchedQueue}
use spacemit_xenomai.SchedQueue.Mlq.Heads.{chain}
use spacemit_xenomai.SchedQueue.Mlq.Invariant.{
  IsValid, InRange, add_schedq-IsValid, add_schedq_tail-IsValid, del_schedq-IsValid,
}
use spacemit_xenomai.SchedQueue.Mlq.Agree.{Agree, Sorted-Agree, IsValid-Agree}
use spacemit_xenomai.SchedQueue.Refine.{
  queue-Sorted, add_schedq_refines, add_schedq_tail_refines, del_schedq_refines,
}

-- `threads` is the sequence that a queue holds, `IsOk` its invariant, and `Fits` what is asked of
-- the priority of a thread; all of them for priorities given by the argument `cprio`.
pub record RunQueue : Type 1 where
  pub Queue : Type 0
  pub add_schedq : (ℕ → ℕ) → Queue → ℕ → Queue
  pub add_schedq_tail : (ℕ → ℕ) → Queue → ℕ → Queue
  pub del_schedq : (ℕ → ℕ) → Queue → ℕ → Queue
  pub threads : Queue → List ℕ
  pub IsOk : (ℕ → ℕ) → Queue → Type 0
  pub Fits : (ℕ → ℕ) → ℕ → Type 0
  pub sorted : (cprio : ℕ → ℕ) (q : Queue) → IsOk cprio q → Sorted (prio_of cprio) (threads q)
  pub added :
      (cprio : ℕ → ℕ) (q : Queue) (t : ℕ)
      → IsOk cprio q
      → Fits cprio t
      → (threads (add_schedq cprio q t) ≡ Linear.add_schedq cprio (threads q) t)
        × IsOk cprio (add_schedq cprio q t)
  pub added_tail :
      (cprio : ℕ → ℕ) (q : Queue) (t : ℕ)
      → IsOk cprio q
      → Fits cprio t
      → (threads (add_schedq_tail cprio q t) ≡ Linear.add_schedq_tail cprio (threads q) t)
        × IsOk cprio (add_schedq_tail cprio q t)
  pub deleted :
      (cprio : ℕ → ℕ) (q : Queue) (t : ℕ)
      → IsOk cprio q
      → contains t (threads q) ≡ true
      → (threads (del_schedq cprio q t) ≡ Linear.del_schedq (threads q) t)
        × IsOk cprio (del_schedq cprio q t)
  pub agreed :
      (cprio cprio' : ℕ → ℕ) (q : Queue)
      → Agree cprio cprio' (threads q)
      → IsOk cprio q
      → IsOk cprio' q

unfoldable pub multi_level : ℕ → RunQueue
multi_level levels = record {
  Queue = SchedQueue;
  add_schedq = Mlq.add_schedq levels;
  add_schedq_tail = Mlq.add_schedq_tail levels;
  del_schedq = Mlq.del_schedq levels;
  threads = λ q. chain q.heads;
  IsOk = IsValid levels;
  Fits = InRange levels;
  sorted = λ cprio q v. queue-Sorted levels cprio q v;
  added = λ cprio q t v h.
      (add_schedq_refines levels cprio q t v h, add_schedq-IsValid levels cprio q t v h);
  added_tail = λ cprio q t v h.
      (add_schedq_tail_refines levels cprio q t v h, add_schedq_tail-IsValid levels cprio q t v h);
  deleted = λ cprio q t v c.
      (del_schedq_refines levels cprio q t v c, del_schedq-IsValid levels cprio q t v c);
  agreed = λ cprio cprio' q a v. IsValid-Agree cprio cprio' levels q a v;
}

unfoldable pub linear : RunQueue
unfolding Linear.add_schedq Linear.add_schedq_tail Linear.del_schedq
linear = record {
  Queue = List ℕ;
  add_schedq = Linear.add_schedq;
  add_schedq_tail = Linear.add_schedq_tail;
  del_schedq = λ cprio. Linear.del_schedq;
  threads = λ q. q;
  IsOk = λ cprio q. Sorted (prio_of cprio) q;
  Fits = λ cprio t. Unit;
  sorted = λ cprio q v. v;
  added = λ cprio q t v h. (refl, (list_add_prilf_lem (prio_of cprio) t q v).1);
  added_tail = λ cprio q t v h. (refl, (list_add_priff_lem (prio_of cprio) t q v).1);
  deleted = λ cprio q t v c. (refl, Sorted-erase (prio_of cprio) t q v);
  agreed = λ cprio cprio' q a v. Sorted-Agree cprio cprio' q a v;
}
