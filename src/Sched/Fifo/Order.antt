-- ===== src/Sched/Fifo/Order.antt =====
-- Where a FIFO thread goes in the queue of runnable threads.
use spacemit_xenomai.Base.{
  ℕ, ◌≤◌, ◌≡◌, refl, sym, subst, ap, ap₂, ◌∙◌, true, false, List, ◌∷◌, ◌++◌, arith, ◌==◌, ==_iff,
  leb, ltb, contains, erase, All, All-mono, if◌then◌else◌,
}
use spacemit_xenomai.PrioList.Order.{
  Sorted, keep, keep-All, keep_none, list_add_priff_lem, list_add_prilf_lem,
}
use spacemit_xenomai.PrioList.Removal.{erase_self}
use spacemit_xenomai.SchedQueue.Refine.{keep_cong}
use spacemit_xenomai.SchedQueue.Linear
use spacemit_xenomai.SchedQueue.Linear.{prio_of}
use spacemit_xenomai.Sched.Runnable.{RunQueue}
use spacemit_xenomai.Sched.Fifo.{
  Core, cprio_of, queue_of, requeue_fifo_thread, enqueue_fifo_thread, dequeue_fifo_thread,
}

module _ (run : RunQueue) where
  open run use {threads, IsOk, Fits, sorted, added, added_tail, deleted}

  -- The threads that are runnable on the runqueue of `t`, first one first.
  abbrev pub runnable_with : Core run → ℕ → List ℕ
  runnable_with s t = threads (queue_of run s t)

  chosen : (a : ℕ) (q r : run.Queue) → (if a == a then q else r) ≡ q
  chosen a q r = rw ((==_iff a a).1 refl) refl

  head_deleted :
      (s : Core run) (t : ℕ) (rest : List ℕ)
      → IsOk (cprio_of run s) (queue_of run s t)
      → runnable_with s t ≡ t ∷ rest
      → (runnable_with (dequeue_fifo_thread run s t) t ≡ rest)
        × IsOk (cprio_of run s) (queue_of run (dequeue_fifo_thread run s t) t)
  unfolding dequeue_fifo_thread Linear.del_schedq
  head_deleted s t rest ok e =
      let at =
        chosen (s.threads t).rq (run.del_schedq (cprio_of run s) (queue_of run s t) t)
          (queue_of run s t) in
      let (seq, ok') =
        deleted (cprio_of run s) (queue_of run s t) t ok (ap (contains t) e ∙ there t rest) in
      (
        ap threads at ∙ seq ∙ ap (erase t) e ∙ erase_self t rest,
        subst (IsOk (cprio_of run s)) (sym at) ok',
      )
    where
      there : (t : ℕ) (rest : List ℕ) → contains t (t ∷ rest) ≡ true
      there t rest = ground (arith, (==_iff t t).1 refl)

  requeued :
      (s : Core run) (t : ℕ) (rest : List ℕ)
      → IsOk (cprio_of run s) (queue_of run s t)
      → Fits (cprio_of run s) t
      → runnable_with s t ≡ rest
      → All (λ x. prio_of (cprio_of run s) x ≤ prio_of (cprio_of run s) t) rest
      → (runnable_with (requeue_fifo_thread run s t) t ≡ t ∷ rest)
        × IsOk (cprio_of run s) (queue_of run (requeue_fifo_thread run s t) t)
  unfolding requeue_fifo_thread Linear.add_schedq
  requeued s t rest ok fits e below =
      let pri = prio_of (cprio_of run s) in
      let at =
        chosen (s.threads t).rq (run.add_schedq (cprio_of run s) (queue_of run s t) t)
          (queue_of run s t) in
      let (seq, ok') = added (cprio_of run s) (queue_of run s t) t ok fits in
      let sort = subst (Sorted pri) e (sorted (cprio_of run s) (queue_of run s t) ok) in
      (
        ap threads at
            ∙ seq
            ∙ ap (λ q. Linear.add_schedq (cprio_of run s) q t) e
            ∙ (list_add_prilf_lem pri t rest sort).0
            ∙ ap₂ (λ xs ys. xs ++ (t ∷ ys))
                (keep_none (λ x. ltb (pri t) (pri x)) rest
                  (All-mono (λ x. pri x ≤ pri t) (λ x. ltb (pri t) (pri x) ≡ false) rest
                    (λ x h. ground arith) below))
                (keep-All (λ x. leb (pri x) (pri t)) rest
                  (All-mono (λ x. pri x ≤ pri t) (λ x. leb (pri x) (pri t) ≡ true) rest
                    (λ x h. ground arith) below)),
        subst (IsOk (cprio_of run s)) (sym at) ok',
      )

  enqueued :
      (s : Core run) (t : ℕ) (rest : List ℕ)
      → IsOk (cprio_of run s) (queue_of run s t)
      → Fits (cprio_of run s) t
      → runnable_with s t ≡ rest
      → All (λ x. prio_of (cprio_of run s) x ≤ prio_of (cprio_of run s) t) rest
      → (runnable_with (enqueue_fifo_thread run s t) t
          ≡ keep (λ x. prio_of (cprio_of run s) x == prio_of (cprio_of run s) t) rest
            ++ (t ∷ keep (λ x. ltb (prio_of (cprio_of run s) x) (prio_of (cprio_of run s) t)) rest))
        × IsOk (cprio_of run s) (queue_of run (enqueue_fifo_thread run s t) t)
  unfolding enqueue_fifo_thread Linear.add_schedq_tail
  enqueued s t rest ok fits e below =
      let pri = prio_of (cprio_of run s) in
      let at =
        chosen (s.threads t).rq (run.add_schedq_tail (cprio_of run s) (queue_of run s t) t)
          (queue_of run s t) in
      let (seq, ok') = added_tail (cprio_of run s) (queue_of run s t) t ok fits in
      let sort = subst (Sorted pri) e (sorted (cprio_of run s) (queue_of run s t) ok) in
      (
        ap threads at
            ∙ seq
            ∙ ap (λ q. Linear.add_schedq_tail (cprio_of run s) q t) e
            ∙ (list_add_priff_lem pri t rest sort).0
            ∙ ap (λ xs. xs ++ (t ∷ keep (λ x. ltb (pri x) (pri t)) rest))
                (keep_cong (λ x. leb (pri t) (pri x)) (λ x. pri x == pri t) rest
                  (All-mono (λ x. pri x ≤ pri t) (λ x. leb (pri t) (pri x) ≡ (pri x == pri t)) rest
                    (λ x h. ground arith) below)),
        subst (IsOk (cprio_of run s)) (sym at) ok',
      )

  -- For a runnable thread that comes first on its runqueue: dequeueing and requeueing it, as on a
  -- preemption, leaves the order of the runnable threads as it was; dequeueing and enqueueing it,
  -- as when it yields, puts it behind the threads of its priority and before those of lower
  -- priority; and both leave the queue valid.
  pub dequeue_fifo_thread_lem :
      (s : Core run) (t : ℕ) (rest : List ℕ)
      → IsOk (cprio_of run s) (queue_of run s t)
      → Fits (cprio_of run s) t
      → runnable_with s t ≡ t ∷ rest
      → let prio = prio_of (cprio_of run s) in
        let preempted = requeue_fifo_thread run (dequeue_fifo_thread run s t) t in
        let yielded = enqueue_fifo_thread run (dequeue_fifo_thread run s t) t in
        (runnable_with preempted t ≡ t ∷ rest)
        × (runnable_with yielded t
            ≡ keep (λ x. prio x == prio t) rest ++ (t ∷ keep (λ x. ltb (prio x) (prio t)) rest))
        × IsOk (cprio_of run s) (queue_of run preempted t)
        × IsOk (cprio_of run s) (queue_of run yielded t)
  unfolding dequeue_fifo_thread
  dequeue_fifo_thread_lem s t rest ok fits e =
      let s' = dequeue_fifo_thread run s t in
      let (seq, ok') = head_deleted s t rest ok e in
      let below =
        (subst (Sorted (prio_of (cprio_of run s))) e
          (sorted (cprio_of run s) (queue_of run s t) ok)).0 in
      let (first, ok1) = requeued s' t rest ok' fits seq below in
      let (second, ok2) = enqueued s' t rest ok' fits seq below in (first, second, ok1, ok2)
