-- ===== src/Sched/Fifo/Sound.antt =====
-- The runqueues stay sound over whole runs of the FIFO class.
use spacemit_xenomai.Base.{
  ℕ, ◌+◌, ◌≤◌, ◌≡◌, refl, sym, subst, ap, ◌∙◌, inl, inr, true, false, Bool, Bool-cases, List, [],
  ◌∷◌, some, none, arith, ◌==◌, ==_iff, if◌then◌else◌,
}
use spacemit_xenomai.PrioList.Order.{Sorted}
use spacemit_xenomai.PrioList.Count.{
  once_if, count, count-list_add_priff, count-list_add_prilf, count-erase, All-count,
}
use spacemit_xenomai.SchedQueue.Linear
use spacemit_xenomai.SchedQueue.Linear.{prio_of}
use spacemit_xenomai.Sched.Runnable.{RunQueue}
use spacemit_xenomai.Sched.Fifo.{
  Core, cprio_of, queue_of, put_queue, requeue_fifo_thread, enqueue_fifo_thread,
  dequeue_fifo_thread, track_fifo_priority, ceil_fifo_priority,
}
use spacemit_xenomai.Thread.{Thread}
use spacemit_xenomai.Sched.Fifo.Run.{
  FifoOp, put_thread, apply_fifo, run_fifo, queued, IsAllowed, AllAllowed, Inv,
}

module _ (run : RunQueue) where
  open run use {threads, IsOk, sorted, added, added_tail, deleted, agreed}

  -- What is asked of the queue that replaces the one of `t`.
  stored :
      (s : Core run) (t : ℕ) (q : run.Queue)
      → Inv run s
      → IsOk (cprio_of run s) q
      → ((a : ℕ) → 1 ≤ count a (threads q) → (s.threads a).rq ≡ (s.threads t).rq)
      → ((a : ℕ) → count a (threads q) ≤ 1)
      → Inv run (put_queue run s t q)
  stored s t q inv ok placed once = record {
    ok = λ rq. at (IsOk (cprio_of run s)) rq (λ e. ok) (inv.ok rq);
    placed = λ rq a.
        at (λ q'. 1 ≤ count a (threads q') → (s.threads a).rq ≡ rq) rq (λ e h. placed a h ∙ sym e)
          (inv.placed rq a);
    once = λ rq a. at (λ q'. count a (threads q') ≤ 1) rq (λ e. once a) (inv.once rq a);
  }
    where
      at :
          (P : run.Queue → Type 0) (rq : ℕ)
          → (rq ≡ (s.threads t).rq → P q)
          → P (s.runnable rq)
          → P (if rq == (s.threads t).rq then q else s.runnable rq)
      at P rq new old = elim (Bool-cases (rq == (s.threads t).rq)) [
        | inl e ↦ rw e (new ((==_iff rq (s.threads t).rq).0 e))
        | inr e ↦ rw e old
      ]

  -- A queue that has come by one entry `t`, which it did not have.
  one_more :
      (s : Core run) (t : ℕ) (q : run.Queue)
      → Inv run s
      → queued run s t ≡ 0
      → IsOk (cprio_of run s) q
      → ((a : ℕ) → count a (threads q) ≡ once_if (t == a) + count a (threads (queue_of run s t)))
      → Inv run (put_queue run s t q)
  one_more s t q inv absent ok more =
      stored s t q inv ok
        (λ a h. elim (Bool-cases (t == a)) [
          | inl e ↦ ap (λ x. (s.threads x).rq) (sym ((==_iff t a).0 e))
          | inr e ↦ inv.placed (s.threads t).rq a (omega (arith, more_if false a e))
        ])
        (λ a. elim (Bool-cases (t == a)) [
          | inl e ↦ omega (
            arith,
            more_if true a e,
            subst (λ x. count x (threads (queue_of run s t)) ≡ 0) ((==_iff t a).0 e) absent,
          )
          | inr e ↦ omega (arith, inv.once (s.threads t).rq a, more_if false a e)
        ])
    where
      more_if :
          (b : Bool) (a : ℕ)
          → (t == a) ≡ b
          → count a (threads q) ≡ once_if b + count a (threads (queue_of run s t))
      more_if b a e =
          subst (λ b'. count a (threads q) ≡ once_if b' + count a (threads (queue_of run s t))) e
            (more a)

  requeue_fifo_thread-Inv :
      (s : Core run) (t : ℕ)
      → Inv run s
      → IsAllowed run s (FifoOp.requeue t)
      → Inv run (requeue_fifo_thread run s t)
  unfolding requeue_fifo_thread Linear.add_schedq
  requeue_fifo_thread-Inv s t inv (absent, fits) =
      let prio = cprio_of run s in
      let (seq, ok) = added prio (queue_of run s t) t (inv.ok (s.threads t).rq) fits in
      one_more s t (run.add_schedq prio (queue_of run s t) t) inv absent ok (λ a.
        ap (count a) seq ∙ count-list_add_prilf a (prio_of prio) t (threads (queue_of run s t)))

  enqueue_fifo_thread-Inv :
      (s : Core run) (t : ℕ)
      → Inv run s
      → IsAllowed run s (FifoOp.enqueue t)
      → Inv run (enqueue_fifo_thread run s t)
  unfolding enqueue_fifo_thread Linear.add_schedq_tail
  enqueue_fifo_thread-Inv s t inv (absent, fits) =
      let prio = cprio_of run s in
      let (seq, ok) = added_tail prio (queue_of run s t) t (inv.ok (s.threads t).rq) fits in
      one_more s t (run.add_schedq_tail prio (queue_of run s t) t) inv absent ok (λ a.
        ap (count a) seq ∙ count-list_add_priff a (prio_of prio) t (threads (queue_of run s t)))

  dequeue_fifo_thread-Inv :
      (s : Core run) (t : ℕ)
      → Inv run s
      → IsAllowed run s (FifoOp.dequeue t)
      → Inv run (dequeue_fifo_thread run s t)
  unfolding dequeue_fifo_thread Linear.del_schedq
  dequeue_fifo_thread-Inv s t inv there =
      let prio = cprio_of run s in
      let (seq, ok) = deleted prio (queue_of run s t) t (inv.ok (s.threads t).rq) there in
      let fewer = λ (a : ℕ).
        ap (λ l. once_if (t == a) + count a l) seq
        ∙ count-erase a t (threads (queue_of run s t)) there in
      stored s t (run.del_schedq prio (queue_of run s t) t) inv ok
        (λ a h. inv.placed (s.threads t).rq a (omega (arith, fewer a)))
        (λ a. omega (arith, fewer a, inv.once (s.threads t).rq a))

  -- A thread that its runqueue does not queue is in no queue: its descriptor may change.
  put_thread-Inv :
      (s : Core run) (t : ℕ) (thread : Thread)
      → Inv run s
      → queued run s t ≡ 0
      → thread.rq ≡ (s.threads t).rq
      → Inv run (put_thread run s t thread)
  put_thread-Inv s t thread inv absent same_rq = record {
    ok = λ rq.
        agreed (cprio_of run s) (cprio_of run (put_thread run s t thread)) (s.runnable rq)
          (All-count (λ a. cprio_of run s a ≡ cprio_of run (put_thread run s t thread) a)
            (threads (s.runnable rq)) (λ a h. unchanged rq a h))
          (inv.ok rq);
    placed = λ rq a h. elim (Bool-cases (a == t)) [
      | inl e ↦
          rw e (same_rq ∙ ap (λ x. (s.threads x).rq) (sym ((==_iff a t).0 e)) ∙ inv.placed rq a h)
      | inr e ↦ rw e (inv.placed rq a h)
    ];
    once = inv.once;
  }
    where
      unchanged :
          (rq a : ℕ)
          → 1 ≤ count a (threads (s.runnable rq))
          → cprio_of run s a ≡ cprio_of run (put_thread run s t thread) a
      unchanged rq a h = elim (Bool-cases (a == t)) [
        | inl e ↦
            let same = (==_iff a t).0 e in
            let in_queue = subst (λ x. 1 ≤ count x (threads (s.runnable rq))) same h in
            absurd (
              omega (
                arith,
                absent,
                subst (λ r. 1 ≤ count t (threads (s.runnable r))) (sym (inv.placed rq t in_queue))
                    in_queue,
              ))
        | inr e ↦ rw (e, cprio_of) refl
      ]

  pub apply_fifo-Inv :
      (s : Core run) (op : FifoOp) → Inv run s → IsAllowed run s op → Inv run (apply_fifo run s op)
  unfolding apply_fifo track_fifo_priority ceil_fifo_priority
  apply_fifo-Inv s (FifoOp.requeue t) inv h = requeue_fifo_thread-Inv s t inv h
  apply_fifo-Inv s (FifoOp.enqueue t) inv h = enqueue_fifo_thread-Inv s t inv h
  apply_fifo-Inv s (FifoOp.dequeue t) inv h = dequeue_fifo_thread-Inv s t inv h
  apply_fifo-Inv s (FifoOp.track t none) inv h = put_thread-Inv s t _ inv h refl
  apply_fifo-Inv s (FifoOp.track t (some p)) inv h = put_thread-Inv s t _ inv h refl
  apply_fifo-Inv s (FifoOp.ceil t prio) inv h = put_thread-Inv s t _ inv h refl

  -- From a state in which every queue is valid for the threads' priorities, holds only threads of
  -- its runqueue, and none twice, any run of enqueueings, requeueings, dequeueings and changes of
  -- priority of FIFO threads, each allowed where it is made, ends in such a state; and there every
  -- queue is sorted by falling priority, as the priorities are then. Allowed are the queueing of a
  -- thread that is not queued and whose priority fits, the dequeueing of one that is queued, and
  -- the change of priority of one that is not queued.
  pub run_fifo-Inv :
      (s : Core run) (ops : List FifoOp)
      → Inv run s
      → AllAllowed run s ops
      → Inv run (run_fifo run s ops)
        × ((rq : ℕ)
            → Sorted
                (prio_of (cprio_of run (run_fifo run s ops)))
                (threads ((run_fifo run s ops).runnable rq)))
  unfolding run_fifo
  run_fifo-Inv s [] inv h = (inv, λ rq. sorted (cprio_of run s) (s.runnable rq) (inv.ok rq))
  run_fifo-Inv s (op ∷ ops) inv h =
      run_fifo-Inv (apply_fifo run s op) ops (apply_fifo-Inv s op inv h.0) h.1
