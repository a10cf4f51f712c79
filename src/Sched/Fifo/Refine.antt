-- ===== src/Sched/Fifo/Refine.antt =====
-- The FIFO class, over both forms of the queue of runnable threads, against a specification on the
-- ready threads of each runqueue, by falling priority.
use spacemit_xenomai.Base.{
  ℕ, ◌≡◌, refl, ap, ◌∙◌, Bool, true, false, List, [], ◌∷◌, ◌++◌, none, some, ◌==◌, if◌then◌else◌,
  fun_ext, ltb, leb, erase, signed32, clear_flags,
}
use spacemit_xenomai.PrioList.Order.{keep, list_add_priff_lem, list_add_prilf_lem}
use spacemit_xenomai.SchedQueue.Linear
use spacemit_xenomai.SchedQueue.Linear.{prio_of}
use spacemit_xenomai.Sched.Runnable.{RunQueue, linear, multi_level}
use spacemit_xenomai.Sched.Fifo.{
  Core, cprio_of, queue_of, put_queue, requeue_fifo_thread, enqueue_fifo_thread,
  dequeue_fifo_thread, track_fifo_priority, ceil_fifo_priority,
}
use spacemit_xenomai.Sched.Fifo.Run.{FifoOp, apply_fifo, run_fifo, IsAllowed, AllAllowed, Inv}
use spacemit_xenomai.Sched.Fifo.Sound.{apply_fifo-Inv}
use spacemit_xenomai.Thread.{Thread}
use spacemit_xenomai.Thread.Flags.{StateFlag, state_flag}

-- The threads, and the sequence of ready threads of each runqueue.
pub record Ready : Type 0 where
  pub threads : ℕ → Thread
  pub ready : ℕ → List ℕ

abbrev put_ready : Ready → ℕ → List ℕ → Ready
put_ready s t q = record s { ready = λ rq. if rq == (s.threads t).rq then q else s.ready rq }

abbrev set_thread : Ready → ℕ → Thread → Ready
set_thread s t thread = record s { threads = λ a. if a == t then thread else s.threads a }

-- A thread that is preempted goes before those of its priority, a thread that becomes ready or
-- yields goes behind them.
unfoldable pub spec_fifo : Ready → FifoOp → Ready
spec_fifo s (FifoOp.requeue t) =
    let at = λ (x : ℕ). signed32 (s.threads x).cprio in
    let q = s.ready (s.threads t).rq in
    put_ready s t (keep (λ x. ltb (at t) (at x)) q ++ (t ∷ keep (λ x. leb (at x) (at t)) q))
spec_fifo s (FifoOp.enqueue t) =
    let at = λ (x : ℕ). signed32 (s.threads x).cprio in
    let q = s.ready (s.threads t).rq in
    put_ready s t (keep (λ x. leb (at t) (at x)) q ++ (t ∷ keep (λ x. ltb (at x) (at t)) q))
spec_fifo s (FifoOp.dequeue t) = put_ready s t (erase t (s.ready (s.threads t).rq))
spec_fifo s (FifoOp.track t (some p)) = set_thread s t (record (s.threads t) { cprio = p.prio })
spec_fifo s (FifoOp.track t none) =
    let thread = s.threads t in
    set_thread s t (record thread {
      cprio = thread.bprio;
      state = clear_flags 32 thread.state (state_flag StateFlag.weak);
    })
spec_fifo s (FifoOp.ceil t prio) = set_thread s t (record (s.threads t) { cprio = prio })

unfoldable pub run_spec : Ready → List FifoOp → Ready
unfolding spec_fifo
run_spec s [] = s
run_spec s (op ∷ ops) = run_spec (spec_fifo s op) ops

module _ (run : RunQueue) where
  open run use {threads, sorted, added, added_tail, deleted}

  abbrev pub as_ready : Core run → Ready
  as_ready s = record { threads = s.threads; ready = λ rq. threads (s.runnable rq) }

  threads-if :
      (b : Bool) (q r : run.Queue)
      → threads (if b then q else r) ≡ (if b then threads q else threads r)
  threads-if true q r = refl
  threads-if false q r = refl

  as_ready-put_queue :
      (s : Core run) (t : ℕ) (q : run.Queue) (l : List ℕ)
      → threads q ≡ l
      → as_ready (put_queue run s t q) ≡ put_ready (as_ready s) t l
  as_ready-put_queue s t q l e =
      ap (λ (f : ℕ → List ℕ). let r : Ready = record { threads = s.threads; ready = f } in r)
        (fun_ext (λ rq.
          threads-if (rq == (s.threads t).rq) q (s.runnable rq)
          ∙ ap (λ (x : List ℕ). if rq == (s.threads t).rq then x else threads (s.runnable rq)) e))

  as_ready-apply_fifo :
      (s : Core run) (op : FifoOp)
      → Inv run s
      → IsAllowed run s op
      → as_ready (apply_fifo run s op) ≡ spec_fifo (as_ready s) op
  unfolding apply_fifo spec_fifo requeue_fifo_thread enqueue_fifo_thread dequeue_fifo_thread
      track_fifo_priority ceil_fifo_priority Linear.add_schedq Linear.add_schedq_tail
      Linear.del_schedq
  as_ready-apply_fifo s (FifoOp.requeue t) inv (absent, fits) =
      let q = queue_of run s t in
      let ok = inv.ok (s.threads t).rq in
      as_ready-put_queue s t (run.add_schedq (cprio_of run s) q t) _ (
        (added (cprio_of run s) q t ok fits).0
        ∙ (list_add_prilf_lem (prio_of (cprio_of run s)) t (threads q)
            (sorted (cprio_of run s) q ok)).0)
  as_ready-apply_fifo s (FifoOp.enqueue t) inv (absent, fits) =
      let q = queue_of run s t in
      let ok = inv.ok (s.threads t).rq in
      as_ready-put_queue s t (run.add_schedq_tail (cprio_of run s) q t) _ (
        (added_tail (cprio_of run s) q t ok fits).0
        ∙ (list_add_priff_lem (prio_of (cprio_of run s)) t (threads q)
            (sorted (cprio_of run s) q ok)).0)
  as_ready-apply_fifo s (FifoOp.dequeue t) inv there =
      as_ready-put_queue s t (run.del_schedq (cprio_of run s) (queue_of run s t) t) _
        (deleted (cprio_of run s) (queue_of run s t) t (inv.ok (s.threads t).rq) there).0
  as_ready-apply_fifo s (FifoOp.track t (some p)) inv h = refl
  as_ready-apply_fifo s (FifoOp.track t none) inv h = refl
  as_ready-apply_fifo s (FifoOp.ceil t prio) inv h = refl

  as_ready-run_fifo :
      (s : Core run) (ops : List FifoOp)
      → Inv run s
      → AllAllowed run s ops
      → as_ready (run_fifo run s ops) ≡ run_spec (as_ready s) ops
  unfolding run_fifo run_spec
  as_ready-run_fifo s [] inv h = refl
  as_ready-run_fifo s (op ∷ ops) inv h =
      as_ready-run_fifo (apply_fifo run s op) ops (apply_fifo-Inv run s op inv h.0) h.1
      ∙ ap (λ r. run_spec r ops) (as_ready-apply_fifo s op inv h.0)

-- From states that have the class's invariant, after any run of operations that are allowed there,
-- the threads and the sequences of ready threads of all runqueues are those of the specification,
-- both over the multi-level queue and over the sorted list: a thread that is requeued stands before
-- those of its priority, one that is enqueued behind them, and a change of priority is that of the
-- thread alone.
pub run_fifo_refines :
    (levels : ℕ) (s : Core (multi_level levels)) (l : Core linear) (ops : List FifoOp)
    → Inv (multi_level levels) s
    → Inv linear l
    → AllAllowed (multi_level levels) s ops
    → AllAllowed linear l ops
    → (as_ready (multi_level levels) (run_fifo (multi_level levels) s ops)
        ≡ run_spec (as_ready (multi_level levels) s) ops)
      × (as_ready linear (run_fifo linear l ops) ≡ run_spec (as_ready linear l) ops)
run_fifo_refines levels s l ops inv inv' allowed allowed' = (
  as_ready-run_fifo (multi_level levels) s ops inv allowed,
  as_ready-run_fifo linear l ops inv' allowed',
)
