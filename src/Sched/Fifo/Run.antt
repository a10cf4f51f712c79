-- ===== src/Sched/Fifo/Run.antt =====
-- Whole runs of the FIFO class over all runqueues, with changes of priority among them.
use spacemit_xenomai.Base.{ℕ, ◌≤◌, ◌≡◌, true, List, [], ◌∷◌, Option, ◌==◌, contains, if◌then◌else◌}
use spacemit_xenomai.PrioList.Count.{count}
use spacemit_xenomai.Sched.{SchedParam}
use spacemit_xenomai.Sched.Runnable.{RunQueue}
use spacemit_xenomai.Sched.Fifo.{
  Core, cprio_of, queue_of, requeue_fifo_thread, enqueue_fifo_thread, dequeue_fifo_thread,
  track_fifo_priority, ceil_fifo_priority,
}
use spacemit_xenomai.Thread.{Thread}

-- The operations of the class that change a runqueue or the priority of a thread.
pub data FifoOp : Type 0 where
  requeue enqueue dequeue : ℕ → FifoOp
  track : ℕ → Option SchedParam → FifoOp
  ceil : ℕ → ℕ → FifoOp

module _ (run : RunQueue) where
  open run use {threads, IsOk, Fits}

  abbrev pub put_thread : Core run → ℕ → Thread → Core run
  put_thread s t thread = record s { threads = λ a. if a == t then thread else s.threads a }

  unfoldable pub apply_fifo : Core run → FifoOp → Core run
  apply_fifo s (FifoOp.requeue t) = requeue_fifo_thread run s t
  apply_fifo s (FifoOp.enqueue t) = enqueue_fifo_thread run s t
  apply_fifo s (FifoOp.dequeue t) = dequeue_fifo_thread run s t
  apply_fifo s (FifoOp.track t p) = put_thread s t (track_fifo_priority (s.threads t) p)
  apply_fifo s (FifoOp.ceil t prio) = put_thread s t (ceil_fifo_priority (s.threads t) prio)

  unfoldable pub run_fifo : Core run → List FifoOp → Core run
  run_fifo s [] = s
  run_fifo s (op ∷ ops) = run_fifo (apply_fifo s op) ops

  -- How often `t` is in the queue of its runqueue.
  abbrev pub queued : Core run → ℕ → ℕ
  queued s t = count t (threads (queue_of run s t))

  -- A thread is queued while it is not, with a priority that the queue can hold, and dequeued while
  -- it is; and its priority changes while it is not queued, as `evl_track_thread_policy` has it.
  abbrev pub IsAllowed : Core run → FifoOp → Type 0
  IsAllowed s (FifoOp.requeue t) = (queued s t ≡ 0) × Fits (cprio_of run s) t
  IsAllowed s (FifoOp.enqueue t) = (queued s t ≡ 0) × Fits (cprio_of run s) t
  IsAllowed s (FifoOp.dequeue t) = contains t (threads (queue_of run s t)) ≡ true
  IsAllowed s (FifoOp.track t p) = queued s t ≡ 0
  IsAllowed s (FifoOp.ceil t prio) = queued s t ≡ 0

  abbrev pub AllAllowed : Core run → List FifoOp → Type 0
  AllAllowed s [] = Unit
  AllAllowed s (op ∷ ops) = IsAllowed s op × AllAllowed (apply_fifo s op) ops

  pub record Inv (s : Core run) : Type 0 where
    pub ok : (rq : ℕ) → IsOk (cprio_of run s) (s.runnable rq)
    pub placed : (rq t : ℕ) → 1 ≤ count t (threads (s.runnable rq)) → (s.threads t).rq ≡ rq
    pub once : (rq t : ℕ) → count t (threads (s.runnable rq)) ≤ 1
