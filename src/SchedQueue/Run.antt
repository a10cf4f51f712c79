-- ===== src/SchedQueue/Run.antt =====
-- Whole runs of a queue of runnable threads: the two forms side by side.
use spacemit_xenomai.Base.{ℕ, ◌≡◌, refl, true, List, [], ◌∷◌, subst, sym, ap, ◌∙◌, contains}
use spacemit_xenomai.SchedQueue.Linear
use spacemit_xenomai.SchedQueue.Linear.{prio_of}
use spacemit_xenomai.SchedQueue.Mlq
use spacemit_xenomai.SchedQueue.Mlq.{SchedQueue}
use spacemit_xenomai.SchedQueue.Mlq.Heads.{chain}
use spacemit_xenomai.SchedQueue.Mlq.Invariant.{
  IsValid, InRange, add_schedq-IsValid, add_schedq_tail-IsValid, del_schedq-IsValid,
}
use spacemit_xenomai.SchedQueue.Refine.{
  add_schedq_refines, add_schedq_tail_refines, del_schedq_refines, queue-Sorted,
}
use spacemit_xenomai.PrioList.Order.{Sorted}

-- The calls that a runqueue makes of its queue.
pub data QueueOp : Type 0 where
  add add_tail del : ℕ → QueueOp

module _ (levels : ℕ) (cprio : ℕ → ℕ) where
  unfoldable pub apply_scalable : SchedQueue → QueueOp → SchedQueue
  apply_scalable q (QueueOp.add t) = Mlq.add_schedq levels cprio q t
  apply_scalable q (QueueOp.add_tail t) = Mlq.add_schedq_tail levels cprio q t
  apply_scalable q (QueueOp.del t) = Mlq.del_schedq levels cprio q t

  unfoldable pub apply_plain : List ℕ → QueueOp → List ℕ
  apply_plain l (QueueOp.add t) = Linear.add_schedq cprio l t
  apply_plain l (QueueOp.add_tail t) = Linear.add_schedq_tail cprio l t
  apply_plain l (QueueOp.del t) = Linear.del_schedq l t

  unfoldable pub run_scalable : SchedQueue → List QueueOp → SchedQueue
  run_scalable q [] = q
  run_scalable q (op ∷ ops) = run_scalable (apply_scalable q op) ops

  unfoldable pub run_plain : List ℕ → List QueueOp → List ℕ
  run_plain l [] = l
  run_plain l (op ∷ ops) = run_plain (apply_plain l op) ops

  -- A thread is added with a priority in range, and removed when it is queued.
  abbrev pub IsAllowed : List ℕ → QueueOp → Type 0
  IsAllowed l (QueueOp.add t) = InRange levels cprio t
  IsAllowed l (QueueOp.add_tail t) = InRange levels cprio t
  IsAllowed l (QueueOp.del t) = contains t l ≡ true

  abbrev pub AllAllowed : List ℕ → List QueueOp → Type 0
  AllAllowed l [] = Unit
  AllAllowed l (op ∷ ops) = IsAllowed l op × AllAllowed (apply_plain l op) ops

  applied :
      (q : SchedQueue) (op : QueueOp)
      → IsValid levels cprio q
      → IsAllowed (chain q.heads) op
      → (chain (apply_scalable q op).heads ≡ apply_plain (chain q.heads) op)
        × IsValid levels cprio (apply_scalable q op)
  unfolding apply_scalable apply_plain
  applied q (QueueOp.add t) v h =
      (add_schedq_refines levels cprio q t v h, add_schedq-IsValid levels cprio q t v h)
  applied q (QueueOp.add_tail t) v h =
      (add_schedq_tail_refines levels cprio q t v h, add_schedq_tail-IsValid levels cprio q t v h)
  applied q (QueueOp.del t) v h =
      (del_schedq_refines levels cprio q t v h, del_schedq-IsValid levels cprio q t v h)

  ran :
      (q : SchedQueue) (ops : List QueueOp)
      → IsValid levels cprio q
      → AllAllowed (chain q.heads) ops
      → (chain (run_scalable q ops).heads ≡ run_plain (chain q.heads) ops)
        × IsValid levels cprio (run_scalable q ops)
  unfolding run_scalable run_plain
  ran q [] v h = (refl, v)
  ran q (op ∷ ops) v h =
      let (same, v') = applied q op v h.0 in
      let (e, v'') =
        ran (apply_scalable q op) ops v' (subst (λ l. AllAllowed l ops) (sym same) h.1) in
      (e ∙ ap (λ l. run_plain l ops) same, v'')

  -- After any run of additions of threads whose priorities are in range and removals of threads
  -- that are queued, from a valid queue on, the scalable form holds the same sequence of threads
  -- as the plain form does after the same run; that sequence is sorted by falling priority; and
  -- the scalable form is valid: the count, the bitmap and the levels agree with it.
  pub run_scalable_refines :
      (q : SchedQueue) (ops : List QueueOp)
      → IsValid levels cprio q
      → AllAllowed (chain q.heads) ops
      → (chain (run_scalable q ops).heads ≡ run_plain (chain q.heads) ops)
        × Sorted (prio_of cprio) (run_plain (chain q.heads) ops)
        × IsValid levels cprio (run_scalable q ops)
  run_scalable_refines q ops v h =
      let (same, v') = ran q ops v h in
      (
        same,
        subst (Sorted (prio_of cprio)) same (queue-Sorted levels cprio (run_scalable q ops) v'),
        v',
      )
