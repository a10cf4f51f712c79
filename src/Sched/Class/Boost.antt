-- ===== src/Sched/Class/Boost.antt =====
-- The priority of a FIFO thread while it is boosted, and after.
use spacemit_xenomai.Base.{
  ℕ, ◌+◌, ◌<◌, ◌≡◌, refl, ap, ap₂, ◌∙◌, Option, some, none, arith, ◌==◌, ==_iff, if◌then◌else◌, u32,
  bit, bit-clear_pow,
}
use spacemit_xenomai.Sched.{ClassOps, SchedParam}
use spacemit_xenomai.Sched.Class.{
  State, thread_at, put_thread, class_of, calc_weighted_prio, update_wprio, track_priority,
  ceil_priority,
}
use spacemit_xenomai.Sched.Fifo.{track_fifo_priority, ceil_fifo_priority}
use spacemit_xenomai.Sched.Runnable.{RunQueue}
use spacemit_xenomai.Thread.{Thread, SchedClass, fifo}

module _ (run : RunQueue) (classes : SchedClass → ClassOps (State run)) where
  -- The table of `evl_sched_fifo`, which is not under the repository's root, names the handlers of
  -- fifo.h.
  pub record IsFifoTable : Type 0 where
    pub tracks :
        (t : ℕ) (p : Option SchedParam) (s : State run)
        → (classes fifo).sched_trackprio t p s
          ≡ put_thread run s t (track_fifo_priority (thread_at run s t) p)
    pub ceils :
        (t prio : ℕ) (s : State run)
        → (classes fifo).sched_ceilprio t prio s
          ≡ put_thread run s t (ceil_fifo_priority (thread_at run s t) prio)

  -- A thread with the weighted priority brought up to date.
  abbrev weighed : Thread → Thread
  weighed thread = record thread {
    wprio = calc_weighted_prio run classes thread.sched_class thread.cprio;
  }

  thread_at-put :
      (s : State run) (t : ℕ) (thread : Thread)
      → thread_at run (put_thread run s t thread) t ≡ thread
  thread_at-put s t thread = rw ((==_iff t t).1 refl) refl

  updated :
      (s : State run) (t : ℕ)
      → thread_at run (update_wprio run classes s t) t ≡ weighed (thread_at run s t)
  unfolding update_wprio
  updated s t = thread_at-put s t (weighed (thread_at run s t))

  tracked :
      (s : State run) (t : ℕ) (p : Option SchedParam)
      → IsFifoTable
      → class_of run classes s t ≡ fifo
      → thread_at run (track_priority run classes s t p) t
        ≡ weighed (track_fifo_priority (thread_at run s t) p)
  unfolding track_priority
  tracked s t p table e =
      updated ((classes (class_of run classes s t)).sched_trackprio t p s) t
      ∙ ap weighed (
          ap (λ c. thread_at run ((classes c).sched_trackprio t p s) t) e
          ∙ ap (λ s'. thread_at run s' t) (table.tracks t p s)
          ∙ thread_at-put s t (track_fifo_priority (thread_at run s t) p))

  ceiled :
      (s : State run) (t prio : ℕ)
      → IsFifoTable
      → class_of run classes s t ≡ fifo
      → thread_at run (ceil_priority run classes s t prio) t
        ≡ weighed (ceil_fifo_priority (thread_at run s t) prio)
  unfolding ceil_priority
  ceiled s t prio table e =
      updated ((classes (class_of run classes s t)).sched_ceilprio t prio s) t
      ∙ ap weighed (
          ap (λ c. thread_at run ((classes c).sched_ceilprio t prio s) t) e
          ∙ ap (λ s'. thread_at run s' t) (table.ceils t prio s)
          ∙ thread_at-put s t (ceil_fifo_priority (thread_at run s t) prio))

  -- For a thread of the FIFO class, whose table names the handlers of fifo.h: `evl_track_priority`
  -- to a priority, then `evl_ceil_priority` to another give it the one and then the other, with the
  -- weighted priority to match; `evl_track_priority` without parameters after that takes it back
  -- to its base priority and clears EVL_T_WEAK, digit 13 of its state, and no other digit.
  pub track_priority_lem :
      (s : State run) (t : ℕ) (p : SchedParam) (prio : ℕ)
      → IsFifoTable
      → class_of run classes s t ≡ fifo
      → let start = thread_at run s t in
        let s1 = track_priority run classes s t (some p) in
        let s2 = ceil_priority run classes s1 t prio in
        let s3 = track_priority run classes s2 t none in
        let weight = (classes fifo).weight in
        ((thread_at run s1 t).cprio ≡ p.prio)
        × ((thread_at run s1 t).wprio ≡ u32 (p.prio + weight))
        × ((thread_at run s2 t).cprio ≡ prio)
        × ((thread_at run s2 t).wprio ≡ u32 (prio + weight))
        × ((thread_at run s3 t).cprio ≡ start.bprio)
        × ((thread_at run s3 t).wprio ≡ u32 (start.bprio + weight))
        × ((k : ℕ)
            → k < 32
            → bit (thread_at run s3 t).state k ≡ (if 13 == k then 0 else bit start.state k))
  unfolding track_fifo_priority ceil_fifo_priority calc_weighted_prio
  track_priority_lem s t p prio table e =
      let start = thread_at run s t in
      let s1 = track_priority run classes s t (some p) in
      let s2 = ceil_priority run classes s1 t prio in
      let e1 = tracked s t (some p) table e in
      let c1 : class_of run classes s1 t ≡ fifo = ap (λ (h : Thread). h.sched_class) e1 ∙ e in
      let e2 = ceiled s1 t prio table c1 in
      let c2 : class_of run classes s2 t ≡ fifo = ap (λ (h : Thread). h.sched_class) e2 ∙ c1 in
      let e3 = tracked s2 t none table c2 in
      let weight = λ (c : SchedClass) (n : ℕ). u32 (n + (classes c).weight) in
      let b2 : (thread_at run s2 t).bprio ≡ start.bprio =
        ap (λ (h : Thread). h.bprio) e2 ∙ ap (λ (h : Thread). h.bprio) e1 in
      let st2 : (thread_at run s2 t).state ≡ start.state =
        ap (λ (h : Thread). h.state) e2 ∙ ap (λ (h : Thread). h.state) e1 in
      (
        ap (λ (h : Thread). h.cprio) e1,
        ap (λ (h : Thread). h.wprio) e1 ∙ ap (λ c. weight c p.prio) e,
        ap (λ (h : Thread). h.cprio) e2,
        ap (λ (h : Thread). h.wprio) e2 ∙ ap (λ c. weight c prio) c1,
        ap (λ (h : Thread). h.cprio) e3 ∙ b2,
        ap (λ (h : Thread). h.wprio) e3 ∙ ap₂ weight c2 b2,
        λ k b.
            ap (λ (h : Thread). bit h.state k) e3
            ∙ bit-clear_pow 32 13 k (thread_at run s2 t).state (omega arith) b
            ∙ ap (λ x. if 13 == k then 0 else bit x k) st2,
      )
