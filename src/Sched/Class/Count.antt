-- ===== src/Sched/Class/Count.antt =====
-- The count of the threads that a scheduling class has: evl_declare_thread() and
-- evl_forget_thread() of kernel-overlay/include/evl/sched.h.
use spacemit_xenomai.Base.{
  ℕ, ◌+◌, ◌-◌, ◌<◌, ◌^◌, ◌≡◌, ◌≢◌, refl, ap, ◌∙◌, inl, inr, true, false, Bool-cases, not, ◌&&◌,
  Option-cases, some, arith, ◌==◌, ==_iff, if◌then◌else◌, u32,
}
use spacemit_xenomai.Sched.{ClassOps, SchedParam}
use spacemit_xenomai.Sched.Class.{
  count_thread, State, same_class, base_of, declare_thread, forget_thread,
}
use spacemit_xenomai.Sched.Runnable.{RunQueue}
use spacemit_xenomai.Thread.{SchedClass, fifo, idle, other}

same_class_refl : (c : SchedClass) → same_class c c ≡ true
same_class_refl fifo = refl
same_class_refl idle = refl
same_class_refl (other a) = (==_iff a a).1 refl

same_class_eq : (c d : SchedClass) → same_class c d ≡ true → c ≡ d
same_class_eq fifo fifo h = refl
same_class_eq idle idle h = refl
same_class_eq (other a) (other b) h = ap other ((==_iff a b).0 h)
same_class_eq fifo idle h = cc
same_class_eq fifo (other b) h = cc
same_class_eq idle fifo h = cc
same_class_eq idle (other b) h = cc
same_class_eq (other a) fifo h = cc
same_class_eq (other a) idle h = cc

module _ (run : RunQueue) (classes : SchedClass → ClassOps (State run)) where
  -- The handlers of the classes are not under the repository's root. Of `sched_declare` and
  -- `sched_forget` the core relies on this: they leave the counts alone, which are the core's, and
  -- the thread's base class.
  pub record KeepsCounts : Type 0 where
    pub declared :
        (c : SchedClass) (declare : ℕ → SchedParam → State run → State run × ℕ)
        → (classes c).sched_declare ≡ some declare
        → (t : ℕ) (p : SchedParam) (s : State run)
        → ((declare t p s).0.nthreads ≡ s.nthreads)
          × (base_of run classes (declare t p s).0 t ≡ base_of run classes s t)
    pub forgot :
        (c : SchedClass) (forget : ℕ → State run → State run)
        → (classes c).sched_forget ≡ some forget
        → (t : ℕ) (s : State run) → (forget t s).nthreads ≡ s.nthreads

  -- What a successful declaration makes of the counts.
  abbrev pub count_after : State run → SchedClass → ℕ → SchedClass → ℕ
  count_after s c t d =
      if same_class d c && not (same_class c (base_of run classes s t))
      then u32 (s.nthreads c + 1)
      else s.nthreads d

  abbrev Counted : State run → SchedClass → ℕ → State run × ℕ → Type 0
  Counted s c t r =
      (r.1 ≢ 0 → r.0.nthreads ≡ s.nthreads)
      × (r.1 ≡ 0 → (d : SchedClass) → r.0.nthreads d ≡ count_after s c t d)

  counted_at :
      (s' s : State run) (c : SchedClass) (t : ℕ) (d : SchedClass)
      → s'.nthreads ≡ s.nthreads
      → base_of run classes s' t ≡ base_of run classes s t
      → (count_thread run classes c t s').nthreads d ≡ count_after s c t d
  counted_at s' s c t d e b =
      let ec : s'.nthreads c ≡ s.nthreads c = ap (λ f. f c) e in
      let ed : s'.nthreads d ≡ s.nthreads d = ap (λ f. f d) e in
      let eb : same_class c (base_of run classes s' t) ≡ same_class c (base_of run classes s t) =
        ap (same_class c) b in
      ground arith

  -- The end of `evl_declare_thread`, after the class's handler.
  abbrev finish : SchedClass → ℕ → State run × ℕ → State run × ℕ
  finish c t (s', ret) = if not (ret == 0) then (s', ret) else (count_thread run classes c t s', 0)

  finish_at :
      (s : State run) (c : SchedClass) (t : ℕ) (r : State run × ℕ)
      → r.0.nthreads ≡ s.nthreads
      → base_of run classes r.0 t ≡ base_of run classes s t
      → Counted s c t (finish c t r)
  finish_at s c t (s', ret) e b = elim (Bool-cases (ret == 0)) [
    | inl z ↦ rw z ((λ n. absurd (n refl)), λ z' d. counted_at s' s c t d e b)
    | inr n ↦ rw n ((λ n'. e), λ z d. absurd (ground arith))
  ]

  declare_at :
      (s : State run) (c : SchedClass) (t : ℕ) (p : SchedParam)
      → KeepsCounts
      → Counted s c t (declare_thread run classes c t p s)
  unfolding declare_thread
  declare_at s c t p keeps = elim (Option-cases (classes c).sched_declare) [
    | inl e ↦ rw (e, declare_thread) ((λ n. absurd (n refl)), λ z d. counted_at s s c t d refl refl)
    | inr (declare, e) ↦
        let kept = keeps.declared c declare e t p s in
        rw (e, declare_thread) (finish_at s c t (declare t p s) kept.0 kept.1)
  ]

  abbrev dropped : State run → ℕ → State run
  dropped s t =
      let c = base_of run classes s t in
      record s {
        nthreads = λ d. if same_class d c then u32 (s.nthreads c + 2 ^ 32 - 1) else s.nthreads d;
      }

  forget_at :
      (s : State run) (t : ℕ) (d : SchedClass)
      → KeepsCounts
      → (forget_thread run classes s t).nthreads d ≡ (dropped s t).nthreads d
  unfolding forget_thread
  forget_at s t d keeps =
      let c = base_of run classes s t in
      elim (Option-cases (classes c).sched_forget) [
        | inl e ↦ rw (e, forget_thread) refl
        | inr (forget, e) ↦
            rw (e, forget_thread) (ap (λ f. f d) (keeps.forgot c forget e t (dropped s t)))
      ]

  -- `evl_declare_thread` that fails leaves all counts of threads as they were. One that returns 0
  -- adds 1 to the count of the class, in 32-bit arithmetic, unless that is the thread's base class
  -- already, and leaves all other counts. If it added 1, without overflow, then `evl_forget_thread`
  -- in any later state with these counts, in which the class is the thread's base class, brings all
  -- counts back to what they were.
  pub declare_thread_lem :
      (s later : State run) (c : SchedClass) (t : ℕ) (p : SchedParam)
      → KeepsCounts
      → let (s', ret) = declare_thread run classes c t p s in
        (ret ≢ 0 → s'.nthreads ≡ s.nthreads)
        × (ret ≡ 0 → (d : SchedClass) → s'.nthreads d ≡ count_after s c t d)
        × (ret ≡ 0
            → same_class c (base_of run classes s t) ≡ false
            → s.nthreads c + 1 < 2 ^ 32
            → later.nthreads ≡ s'.nthreads
            → base_of run classes later t ≡ c
            → (d : SchedClass) → (forget_thread run classes later t).nthreads d ≡ s.nthreads d)
  declare_thread_lem s later c t p keeps =
      let r = declare_thread run classes c t p s in
      let counted = declare_at s c t p keeps in
      (
        counted.0,
        counted.1,
        λ z new small same base d.
            forget_at later t d keeps
            ∙ restored later s r.0 c t d new small same base (counted.1 z),
      )
    where
      restored :
          (later s s' : State run) (c : SchedClass) (t : ℕ) (d : SchedClass)
          → same_class c (base_of run classes s t) ≡ false
          → s.nthreads c + 1 < 2 ^ 32
          → later.nthreads ≡ s'.nthreads
          → base_of run classes later t ≡ c
          → ((d : SchedClass) → s'.nthreads d ≡ count_after s c t d)
          → (dropped later t).nthreads d ≡ s.nthreads d
      restored later s s' c t d new small same base counts =
          let ec : later.nthreads (base_of run classes later t) ≡ s'.nthreads c =
            ap (λ f. f (base_of run classes later t)) same ∙ ap s'.nthreads base in
          let ed : later.nthreads d ≡ s'.nthreads d = ap (λ f. f d) same in
          let eb : same_class d (base_of run classes later t) ≡ same_class d c =
            ap (same_class d) base in
          elim (Bool-cases (same_class d c)) [
            | inl e ↦
                let sd : s.nthreads d ≡ s.nthreads c = ap s.nthreads (same_class_eq d c e) in
                ground (arith, counts c, counts d, same_class_refl c)
            | inr e ↦ ground (arith, counts d)
          ]
