-- ===== src/Timer/Run/Invariant.antt =====
-- The queue holds the timers that are not marked EVL_TIMER_DEQUEUED, once each, by date.
use spacemit_xenomai.Base.{
  ℕ, ◌+◌, ◌≤◌, ◌≡◌, refl, sym, subst, ap, ◌∙◌, inl, inr, Bool-cases, List, [], ◌∷◌, arith, All, bit,
  bit-set_pow, bit-clear_pow, ◌==◌, ==_iff, true, false, contains,
}
use spacemit_xenomai.Clock.{Gravity}
use spacemit_xenomai.PrioList.Count.{count, once_if, count-list_add_priff, count-erase}
use spacemit_xenomai.Timer.Core.{
  Timer, set_date, update_timer_date, enqueue_timer, dequeue_timer, account_timer_scheduled,
}
use spacemit_xenomai.Timer.Queue.{insert_tnode, remove_tnode, init_tqueue}
use spacemit_xenomai.Timer.Queue.Order.{
  date_of, Rising, insert_tnode_lem, remove-Rising, insert-list_add_priff, urgency,
}
use spacemit_xenomai.Timer.Run.{
  Timers, put_timer, dequeued, enqueue, dequeue, reprogram, Step, enqueues, dequeues, reprograms,
  Reach, here, next, IsInitial,
}

pub record Inv (s : Timers) : Type 0 where
  pub named : (a : ℕ) → (s.timer a).node ≡ a
  pub linked : (a : ℕ) → count a s.queue + dequeued s a ≡ 1
  pub rising : Rising s.dates s.queue

count-insert_tnode :
    (dates : ℕ → ℕ) (a node : ℕ) (q : List ℕ)
    → count a (insert_tnode dates q node) ≡ once_if (node == a) + count a q
count-insert_tnode dates a node q =
    ap (count a) (insert-list_add_priff dates q node)
    ∙ count-list_add_priff a (urgency dates) node q

contains-count : (a : ℕ) (q : List ℕ) → 1 ≤ count a q → contains a q ≡ true
contains-count a [] h = absurd (omega arith)
contains-count a (x ∷ q) h = elim (Bool-cases (x == a)) [
  | inl e ↦ ground arith
  | inr e ↦ ground (arith, contains-count a q)
]

-- The date of a node that is not queued does not matter.
All-set_date :
    (dates : ℕ → ℕ) (a d k : ℕ) (q : List ℕ)
    → count a q ≡ 0
    → All (λ m. k ≤ date_of dates m) q
    → All (λ m. k ≤ date_of (set_date dates a d) m) q
All-set_date dates a d k [] c h = tt
All-set_date dates a d k (x ∷ q) c h = elim (Bool-cases (x == a)) [
  | inl e ↦ absurd (ground arith)
  | inr e ↦ rw e (h.0, All-set_date dates a d k q (ground arith) h.1)
]

Rising-set_date :
    (dates : ℕ → ℕ) (a d : ℕ) (q : List ℕ)
    → count a q ≡ 0
    → Rising dates q
    → Rising (set_date dates a d) q
Rising-set_date dates a d [] c r = tt
Rising-set_date dates a d (x ∷ q) c r = elim (Bool-cases (x == a)) [
  | inl e ↦ absurd (ground arith)
  | inr e ↦ rw e (
    All-set_date dates a d (date_of dates x) q (ground arith) r.0,
    Rising-set_date dates a d q (ground arith) r.1,
  )
]

module _ (s : Timers) (a : ℕ) (inv : Inv s) where
  node_after : (t : Timer) → t.node ≡ a → (b : ℕ) → (put_timer s.timer a t b).node ≡ b
  node_after t e b = ground (arith, inv.named b, ==_iff b a)

  linked_after :
      (t : Timer) (q : List ℕ)
      → count a q + bit t.status 0 ≡ 1
      → ((b : ℕ) → (b == a) ≡ false → count b q ≡ count b s.queue)
      → (b : ℕ) → count b q + bit (put_timer s.timer a t b).status 0 ≡ 1
  linked_after t q self others b = elim (Bool-cases (b == a)) [
    | inl e ↦ rw e (ap (λ c. count c q + bit t.status 0) ((==_iff b a).0 e) ∙ self)
    | inr e ↦ rw e (omega (arith, others b e, inv.linked b))
  ]

  enqueue-Inv : dequeued s a ≡ 1 → Inv (enqueue s a)
  unfolding enqueue enqueue_timer account_timer_scheduled
  enqueue-Inv off =
      let t = s.timer a in
      let at = inv.named a in
      record {
        named = node_after _ at;
        linked =
            linked_after _ (insert_tnode s.dates s.queue t.node)
              (ground (
                arith,
                count-insert_tnode s.dates a t.node s.queue,
                ==_iff t.node a,
                bit-clear_pow 32 0 0 t.status,
                inv.linked a,
              ))
              (λ b e.
                ground (
                  arith,
                  count-insert_tnode s.dates b t.node s.queue,
                  ==_iff t.node b,
                  ==_iff b a,
                ));
        rising = (insert_tnode_lem s.dates s.queue t.node inv.rising).1;
      }

  dequeue-Inv : dequeued s a ≡ 0 → Inv (dequeue s a)
  unfolding dequeue dequeue_timer remove_tnode
  dequeue-Inv on =
      let t = s.timer a in
      let at = inv.named a in
      let linked : contains t.node s.queue ≡ true =
        subst (λ n. contains n s.queue ≡ true) (sym at)
          (contains-count a s.queue (omega (arith, inv.linked a))) in
      record {
        named = node_after _ at;
        linked =
            linked_after _ (remove_tnode s.queue t.node)
              (ground (
                arith,
                count-erase a t.node s.queue linked,
                ==_iff t.node a,
                bit-set_pow 0 0 t.status,
                inv.linked a,
              ))
              (λ b e.
                ground (arith, count-erase b t.node s.queue linked, ==_iff t.node b, ==_iff b a));
        rising = remove-Rising s.dates s.queue t.node inv.rising;
      }

  reprogram-Inv :
      (gravity : ℕ → Gravity) (start interval ticks : ℕ)
      → dequeued s a ≡ 1
      → Inv (reprogram gravity s a start interval ticks)
  unfolding reprogram update_timer_date
  reprogram-Inv gravity start interval ticks off =
      let at = inv.named a in
      record {
        named = node_after _ at;
        linked = linked_after _ s.queue (inv.linked a) (λ b e. refl);
        rising =
            Rising-set_date s.dates (s.timer a).node _ s.queue
              (ap (λ n. count n s.queue) at ∙ omega (arith, inv.linked a)) inv.rising;
      }

initial-Inv : (s : Timers) → IsInitial s → Inv s
unfolding init_tqueue
initial-Inv s i = record {
  named = i.named;
  linked = λ a. ap (λ q. count a q + dequeued s a) i.empty ∙ omega (arith, i.off a);
  rising = subst (Rising s.dates) (sym i.empty) tt;
}

module _ (gravity : ℕ → Gravity) where
  Step-Inv : {s t : Timers} → Step gravity s t → Inv s → Inv t
  Step-Inv (enqueues s a off) inv = enqueue-Inv s a inv off
  Step-Inv (dequeues s a on) inv = dequeue-Inv s a inv on
  Step-Inv (reprograms s a start interval ticks off) inv =
      reprogram-Inv s a inv gravity start interval ticks off

  pub Reach-Inv : {s t : Timers} → IsInitial s → Reach gravity s t → Inv t
  Reach-Inv {s} i here = initial-Inv s i
  Reach-Inv i (next r st) = Step-Inv st (Reach-Inv i r)
