-- ===== src/Timer/Run/Visits.antt =====
-- The loop over a timer queue, at any point of a run.
use spacemit_xenomai.Base.{
  ℕ, ◌+◌, ◌≤◌, ◌≡◌, refl, ap, ◌∙◌, inl, inr, Bool-cases, List, [], ◌∷◌, arith, ◌==◌, ==_iff, false,
  contains, length,
}
use spacemit_xenomai.Clock.{Gravity}
use spacemit_xenomai.PrioList.Count.{count}
use spacemit_xenomai.Timer.Queue.{for_each_tnode}
use spacemit_xenomai.Timer.Queue.Walk.{Distinct, for_each_tnode_lem}
use spacemit_xenomai.Timer.Run.{Timers, dequeued, Reach, IsInitial}
use spacemit_xenomai.Timer.Run.Invariant.{Reach-Inv}

absent : (a : ℕ) (q : List ℕ) → count a q ≡ 0 → contains a q ≡ false
absent a [] c = refl
absent a (x ∷ q) c = elim (Bool-cases (x == a)) [
  | inl e ↦ absurd (ground arith)
  | inr e ↦ ground (arith, absent a q)
]

count-Distinct : (q : List ℕ) → ((a : ℕ) → count a q ≤ 1) → Distinct q
count-Distinct [] once = tt
count-Distinct (x ∷ q) once = (
  absent x q (ground (arith, once x, (==_iff x x).1 refl)),
  count-Distinct q (λ a. omega (arith, once a)),
)

module _ (gravity : ℕ → Gravity) where
  -- However timers are queued, taken off and given new dates, from a base with all timers off the
  -- queue on, where the callers mind EVL_TIMER_DEQUEUED: `for_each_evl_tnode` ends, when it may take
  -- as many rounds as the queue has nodes, and visits the nodes of the queue in its order, so that
  -- each timer without the flag is visited once, and no other.
  pub for_each_timer_lem :
      {s t : Timers}
      → IsInitial s
      → Reach gravity s t
      → (fuel : ℕ) → length t.queue ≤ fuel
      → (for_each_tnode fuel t.queue ≡ t.queue)
        × ((a : ℕ) → count a (for_each_tnode fuel t.queue) + dequeued t a ≡ 1)
  for_each_timer_lem {s} {t} i r fuel enough =
      let inv = Reach-Inv gravity i r in
      let all =
        for_each_tnode_lem t.queue fuel enough
          (count-Distinct t.queue (λ a. omega (arith, inv.linked a))) in
      (all, (λ a. ap (λ q. count a q + dequeued t a) all ∙ inv.linked a))
