-- ===== src/Timer/Run/Earliest.antt =====
-- The head of the queue is the next timer to expire, and no armed timer is missed.
use spacemit_xenomai.Base.{
  ℕ, ◌+◌, ◌≤◌, ◌≡◌, ◌↔◌, refl, subst, inl, inr, Bool-cases, List, [], ◌∷◌, some, arith, All, ◌==◌,
  ==_iff, true,
}
use spacemit_xenomai.Clock.{Gravity}
use spacemit_xenomai.PrioList.Count.{count}
use spacemit_xenomai.Timer.Queue.{get_tqueue_head, tqueue_is_empty}
use spacemit_xenomai.Timer.Queue.Order.{date_of, Rising}
use spacemit_xenomai.Timer.Run.{Timers, dequeued, Reach, IsInitial}
use spacemit_xenomai.Timer.Run.Invariant.{Reach-Inv}

at_count {κ} : (P : ℕ → Type κ) (a : ℕ) (q : List ℕ) → 1 ≤ count a q → All P q → P a
at_count P a [] c h = absurd (omega arith)
at_count P a (x ∷ q) c h = elim (Bool-cases (x == a)) [
  | inl e ↦ subst P ((==_iff x a).0 e) h.0
  | inr e ↦ at_count P a q (ground arith) h.1
]

-- There is a head, it is queued, and its date is no later than that of `a`.
abbrev HasHead : (ℕ → ℕ) → List ℕ → ℕ → Type 0
HasHead dates q a =
    (h : ℕ) × (get_tqueue_head q ≡ some h) × (1 ≤ count h q) × (date_of dates h ≤ date_of dates a)

headed : (dates : ℕ → ℕ) (a : ℕ) (q : List ℕ) → Rising dates q → 1 ≤ count a q → HasHead dates q a
unfolding get_tqueue_head
headed dates a [] r c = absurd (omega arith)
headed dates a (x ∷ q) r c = (
  x,
  refl,
  ground (arith, (==_iff x x).1 refl),
  at_count (λ m. date_of dates x ≤ date_of dates m) a (x ∷ q) c (omega arith, r.0),
)

empty_lem : (q : List ℕ) → (tqueue_is_empty q ≡ true) ↔ ((a : ℕ) → count a q ≡ 0)
unfolding tqueue_is_empty
empty_lem [] = (λ e a. refl, λ h. refl)
empty_lem (x ∷ q) = (λ e. cc, λ h. absurd (ground (arith, h x, (==_iff x x).1 refl)))

module _ (gravity : ℕ → Gravity) where
  -- However timers are queued, taken off and given new dates, from a base with all timers off the
  -- queue on, where the callers mind EVL_TIMER_DEQUEUED: a timer's node is in the queue exactly once
  -- if the timer does not have the flag, and else not at all; the queue is sorted by date; it is
  -- empty if and only if all timers have the flag; and if a timer does not have it, then the queue
  -- has a head, which does not have it either, and whose date is no later than the timer's.
  pub timers_lem :
      {s t : Timers}
      → IsInitial s
      → Reach gravity s t
      → ((a : ℕ) → count a t.queue + dequeued t a ≡ 1)
        × Rising t.dates t.queue
        × ((tqueue_is_empty t.queue ≡ true) ↔ ((a : ℕ) → dequeued t a ≡ 1))
        × ((a : ℕ)
            → dequeued t a ≡ 0
            → (h : ℕ) × (get_tqueue_head t.queue ≡ some h)
              × (dequeued t h ≡ 0)
              × (date_of t.dates h ≤ date_of t.dates a))
  timers_lem {s} {t} i r =
      let inv = Reach-Inv gravity i r in
      (
        inv.linked,
        inv.rising,
        (
          (λ e a. omega (arith, (empty_lem t.queue).0 e a, inv.linked a)),
          (λ off. (empty_lem t.queue).1 (λ a. omega (arith, off a, inv.linked a))),
        ),
        (λ a on.
            let (h, head, queued, early) =
              headed t.dates a t.queue inv.rising (omega (arith, inv.linked a)) in
            (h, head, omega (arith, inv.linked h), early)),
      )
