-- ===== src/SchedQueue/Mlq/Agree.antt =====
-- A queue of runnable threads does not depend on the priorities of the threads that it lacks.
use spacemit_xenomai.Base.{
  ℕ, suc, ◌<◌, ◌≤◌, signed32, ◌≡◌, subst, List, [], ◌∷◌, All, All-left, All-right,
}
use spacemit_xenomai.SchedQueue.Linear.{prio_of}
use spacemit_xenomai.SchedQueue.Mlq.{SchedQueue, get_qindex}
use spacemit_xenomai.SchedQueue.Mlq.Heads.{chain, Placed}
use spacemit_xenomai.SchedQueue.Mlq.Invariant.{IsValid, level_of}
use spacemit_xenomai.PrioList.Order.{Sorted}

module _ (cprio cprio' : ℕ → ℕ) where
  abbrev pub Agree : List ℕ → Type 0
  Agree = All (λ t. cprio t ≡ cprio' t)

  All-Agree {κ} :
      (P : ℕ → Type κ) (xs : List ℕ)
      → Agree xs
      → All (λ t. P (cprio t)) xs
      → All (λ t. P (cprio' t)) xs
  All-Agree P [] a h = tt
  All-Agree P (x ∷ xs) a h = (subst P a.0 h.0, All-Agree P xs a.1 h.1)

  pub Sorted-Agree :
      (xs : List ℕ) → Agree xs → Sorted (prio_of cprio) xs → Sorted (prio_of cprio') xs
  Sorted-Agree [] a s = tt
  Sorted-Agree (x ∷ xs) a s = (
    subst (λ c. All (λ y. prio_of cprio' y ≤ signed32 c) xs) a.0
        (All-Agree (λ c. signed32 c ≤ prio_of cprio x) xs a.1 s.0),
    Sorted-Agree xs a.1 s.1,
  )

  Placed-Agree :
      (levels off : ℕ) (ls : List (List ℕ))
      → Agree (chain ls)
      → Placed (level_of levels cprio) off ls
      → Placed (level_of levels cprio') off ls
  Placed-Agree levels off [] a p = tt
  Placed-Agree levels off (l ∷ ls) a p = (
    All-Agree (λ c. get_qindex levels c ≡ off) l (All-left (λ t. cprio t ≡ cprio' t) l (chain ls) a)
        p.0,
    Placed-Agree levels (suc off) ls (All-right (λ t. cprio t ≡ cprio' t) l (chain ls) a) p.1,
  )

  pub IsValid-Agree :
      (levels : ℕ) (q : SchedQueue)
      → Agree (chain q.heads)
      → IsValid levels cprio q
      → IsValid levels cprio' q
  IsValid-Agree levels q a v = record {
    small = v.small;
    size = v.size;
    counted = v.counted;
    mapped = v.mapped;
    placed = Placed-Agree levels 0 q.heads a v.placed;
    ranged = All-Agree (λ c. c < levels) (chain q.heads) a v.ranged;
  }
