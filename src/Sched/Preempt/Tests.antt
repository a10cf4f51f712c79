-- ===== src/Sched/Preempt/Tests.antt =====
-- The locks on a machine that leaves a trail.
use spacemit_xenomai.Base.{ℕ, ◌≡◌, true, false, List, [], ◌∷◌, arith, ◌==◌, if◌then◌else◌}
use spacemit_xenomai.Sched.Preempt.{
  RawLocks, guarded, guarded_lem, spin_trylock, spin_unlock, spin_trylock_lem,
}

-- The machine is the trail of the locks, and 100 for each call of `evl_schedule`; lock 9 is taken.
abbrev trail : RawLocks (List ℕ)
trail = record {
  raw_spin_lock = λ l w. l ∷ w;
  raw_spin_unlock = λ l w. l ∷ w;
  raw_spin_trylock = λ l w. if l == 9 then (w, false) else (l ∷ w, true);
  raw_spin_lock_irq = λ l w. l ∷ w;
  raw_spin_unlock_irq = λ l w. l ∷ w;
  raw_spin_lock_irqsave = λ l w. l ∷ w;
  raw_spin_unlock_irqrestore = λ l w. l ∷ w;
}

abbrev called : List ℕ → List ℕ
called w = 100 ∷ w

guarded_example :
    guarded trail called (1 ∷ 2 ∷ []) (λ w. 50 ∷ w) (0, []) ≡ (0, 100 ∷ 1 ∷ 2 ∷ 50 ∷ 2 ∷ 1 ∷ [])
guarded_example = guarded_lem trail called (1 ∷ 2 ∷ []) (λ w. 50 ∷ w) 0 [] (omega arith)

spin_trylock_example :
    let (s, got) = spin_trylock trail called 9 (0, []) in
    (got ≡ false)
    × (got ≡ true → spin_unlock trail called 9 s ≡ (0, 100 ∷ 9 ∷ []))
    × (got ≡ false → s ≡ (1, []))
spin_trylock_example = spin_trylock_lem trail called 9 0 [] (omega arith)
