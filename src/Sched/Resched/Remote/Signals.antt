-- ===== src/Sched/Resched/Remote/Signals.antt =====
-- Every request comes to be seen.
use spacemit_xenomai.Base.{
  ℕ, ◌≡◌, ◌≢◌, ◌⊎◌, inl, inr, refl, sym, subst, ap, ◌∙◌, Bool-cases, ==_iff, arith, bit-le, List,
  [], ◌∷◌, true, false, ◌==◌, bit, bit_or,
}
use spacemit_xenomai.Sched.{Rq}
use spacemit_xenomai.Sched.Resched.{set_resched}
use spacemit_xenomai.Sched.Resched.Marks.{sched_digit, set_resched_lem}
use spacemit_xenomai.Sched.Resched.Remote.{Call, run_calls, wanted, asks}
use spacemit_xenomai.Sched.Resched.Remote.Growth.{
  set_resched-Grows, run_calls-Grows, flags-set_resched,
}

-- A CPU other than that of `q` has RQ_SCHED and marks the CPU of `q` for an IPI.
abbrev Signals : (ℕ → Rq) → ℕ → ℕ → Type 0
Signals rqs q cpu =
    (t : ℕ) × (t ≢ q) × (sched_digit (rqs t) ≡ 1) × (bit (rqs t).resched_cpus cpu ≡ 1)

Signals-run_calls :
    (rqs : ℕ → Rq) (calls : List Call) (q cpu : ℕ)
    → Signals rqs q cpu
    → Signals (run_calls rqs calls) q cpu
Signals-run_calls rqs calls q cpu (t, n, s, b) =
    let g = run_calls-Grows rqs calls t in
    let r = run_calls rqs calls t in
    (
      t,
      n,
      omega (arith, g.any, s, bit-le (bit_or r.flags r.local_flags) 28),
      omega (arith, g.targets cpu, b, bit-le r.resched_cpus cpu),
    )

-- A first request of another CPU's runqueue.
first_signal :
    (rqs : ℕ → Rq) (this q : ℕ)
    → this ≢ q
    → bit (rqs q).flags 28 ≡ 0
    → Signals (set_resched rqs this q) q (rqs q).cpu
first_signal rqs this q n clear =
    let marks = (set_resched_lem rqs this q).2 n clear in
    let cpu = (rqs q).cpu in
    (this, n, marks.0, ground (arith, marks.1 cpu, (==_iff cpu cpu).1 refl))

noticed :
    (rqs : ℕ → Rq) (calls : List Call) (q : ℕ)
    → bit (rqs q).flags 28 ≡ 0
    → wanted calls q ≡ true
    → (asks calls q ≡ true) ⊎ Signals (run_calls rqs calls) q (rqs q).cpu
unfolding run_calls
noticed rqs [] q clear w = cc
noticed rqs (c ∷ calls) q clear w = elim (Bool-cases (c.rq == q)) [
  | inl here ↦ elim (Bool-cases (c.this == q)) [
    | inl own ↦ inl (ground arith)
    | inr remote ↦
        let at : c.rq ≡ q = (==_iff c.rq q).0 here in
        let other : c.this ≢ q = λ e. ground (arith, (==_iff c.this q).1 e) in
        let first : Signals (set_resched rqs c.this c.rq) q (rqs q).cpu =
          subst (λ (r : ℕ). Signals (set_resched rqs c.this r) q (rqs q).cpu) (sym at)
            (first_signal rqs c.this q other clear) in
        inr (Signals-run_calls (set_resched rqs c.this c.rq) calls q (rqs q).cpu first)
  ]
  | inr off ↦
      let rqs' = set_resched rqs c.this c.rq in
      let away : q ≢ c.rq = λ e. ground (arith, (==_iff c.rq q).1 (sym e)) in
      let clear' : bit (rqs' q).flags 28 ≡ 0 =
        ap (λ (f : ℕ). bit f 28) (flags-set_resched rqs c.this c.rq q away) ∙ clear in
      let rest = noticed rqs' calls q clear' (ground arith) in
      elim rest [
        | inl own ↦ inl (ground arith)
        | inr far ↦
            inr (
              subst (Signals (run_calls rqs' calls) q) (set_resched-Grows rqs c.this c.rq q).cpu
                far)
      ]
]

raised :
    (rqs : ℕ → Rq) (calls : List Call) (q : ℕ)
    → wanted calls q ≡ true
    → bit (run_calls rqs calls q).flags 28 ≡ 1
unfolding run_calls
raised rqs [] q w = cc
raised rqs (c ∷ calls) q w = elim (Bool-cases (c.rq == q)) [
  | inl here ↦
      let rqs' = set_resched rqs c.this c.rq in
      let set : bit (rqs' q).flags 28 ≡ 1 =
        subst (λ (r : ℕ). bit (rqs' r).flags 28 ≡ 1) ((==_iff c.rq q).0 here)
          (set_resched_lem rqs c.this c.rq).0 in
      omega (
        arith,
        set,
        (run_calls-Grows rqs' calls q).shared,
        bit-le (run_calls rqs' calls q).flags 28,
      )
  | inr off ↦ raised (set_resched rqs c.this c.rq) calls q (ground arith)
]

untouched :
    (rqs : ℕ → Rq) (calls : List Call) (q : ℕ)
    → wanted calls q ≡ false
    → (run_calls rqs calls q).flags ≡ (rqs q).flags
unfolding run_calls
untouched rqs [] q w = refl
untouched rqs (c ∷ calls) q w =
    let away : q ≢ c.rq = λ e. ground (arith, (==_iff c.rq q).1 (sym e)) in
    untouched (set_resched rqs c.this c.rq) calls q (ground arith)
    ∙ flags-set_resched rqs c.this c.rq q away

-- After any sequence of calls of `evl_set_resched` by any CPUs for any runqueues, a runqueue that
-- had no request before and that a call is for has RQ_SCHED, and it comes to be seen: its own CPU
-- made a call for it, or another CPU has RQ_SCHED, so that it goes through `__evl_schedule`, and
-- marks the runqueue's CPU for an IPI. The flags of a runqueue that no call is for stay as they are.
pub run_calls_lem :
    (rqs : ℕ → Rq) (calls : List Call) (q : ℕ)
    → bit (rqs q).flags 28 ≡ 0
    → let rqs' = run_calls rqs calls in
      (wanted calls q ≡ true
        → (bit (rqs' q).flags 28 ≡ 1)
          × ((asks calls q ≡ true)
              ⊎ ((t : ℕ) × (t ≢ q)
                  × (sched_digit (rqs' t) ≡ 1)
                  × (bit (rqs' t).resched_cpus (rqs q).cpu ≡ 1))))
      × (wanted calls q ≡ false → (rqs' q).flags ≡ (rqs q).flags)
run_calls_lem rqs calls q clear =
    ((λ w. (raised rqs calls q w, noticed rqs calls q clear w)), (λ w. untouched rqs calls q w))
