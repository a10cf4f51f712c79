-- ===== src/Sched/Resched/Remote/Growth.antt =====
-- A call takes no mark back, and touches no other runqueue's shared flags.
use spacemit_xenomai.Base.{
  ℕ, ◌≤◌, ◌≡◌, ◌≢◌, inl, inr, refl, sym, subst, ap, ◌∙◌, Bool-cases, ==_iff, arith, bit-set_pow,
  bit-bit_or, bit-le, List, [], ◌∷◌, ◌==◌, bit, set_flags,
}
use spacemit_xenomai.Sched.{Rq, rq_sched}
use spacemit_xenomai.Sched.Resched.{put_rq, need_resched, cpumask_set_cpu, rq_cpu, set_resched}
use spacemit_xenomai.Sched.Resched.Marks.{sched_digit}
use spacemit_xenomai.Sched.Resched.Remote.{Call, run_calls}

-- Nothing is taken back.
pub record Grows (r s : Rq) : Type 0 where
  pub cpu : s.cpu ≡ r.cpu
  pub shared : bit r.flags 28 ≤ bit s.flags 28
  pub any : sched_digit r ≤ sched_digit s
  pub targets : (cpu : ℕ) → bit r.resched_cpus cpu ≤ bit s.resched_cpus cpu

Grows-refl : (r : Rq) → Grows r r
Grows-refl r = record {
  cpu = refl;
  shared = omega arith;
  any = omega arith;
  targets = λ cpu. omega arith;
}

Grows-trans : {r s t : Rq} → Grows r s → Grows s t → Grows r t
Grows-trans g h = record {
  cpu = h.cpu ∙ g.cpu;
  shared = omega (arith, g.shared, h.shared);
  any = omega (arith, g.any, h.any);
  targets = λ cpu. omega (arith, g.targets cpu, h.targets cpu);
}

flagged : (r : Rq) → Grows r (record r { flags = set_flags r.flags rq_sched })
flagged r = record {
  cpu = refl;
  shared = ground (arith, bit-set_pow 28 28 r.flags, bit-le r.flags 28);
  any = ground (
    arith,
    bit-bit_or 28 r.flags r.local_flags,
    bit-bit_or 28 (set_flags r.flags rq_sched) r.local_flags,
    bit-set_pow 28 28 r.flags,
    bit-le r.flags 28,
    bit-le r.local_flags 28,
  );
  targets = λ cpu. omega arith;
}

targeted :
    (r : Rq) (cpu : ℕ)
    → Grows r (record r {
      local_flags = set_flags r.local_flags rq_sched;
      resched_cpus = cpumask_set_cpu cpu r.resched_cpus;
    })
targeted r cpu = record {
  cpu = refl;
  shared = omega arith;
  any = ground (
    arith,
    bit-bit_or 28 r.flags r.local_flags,
    bit-bit_or 28 r.flags (set_flags r.local_flags rq_sched),
    bit-set_pow 28 28 r.local_flags,
    bit-le r.flags 28,
    bit-le r.local_flags 28,
  );
  targets = λ c. ground (arith, bit-set_pow cpu c r.resched_cpus, bit-le r.resched_cpus c);
}

put_rq-Grows :
    (rqs : ℕ → Rq) (a b : ℕ) (r : Rq) → Grows (rqs a) r → Grows (rqs b) (put_rq rqs a r b)
put_rq-Grows rqs a b r g = elim (Bool-cases (b == a)) [
  | inl e ↦ rw e (subst (λ c. Grows (rqs c) r) (sym ((==_iff b a).0 e)) g)
  | inr e ↦ rw e (Grows-refl (rqs b))
]

pub set_resched-Grows : (rqs : ℕ → Rq) (this rq b : ℕ) → Grows (rqs b) (set_resched rqs this rq b)
unfolding set_resched rq_cpu
set_resched-Grows rqs this rq b = elim (Bool-cases (this == rq)) [
  | inl e ↦ rw e (put_rq-Grows rqs this b _ (flagged (rqs this)))
  | inr e ↦ elim (Bool-cases (need_resched (rqs rq))) [
    | inl busy ↦ rw (e, busy) (Grows-refl (rqs b))
    | inr idle ↦
        let rqs' = put_rq rqs rq (record (rqs rq) { flags = set_flags (rqs rq).flags rq_sched }) in
        let r = record (rqs' this) {
          local_flags = set_flags (rqs' this).local_flags rq_sched;
          resched_cpus = cpumask_set_cpu (rqs' rq).cpu (rqs' this).resched_cpus;
        } in
        let marked : set_resched rqs this rq ≡ put_rq rqs' this r = ground arith in
        subst (λ (m : ℕ → Rq). Grows (rqs b) (m b)) (sym marked)
          (Grows-trans (put_rq-Grows rqs rq b _ (flagged (rqs rq)))
            (put_rq-Grows rqs' this b r (targeted (rqs' this) (rqs' rq).cpu)))
  ]
]

pub run_calls-Grows :
    (rqs : ℕ → Rq) (calls : List Call) (b : ℕ) → Grows (rqs b) (run_calls rqs calls b)
unfolding run_calls
run_calls-Grows rqs [] b = Grows-refl (rqs b)
run_calls-Grows rqs (c ∷ calls) b =
    Grows-trans (set_resched-Grows rqs c.this c.rq b)
      (run_calls-Grows (set_resched rqs c.this c.rq) calls b)

-- Another runqueue's flags stay.
pub flags-set_resched :
    (rqs : ℕ → Rq) (this rq b : ℕ) → b ≢ rq → (set_resched rqs this rq b).flags ≡ (rqs b).flags
unfolding set_resched rq_cpu
flags-set_resched rqs this rq b n = ground (arith, ap (λ c. (rqs c).flags))
