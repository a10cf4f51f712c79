-- ===== src/Sched/Resched/Marks.antt =====
-- What a rescheduling request leaves behind in the runqueues.
use spacemit_xenomai.Base.{
  subst, ap₂, ◌≡◌, ◌≢◌, ◌↔◌, refl, sym, ap, ◌∙◌, inl, inr, Bool-cases, ==_iff, ℕ_discrete, arith,
  only_second_flag, bit-set_pow, test_flags-pow, bit-bit_or, bit-le, ℕ, true, false, ◌==◌,
  if◌then◌else◌, bit, bit_and, bit_or, set_flags,
}
use spacemit_xenomai.Sched.{Rq, rq_sched, rq_irq}
use spacemit_xenomai.Sched.Resched.{
  put_rq, need_resched, cpumask_set_cpu, rq_cpu, set_resched, resched_pending,
}

-- Digit 28 is RQ_SCHED, digit 14 RQ_IRQ.
abbrev pub sched_digit : Rq → ℕ
sched_digit rq = bit (bit_or rq.flags rq.local_flags) 28

pub resched_pending-digits :
    (rq : Rq)
    → (resched_pending rq ≡ true)
      ↔ ((sched_digit rq ≡ 1) × (bit (bit_or rq.flags rq.local_flags) 14 ≡ 0))
unfolding resched_pending
resched_pending-digits rq = (
  λ e. (only_second_flag 14 28 (bit_or rq.flags rq.local_flags) (omega arith)).0 (
      ground (
        arith,
        ==_iff (bit_and (bit_or rq.flags rq.local_flags) (bit_or rq_irq rq_sched)) rq_sched,
      )),
  λ h.
      (==_iff (bit_and (bit_or rq.flags rq.local_flags) (bit_or rq_irq rq_sched)) rq_sched).1
        ((only_second_flag 14 28 (bit_or rq.flags rq.local_flags) (omega arith)).1 h),
)

-- What `set_resched_lem` says, of the memory after the call.
abbrev Marked : (ℕ → Rq) → ℕ → ℕ → (ℕ → Rq) → Type 0
Marked rqs this rq rqs' =
    (bit (rqs' rq).flags 28 ≡ 1)
    × ((other : ℕ) → other ≢ this → other ≢ rq → rqs' other ≡ rqs other)
    × (this ≢ rq
        → bit (rqs rq).flags 28 ≡ 0
        → (sched_digit (rqs' this) ≡ 1)
          × ((cpu : ℕ)
              → bit (rqs' this).resched_cpus cpu
                ≡ (if (rqs rq).cpu == cpu then 1 else bit (rqs this).resched_cpus cpu))
          × ((k : ℕ)
              → bit (rqs' this).local_flags k
                ≡ (if 28 == k then 1 else bit (rqs this).local_flags k))
          × ((rqs' this).flags ≡ (rqs this).flags))
    × (this ≢ rq → bit (rqs rq).flags 28 ≡ 1 → rqs' ≡ rqs)

set_flags-sched : (x : ℕ) → bit (set_flags x rq_sched) 28 ≡ 1
set_flags-sched x = ground (arith, bit-set_pow 28 28 x)

need_resched-digit : (r : Rq) → need_resched r ≡ (bit r.flags 28 == 1)
unfolding need_resched
need_resched-digit r = test_flags-pow 28 r.flags

put_rq-same : (rqs : ℕ → Rq) (a b : ℕ) (r : Rq) → b ≡ a → put_rq rqs a r b ≡ r
put_rq-same rqs a b r e = rw ((==_iff b a).1 e) refl

put_rq-other : (rqs : ℕ → Rq) (a b : ℕ) (r : Rq) → b ≢ a → put_rq rqs a r b ≡ rqs b
put_rq-other rqs a b r n = ground arith

at_self : (rqs : ℕ → Rq) (this rq : ℕ) → this ≡ rq → Marked rqs this rq (set_resched rqs this rq)
unfolding set_resched
at_self rqs this rq e =
    let r = record (rqs this) { flags = set_flags (rqs this).flags rq_sched } in
    subst (Marked rqs this rq) (sym (rw ((==_iff this rq).1 e) refl)) (
      ap (λ t. bit t.flags 28) (put_rq-same rqs this rq r (sym e))
          ∙ set_flags-sched (rqs this).flags,
      (λ other n m. put_rq-other rqs this other r n),
      (λ n. absurd (n e)),
      (λ n. absurd (n e)),
    )

at_busy :
    (rqs : ℕ → Rq) (this rq : ℕ)
    → this ≢ rq
    → need_resched (rqs rq) ≡ true
    → Marked rqs this rq (set_resched rqs this rq)
unfolding set_resched
at_busy rqs this rq n busy =
    let set : bit (rqs rq).flags 28 ≡ 1 = ground (arith, need_resched-digit (rqs rq)) in
    subst (Marked rqs this rq) (sym (ground arith))
      (set, (λ other o m. refl), (λ o clear. absurd (ground arith)), (λ o t. refl))

-- The remote runqueue's mark, then this one's.
at_idle :
    (rqs : ℕ → Rq) (this rq : ℕ)
    → this ≢ rq
    → need_resched (rqs rq) ≡ false
    → Marked rqs this rq (set_resched rqs this rq)
unfolding set_resched rq_cpu
at_idle rqs this rq n idle =
    let r = record (rqs rq) { flags = set_flags (rqs rq).flags rq_sched } in
    let rqs1 = put_rq rqs rq r in
    let t = record (rqs1 this) {
      local_flags = set_flags (rqs1 this).local_flags rq_sched;
      resched_cpus = cpumask_set_cpu (rqs1 rq).cpu (rqs1 this).resched_cpus;
    } in
    let kept : t.flags ≡ (rqs this).flags = ap (λ s. s.flags) (put_rq-other rqs rq this r n) in
    subst (Marked rqs this rq) (sym (ground arith)) (
      ap (λ s. bit s.flags 28)
            (put_rq-other rqs1 this rq t (λ e. n (sym e)) ∙ put_rq-same rqs rq rq r refl)
          ∙ set_flags-sched (rqs rq).flags,
      (λ other o m. put_rq-other rqs1 this other t o ∙ put_rq-other rqs rq other r m),
      (λ o clear. (
        ap sched_digit (put_rq-same rqs1 this this t refl)
            ∙ bit-bit_or 28 t.flags t.local_flags
            ∙ ground (arith, set_flags-sched (rqs1 this).local_flags, bit-le t.flags 28),
        λ cpu.
            ap (λ s. bit s.resched_cpus cpu) (put_rq-same rqs1 this this t refl)
            ∙ bit-set_pow (rqs1 rq).cpu cpu (rqs1 this).resched_cpus
            ∙ ap₂ (λ c s. if c == cpu then 1 else bit s.resched_cpus cpu)
                (ap (λ s. s.cpu) (put_rq-same rqs rq rq r refl)) (put_rq-other rqs rq this r n),
        λ k.
            ap (λ s. bit s.local_flags k) (put_rq-same rqs1 this this t refl)
            ∙ bit-set_pow 28 k (rqs1 this).local_flags
            ∙ ap (λ s. if 28 == k then 1 else bit s.local_flags k) (put_rq-other rqs rq this r n),
        ap (λ s. s.flags) (put_rq-same rqs1 this this t refl) ∙ kept,
      )),
      (λ o set. absurd (ground (arith, need_resched-digit (rqs rq)))),
    )

-- After `evl_set_resched` the runqueue has RQ_SCHED. If it is another CPU's and had no request yet,
-- then that CPU is marked for an IPI and RQ_SCHED is set in the local flags of the current CPU too,
-- so that `evl_schedule` goes through here unless an interrupt is being handled; the other local
-- flags, the shared flags of the current CPU and all other CPUs' marks stay as they are. If it had
-- a request, nothing changes. No third runqueue ever changes.
pub set_resched_lem :
    (rqs : ℕ → Rq) (this rq : ℕ)
    → let rqs' = set_resched rqs this rq in
      (bit (rqs' rq).flags 28 ≡ 1)
      × ((other : ℕ) → other ≢ this → other ≢ rq → rqs' other ≡ rqs other)
      × (this ≢ rq
          → bit (rqs rq).flags 28 ≡ 0
          → (sched_digit (rqs' this) ≡ 1)
            × ((cpu : ℕ)
                → bit (rqs' this).resched_cpus cpu
                  ≡ (if (rqs rq).cpu == cpu then 1 else bit (rqs this).resched_cpus cpu))
            × ((k : ℕ)
                → bit (rqs' this).local_flags k
                  ≡ (if 28 == k then 1 else bit (rqs this).local_flags k))
            × ((rqs' this).flags ≡ (rqs this).flags))
      × (this ≢ rq → bit (rqs rq).flags 28 ≡ 1 → rqs' ≡ rqs)
set_resched_lem rqs this rq = elim (ℕ_discrete this rq) [
  | yes e ↦ at_self rqs this rq e
  | no n ↦ elim (Bool-cases (need_resched (rqs rq))) [
    | inl busy ↦ at_busy rqs this rq n busy
    | inr idle ↦ at_idle rqs this rq n idle
  ]
]
