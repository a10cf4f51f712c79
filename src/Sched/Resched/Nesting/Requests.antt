-- ===== src/Sched/Resched/Nesting/Requests.antt =====
-- No request is lost in nested code, and none is served in a handler.
use spacemit_xenomai.Base.{
  ◌≡◌, refl, ap, ◌∙◌, arith, ℕ, suc, ◌+◌, ◌^◌, ◌<◌, ◌||◌, ◌&&◌, not, Bool, true, false,
  if◌then◌else◌, ◌==◌, bit, bit-le, bit_or,
}
use spacemit_xenomai.Sched.{Rq}
use spacemit_xenomai.Sched.Resched.Marks.{sched_digit}
use spacemit_xenomai.Sched.Resched.Nesting.{
  Op, request, yield, handler, section, Program, done, next, Machine, take_irq, step, run, settle,
  spec_step, spec, op_unnested, unnested, op_depth, depth, op_requests, requests,
}
use spacemit_xenomai.Sched.Resched.Nesting.Digits.{
  Agrees, enter-Agrees, leave_irq-off, Consumes, Escalates, digit,
}
use spacemit_xenomai.Sched.Resched.Nesting.Settled.{step-After, run-After}

or_assoc : (a b c : Bool) → ((a || b) || c) ≡ (a || (b || c))
or_assoc a b c = ground arith

mutual
  unfolding spec_step spec op_unnested unnested op_requests requests

  -- In a handler requests add up.
  spec_step-held :
      (o : Op) (c : ℕ) (b : Bool) (n : ℕ)
      → op_unnested true o ≡ true
      → spec_step true c o (b, n) ≡ (b || op_requests o, n)
  spec_step-held request c b n u = ground arith
  spec_step-held yield c b n u = ground arith
  spec_step-held (handler p) c b n u = cc
  spec_step-held (section p) c b n u = spec-held p (suc c) b n u

  spec-held :
      (p : Program) (c : ℕ) (b : Bool) (n : ℕ)
      → unnested true p ≡ true
      → spec true c p (b, n) ≡ (b || requests p, n)
  spec-held done c b n u = ground arith
  spec-held (next o p) c b n u =
      ap (spec true c p) (spec_step-held o c b n (ground arith))
      ∙ spec-held p c (b || op_requests o) n (ground arith)
      ∙ ap (λ t. (t, n)) (or_assoc b (op_requests o) (requests p))

spec_step-handler :
    (p : Program) (c : ℕ) (b : Bool) (n : ℕ)
    → unnested true p ≡ true
    → spec_step false c (handler p) (b, n) ≡ settle c (b || requests p, n)
unfolding spec_step
spec_step-handler p c b n u = ap (settle c) (spec-held p c b n u)

module _ (resched : ℕ → Rq → Rq × Bool) (run_oob_call : (Machine → Machine) → Machine → Machine)
    (oob : Bool) (consumes : Consumes resched) (escalates : Escalates run_oob_call) (p : Program)
    (c : ℕ) (m : Machine) where
  start :
      (irq : Bool)
      → bit m.rq.flags 14 ≡ 0
      → bit m.rq.local_flags 14 ≡ digit irq
      → (irq ≡ true → m.irqs_on ≡ false)
      → Agrees irq m (sched_digit m.rq == 1, m.calls)
  start irq shared local off = record {
    shared = shared;
    local = local;
    pending = ground (arith, bit-le (bit_or m.rq.flags m.rq.local_flags) 28);
    calls = refl;
    off = off;
  }

  -- Well-nested code of one CPU, run outside of any handler, whatever it mixes of requests, calls
  -- of `evl_schedule`, handlers and sections with preemption disabled, does to the requests and to
  -- the number of calls of `__evl_schedule` at a preemption count of 0 what the specification does on
  -- its two variables, and leaves the preemption count and RQ_IRQ as they were. `__evl_schedule` is
  -- taken to clear RQ_SCHED at a count of 0, to let the request wait at any other, and to leave
  -- RQ_IRQ alone, an escalated call to be made; the count must not overflow.
  pub run_refines :
      unnested false p ≡ true
      → c + depth p < 2 ^ 32
      → bit m.rq.flags 14 ≡ 0
      → bit m.rq.local_flags 14 ≡ 0
      → let (c', m') = run resched run_oob_call oob p (c, m) in
        let (pending, calls) = spec false c p (sched_digit m.rq == 1, m.calls) in
        (c' ≡ c)
        × (sched_digit m'.rq ≡ (if pending then 1 else 0))
        × (m'.calls ≡ calls)
        × (bit m'.rq.flags 14 ≡ 0)
        × (bit m'.rq.local_flags 14 ≡ 0)
  run_refines u d shared local =
      let (e, a) =
        run-After resched run_oob_call oob consumes escalates p false c m _ u d
          (start false shared local (λ e. cc)) in
      (e, a.pending, a.calls, a.shared, a.local)

  -- A handler, with all that is nested in it. A request is wanted if one was pending before or is
  -- made anywhere within. If the handler interrupted code with preemption enabled, `__evl_schedule`
  -- is called once, at its end, if a request is wanted, and no request is left pending; if it
  -- interrupted a section with preemption disabled, there is no call at a count of 0, and a request is
  -- left pending if one is wanted, and else none. In both cases there is no such call while its body
  -- runs, the preemption count is as it was, and hard interrupts are off at the end. The body has no
  -- further handler in it; the assumptions are otherwise those of `run_refines`.
  pub handler_lem :
      unnested true p ≡ true
      → c + depth p < 2 ^ 32
      → bit m.rq.flags 14 ≡ 0
      → bit m.rq.local_flags 14 ≡ 0
      → let (c', m') = step resched run_oob_call oob (handler p) (c, m) in
        let body = run resched run_oob_call oob p (c, take_irq m) in
        let wanted = (sched_digit m.rq == 1) || requests p in
        (c' ≡ c)
        × (body.1.calls ≡ m.calls)
        × (m'.calls ≡ (if (c == 0) && wanted then m.calls + 1 else m.calls))
        × (sched_digit m'.rq ≡ (if not (c == 0) && wanted then 1 else 0))
        × (m'.irqs_on ≡ false)
  unfolding op_unnested op_depth step
  handler_lem u d shared local =
      let a = start false shared local (λ e. cc) in
      let pending = sched_digit m.rq == 1 in
      let body =
        run-After resched run_oob_call oob consumes escalates p true c _ _ u d (enter-Agrees a) in
      let after =
        step-After resched run_oob_call oob consumes escalates (handler p) false c m _ u d a in
      let held = spec-held p c pending m.calls u in
      let settled = spec_step-handler p c pending m.calls u in
      (
        after.0,
        body.1.calls ∙ ap (λ s. s.1) held,
        after.1.calls ∙ ap (λ s. s.1) settled ∙ settled_calls,
        after.1.pending ∙ ap (λ s. digit (s.0)) settled ∙ settled_pending,
        leave_irq-off resched run_oob_call oob consumes escalates _ _ _ _ body.1,
      )
    where
      wanted : Bool
      wanted = (sched_digit m.rq == 1) || requests p

      settled_calls :
          (settle c (wanted, m.calls)).1 ≡ (if (c == 0) && wanted then m.calls + 1 else m.calls)
      settled_calls = unfold settle in refl

      settled_pending :
          digit ((settle c (wanted, m.calls)).0) ≡ (if not (c == 0) && wanted then 1 else 0)
      settled_pending = unfold settle in refl

  -- A section with preemption disabled, run outside of any handler at a count of 0, leaves no
  -- request pending, whatever is nested in it, and the count at 0. The assumptions are those of
  -- `run_refines`.
  pub section_lem :
      unnested false p ≡ true
      → suc (depth p) < 2 ^ 32
      → bit m.rq.flags 14 ≡ 0
      → bit m.rq.local_flags 14 ≡ 0
      → let (c', m') = step resched run_oob_call oob (section p) (0, m) in
        (c' ≡ 0) × (sched_digit m'.rq ≡ 0)
  unfolding op_unnested op_depth spec_step settle
  section_lem u d shared local =
      let after =
        step-After resched run_oob_call oob consumes escalates (section p) false 0 m _ u
          (omega arith) (start false shared local (λ e. cc)) in
      (after.0, after.1.pending)
