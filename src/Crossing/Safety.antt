-- ===== src/Crossing/Safety.antt =====
-- The interleavings of one in-band caller and any number of out-of-band callers.
use spacemit_xenomai.Base.{
  ℕ, zero, suc, ◌+◌, ◌^◌, ◌<◌, ◌≡◌, refl, true, false, Bool-cases, inl, inr, arith, ◌==◌, ltb,
  if◌then◌else◌,
}
use spacemit_xenomai.Crossing.{
  Crossing, open_crossing, init_crossing, down_crossing, up_crossing, pass_crossing,
}

-- Where the in-band caller is: before the call of `evl_pass_crossing`, waiting in it, or back.
pub data Phase : Type 0 where
  before waiting passed : Phase

-- `in_flight` counts the out-of-band callers between `evl_down_crossing` and `evl_up_crossing`.
pub record System : Type 0 where
  pub crossing : Crossing
  pub in_flight : ℕ
  pub phase : Phase

unfoldable pub start : System
unfolding init_crossing
start = record { crossing = init_crossing; in_flight = 0; phase = before }

-- The steps. By the rule of crossing.h no caller goes down after the in-band code has entered
-- `evl_pass_crossing`, and the count of callers stays within an `int`.
pub data Step : System → System → Type 0 where
  down :
      (c : Crossing) (n : ℕ)
      → n + 2 < 2 ^ 31
      → Step
          (record { crossing = c; in_flight = n; phase = before })
          (record { crossing = down_crossing c; in_flight = suc n; phase = before })
  up :
      (c : Crossing) (n : ℕ) (p : Phase)
      → Step
          (record { crossing = c; in_flight = suc n; phase = p })
          (record { crossing = up_crossing c; in_flight = n; phase = p })
  pass :
      (c : Crossing) (n : ℕ)
      → Step
          (record { crossing = c; in_flight = n; phase = before })
          (record {
            crossing = (pass_crossing c).0;
            in_flight = n;
            phase = if (pass_crossing c).1 then waiting else passed;
          })
  work :
      (c : Crossing) (n : ℕ) (p : Phase)
      → c.oob_work ≡ true
      → Step
          (record { crossing = c; in_flight = n; phase = p })
          (record {
            crossing = open_crossing (record c { oob_work = false });
            in_flight = n;
            phase = p;
          })
  wake :
      (c : Crossing) (n k : ℕ)
      → c.oob_done ≡ suc k
      → Step
          (record { crossing = c; in_flight = n; phase = waiting })
          (record { crossing = record c { oob_done = k }; in_flight = n; phase = passed })

pub data Reach : System → Type 0 where
  init : Reach start
  step : (s s' : System) → Reach s → Step s s' → Reach s'

-- What holds between any two steps, by the phase.
Inv : System → Type 0
Inv s = elim s.phase [
  | before ↦
      (s.crossing.oob_refs ≡ s.in_flight + 1)
      × (s.in_flight + 1 < 2 ^ 31)
      × (s.crossing.oob_done ≡ 0)
      × (s.crossing.oob_work ≡ false)
  | waiting ↦
      (s.crossing.oob_refs ≡ s.in_flight)
      × (s.in_flight < 2 ^ 31)
      × (s.crossing.oob_done + (if s.crossing.oob_work then 1 else 0)
          ≡ (if s.in_flight == 0 then 1 else 0))
  | passed ↦ (s.in_flight ≡ 0) × (s.crossing.oob_done ≡ 0) × (s.crossing.oob_work ≡ false)
]

-- `evl_pass_crossing` must wait if callers are in flight.
entered :
    (c : Crossing) (n : ℕ) → c.oob_refs ≡ n + 1 → n + 1 < 2 ^ 31 → (pass_crossing c).1 ≡ ltb 0 n
unfolding pass_crossing
entered c n e h = ground arith

Inv-Step : (s s' : System) → Inv s → Step s s' → Inv s'
unfolding Inv down_crossing up_crossing pass_crossing open_crossing
Inv-Step _ _ i (down c n b) = ground arith
Inv-Step _ _ i (up c n before) = ground arith
Inv-Step _ _ i (up c n waiting) = ground arith
Inv-Step _ _ i (up c n passed) = ground arith
Inv-Step _ _ i (pass c zero) = rw (entered c 0 i.0 (omega arith)) (refl, i.2, i.3)
Inv-Step _ _ i (pass c (suc n)) = rw (entered c (suc n) i.0 (omega arith)) (ground arith)
Inv-Step _ _ i (work c n before w) = ground arith
Inv-Step _ _ i (work c n waiting w) = ground arith
Inv-Step _ _ i (work c n passed w) = ground arith
Inv-Step _ _ i (wake c n k d) = ground arith

Inv-start : Inv start
unfolding Inv init_crossing start
Inv-start = (refl, omega arith, refl, refl)

Reach-Inv : (s : System) → Reach s → Inv s
Reach-Inv _ init = Inv-start
Reach-Inv _ (step s s' r st) = Inv-Step s s' (Reach-Inv s r) st

Inv-passed :
    (c : Crossing) (n : ℕ) (p : Phase)
    → Inv (record { crossing = c; in_flight = n; phase = p })
    → p ≡ passed
    → n ≡ 0
unfolding Inv
Inv-passed c n before i e = cc
Inv-passed c n waiting i e = cc
Inv-passed c n passed i e = i.0

-- In every run of one in-band caller and out-of-band callers that go down before it enters
-- `evl_pass_crossing`: once that call has returned, no out-of-band caller is between
-- `evl_down_crossing` and `evl_up_crossing`.
pub pass_crossing_lem : (s : System) → Reach s → s.phase ≡ passed → s.in_flight ≡ 0
pass_crossing_lem s r e = Inv-passed s.crossing s.in_flight s.phase (Reach-Inv s r) e

-- Steps one after the other.
pub data Run : System → System → Type 0 where
  stop : (s : System) → Run s s
  further : (s s' s'' : System) → Step s s' → Run s' s'' → Run s s''

-- A state in which the in-band caller is back.
abbrev pub Returns : System → Type 0
Returns s = (s' : System) × Run s s' × (s'.phase ≡ passed)

woken :
    (c : Crossing) (k : ℕ)
    → c.oob_done ≡ suc k
    → Returns (record { crossing = c; in_flight = 0; phase = waiting })
woken c k e =
    let s : System = record { crossing = c; in_flight = 0; phase = waiting } in
    let s' : System = record {
      crossing = record c { oob_done = k };
      in_flight = 0;
      phase = passed;
    } in
    (s', further s s' s' (wake c 0 k e) (stop s'), refl)

Returns-from :
    (n : ℕ) (c : Crossing)
    → Reach (record { crossing = c; in_flight = n; phase = waiting })
    → Returns (record { crossing = c; in_flight = n; phase = waiting })
unfolding Inv open_crossing
Returns-from zero c r =
    let i = Reach-Inv (record { crossing = c; in_flight = 0; phase = waiting }) r in
    elim (Bool-cases c.oob_work) [
      | inl queued ↦
          let s : System = record { crossing = c; in_flight = 0; phase = waiting } in
          let c1 = open_crossing (record c { oob_work = false }) in
          let s1 : System = record { crossing = c1; in_flight = 0; phase = waiting } in
          let (s', run, e) = woken c1 c.oob_done (omega arith) in
          (s', further s s1 s' (work c 0 waiting queued) run, e)
      | inr idle ↦ woken c 0 (ground arith)
    ]
Returns-from (suc n) c r =
    let s : System = record { crossing = c; in_flight = suc n; phase = waiting } in
    let s1 : System = record { crossing = up_crossing c; in_flight = n; phase = waiting } in
    let (s', run, e) = Returns-from n (up_crossing c) (step s s1 r (up c n waiting)) in
    (s', further s s1 s' (up c n waiting) run, e)

-- From every reachable state in which the in-band caller waits, there are steps that bring it back:
-- the callers in flight go up, the work runs, and the completion wakes it.
pub pass_crossing-Returns :
    (c : Crossing) (n : ℕ)
    → Reach (record { crossing = c; in_flight = n; phase = waiting })
    → Returns (record { crossing = c; in_flight = n; phase = waiting })
pass_crossing-Returns c n r = Returns-from n c r
