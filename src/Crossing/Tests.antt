-- ===== src/Crossing/Tests.antt =====
-- A crossing that one caller traverses while the in-band code asks to pass.
use spacemit_xenomai.Base.{◌≡◌, refl, true, false, arith}
use spacemit_xenomai.Crossing.{
  init_crossing, down_crossing, up_crossing, pass_crossing, open_crossing,
}
use spacemit_xenomai.Crossing.Safety.{
  before, waiting, passed, System, start, down, up, pass, work, wake, Reach, init, step, Returns,
  pass_crossing_lem, pass_crossing-Returns,
}

abbrev one_down : System
one_down = record {
  crossing = record { oob_refs = 2; oob_done = 0; oob_work = false };
  in_flight = 1;
  phase = before;
}

abbrev one_waits : System
one_waits = record {
  crossing = record { oob_refs = 1; oob_done = 0; oob_work = false };
  in_flight = 1;
  phase = waiting;
}

one_waits-Reach : Reach one_waits
unfolding start init_crossing down_crossing pass_crossing
one_waits-Reach =
    step one_down one_waits (step start one_down init (down start.crossing 0 (omega arith)))
      (pass one_down.crossing 1)

pass_crossing-Returns_example : Returns one_waits
pass_crossing-Returns_example = pass_crossing-Returns one_waits.crossing 1 one_waits-Reach

abbrev gone_up : System
gone_up = record {
  crossing = record { oob_refs = 0; oob_done = 0; oob_work = true };
  in_flight = 0;
  phase = waiting;
}

abbrev completed : System
completed = record {
  crossing = record { oob_refs = 0; oob_done = 1; oob_work = false };
  in_flight = 0;
  phase = waiting;
}

abbrev back : System
back = record {
  crossing = record { oob_refs = 0; oob_done = 0; oob_work = false };
  in_flight = 0;
  phase = passed;
}

back-Reach : Reach back
unfolding up_crossing open_crossing
back-Reach =
    step completed back
      (step gone_up completed
        (step one_waits gone_up one_waits-Reach (up one_waits.crossing 0 waiting))
        (work gone_up.crossing 0 waiting refl))
      (wake completed.crossing 0 0 refl)

pass_crossing_example : back.in_flight ≡ 0
pass_crossing_example = pass_crossing_lem back back-Reach refl
