-- ===== src/Crossing.antt =====
-- kernel-overlay/include/evl/crossing.h: the point that in-band code passes once no out-of-band
-- caller is in flight.
pub mod Safety
mod Tests
use spacemit_xenomai.Base.{
  ℕ, ◌+◌, ◌-◌, ◌^◌, Bool, true, false, ◌==◌, ltb, if◌then◌else◌, u32, signed32,
}

-- A completion is the count of its `complete` calls not yet waited for; an irq_work is whether it
-- is queued.
pub record Crossing : Type 0 where
  pub oob_refs : ℕ  -- atomic_t
  pub oob_done : ℕ
  pub oob_work : Bool

-- What runs when the irq_work does.
unfoldable pub open_crossing : Crossing → Crossing
open_crossing c = record c { oob_done = c.oob_done + 1 }

unfoldable pub init_crossing : Crossing
init_crossing = record { oob_refs = 1; oob_done = 0; oob_work = false }

unfoldable pub reinit_crossing : Crossing → Crossing
reinit_crossing c = record c { oob_refs = 1; oob_done = 0 }

unfoldable pub down_crossing : Crossing → Crossing
down_crossing c = record c { oob_refs = u32 (c.oob_refs + 1) }

unfoldable pub up_crossing : Crossing → Crossing
up_crossing c =
    let refs = u32 (c.oob_refs + 2 ^ 32 - 1) in
    record c { oob_refs = refs; oob_work = if refs == 0 then true else c.oob_work }

-- The crossing, and whether the caller must wait for the completion.
unfoldable pub pass_crossing : Crossing → Crossing × Bool
pass_crossing c =
    let refs = u32 (c.oob_refs + 2 ^ 32 - 1) in
    (record c { oob_refs = refs }, ltb (signed32 0) (signed32 refs))
