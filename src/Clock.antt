-- ===== src/Clock.antt =====
-- kernel-overlay/include/evl/clock.h: the operations of a clock.
pub mod Convert
mod Tests
use spacemit_xenomai.Base.{ℕ, Option, none, some, ◌==◌, if◌then◌else◌, neg32}

pub record Gravity : Type 0 where
  pub irq : ℕ  -- ktime_t
  pub kernel : ℕ  -- ktime_t
  pub user : ℕ  -- ktime_t

-- The handlers of a clock work on the machine's state `W`; `none` is a null pointer.
pub record ClockOps (W : Type 0) : Type 0 where
  pub read : W → ℕ
  pub read_cycles : W → ℕ
  pub set : Option (ℕ → W → W × ℕ)
  pub program_local_shot : Option (W → W)
  pub program_remote_shot : Option (ℕ → W → W)
  pub set_gravity : Option (Gravity → W → W × ℕ)
  pub reset_gravity : Option (W → W)
  pub adjust : Option (W → W)

pub record Clock (W : Type 0) : Type 0 where
  pub address : ℕ
  pub resolution : ℕ  -- ktime_t
  pub gravity : Gravity
  pub name : ℕ
  pub flags : ℕ
  pub ops : ClockOps W
  pub timerdata : ℕ
  pub master : ℕ
  pub offset : ℕ  -- ktime_t, from the master clock
  pub affinity : ℕ

-- EOPNOTSUPP, of the kernel's errno.h.
abbrev pub eopnotsupp : ℕ
eopnotsupp = 95

module _ {W : Type 0} where
  unfoldable pub read_clock_cycles : Clock W → W → ℕ
  read_clock_cycles c w = c.ops.read_cycles w

  -- `mono` is the address of `evl_mono_clock`, and `now` stands for `ktime_get_mono_fast_ns`,
  -- which `evl_ktime_monotonic` returns.
  unfoldable pub read_clock : ℕ → (W → ℕ) → Clock W → W → ℕ
  read_clock mono now c w = if c.address == mono then now w else c.ops.read w

  unfoldable pub set_clock_time : Clock W → ℕ → W → W × ℕ
  set_clock_time c date w = elim c.ops.set [ some set ↦ set date w | none ↦ (w, neg32 eopnotsupp) ]

  unfoldable pub get_clock_resolution : Clock W → ℕ
  get_clock_resolution c = c.resolution

  unfoldable pub set_clock_resolution : Clock W → ℕ → Clock W
  set_clock_resolution c resolution = record c { resolution = resolution }

  unfoldable pub set_clock_gravity : Clock W → Gravity → W → W × ℕ
  set_clock_gravity c g w = elim c.ops.set_gravity [
    | some set ↦ set g w
    | none ↦ (w, neg32 eopnotsupp)
  ]

  unfoldable pub reset_clock_gravity : Clock W → W → W
  reset_clock_gravity c w = elim c.ops.reset_gravity [ some reset ↦ reset w | none ↦ w ]

  -- `evl_program_local_tick` and `evl_program_remote_tick` of tick.h: the shot is the master's.
  unfoldable pub program_local_tick : (ℕ → Clock W) → Clock W → W → W
  program_local_tick clocks c w = elim (clocks c.master).ops.program_local_shot [
    | some shot ↦ shot w
    | none ↦ w
  ]

  unfoldable pub program_remote_tick : (ℕ → Clock W) → Clock W → ℕ → W → W
  program_remote_tick clocks c rq w = elim (clocks c.master).ops.program_remote_shot [
    | some shot ↦ shot rq w
    | none ↦ w
  ]

  -- `mono_fast_ns` stands for `ktime_get_mono_fast_ns`.
  unfoldable pub ktime_monotonic : (W → ℕ) → W → ℕ
  ktime_monotonic mono_fast_ns w = mono_fast_ns w

-- The type is the name of the member that `evl_get_clock_gravity` reads.
pub data GravityType : Type 0 where
  irq_gravity kernel_gravity user_gravity : GravityType

unfoldable pub get_clock_gravity : {W : Type 0} → Clock W → GravityType → ℕ
get_clock_gravity c irq_gravity = c.gravity.irq
get_clock_gravity c kernel_gravity = c.gravity.kernel
get_clock_gravity c user_gravity = c.gravity.user

-- `element_of` gives the address of the element that stands in a clock, `put` stands for
-- `evl_put_element`.
unfoldable pub put_clock : {W : Type 0} → (ℕ → ℕ) → (ℕ → W → W) → Clock W → W → W
put_clock element_of put c w = put (element_of c.address) w
