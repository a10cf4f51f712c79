-- ===== src/Clock/Convert.antt =====
-- kernel-overlay/include/evl/clock.h: times between user space, whose types
-- kernel-overlay/include/uapi/evl/types.h gives, and the kernel. Seconds, nanoseconds and `ktime_t` are
-- 64-bit patterns.
use spacemit_xenomai.Base.{
  ℕ, ◌+◌, ◌-◌, ◌*◌, ◌/◌, ◌%◌, ◌^◌, ◌≤◌, ◌<◌, ◌≡◌, refl, ap, ap₂, ◌∙◌, arith,
}

-- `struct __evl_timespec` and `struct __evl_itimerspec`.
pub record UserTimespec : Type 0 where
  pub tv_sec : ℕ
  pub tv_nsec : ℕ

pub record UserItimerspec : Type 0 where
  pub it_interval : UserTimespec
  pub it_value : UserTimespec

-- The kernel's `struct timespec64` and `struct itimerspec64`.
pub record Timespec64 : Type 0 where
  pub tv_sec : ℕ
  pub tv_nsec : ℕ

pub record Itimerspec64 : Type 0 where
  pub it_interval : Timespec64
  pub it_value : Timespec64

unfoldable pub u_timespec_to_timespec64 : UserTimespec → Timespec64
u_timespec_to_timespec64 u_ts = record { tv_sec = u_ts.tv_sec; tv_nsec = u_ts.tv_nsec }

unfoldable pub timespec64_to_u_timespec : Timespec64 → UserTimespec
timespec64_to_u_timespec ts64 = record { tv_sec = ts64.tv_sec; tv_nsec = ts64.tv_nsec }

unfoldable pub u_itimerspec_to_itimerspec64 : UserItimerspec → Itimerspec64
unfolding u_timespec_to_timespec64
u_itimerspec_to_itimerspec64 u_its = record {
  it_value = u_timespec_to_timespec64 u_its.it_value;
  it_interval = u_timespec_to_timespec64 u_its.it_interval;
}

unfoldable pub itimerspec64_to_u_itimerspec : Itimerspec64 → UserItimerspec
unfolding timespec64_to_u_timespec
itimerspec64_to_u_itimerspec its64 = record {
  it_value = timespec64_to_u_timespec its64.it_value;
  it_interval = timespec64_to_u_timespec its64.it_interval;
}

-- `to_ktime` stands for `timespec64_to_ktime`, `to_timespec64` for `ktime_to_timespec64`.
unfoldable pub u_timespec_to_ktime : (Timespec64 → ℕ) → UserTimespec → ℕ
u_timespec_to_ktime to_ktime u_ts =
    let ts64 : Timespec64 = record { tv_sec = u_ts.tv_sec; tv_nsec = u_ts.tv_nsec } in to_ktime ts64

unfoldable pub ktime_to_u_timespec : (ℕ → Timespec64) → ℕ → UserTimespec
ktime_to_u_timespec to_timespec64 t =
    let ts64 = to_timespec64 t in record { tv_sec = ts64.tv_sec; tv_nsec = ts64.tv_nsec }

-- ONE_BILLION, and the kernel's KTIME_MAX and KTIME_SEC_MAX.
abbrev pub one_billion : ℕ
one_billion = 1000000000

abbrev pub ktime_max : ℕ
ktime_max = 2 ^ 63 - 1

abbrev pub ktime_sec_max : ℕ
ktime_sec_max = 9223372036

-- What the kernel documents of its two conversions, for times that are not negative: the one
-- splits, and the other puts together, and gives KTIME_MAX from KTIME_SEC_MAX seconds on.
pub record KernelTime : Type 0 where
  pub to_ktime : Timespec64 → ℕ
  pub to_timespec64 : ℕ → Timespec64
  pub splits :
      (t : ℕ)
      → t ≤ ktime_max
      → to_timespec64 t ≡ record { tv_sec = t / one_billion; tv_nsec = t % one_billion }
  pub joins :
      (sec nsec : ℕ)
      → sec < ktime_sec_max
      → nsec < one_billion
      → to_ktime (record { tv_sec = sec; tv_nsec = nsec }) ≡ sec * one_billion + nsec
  pub saturates :
      (sec nsec : ℕ)
      → ktime_sec_max ≤ sec
      → sec < 2 ^ 63
      → to_ktime (record { tv_sec = sec; tv_nsec = nsec }) ≡ ktime_max

module _ (kernel : KernelTime) where
  open kernel use {to_ktime, to_timespec64, splits, joins, saturates}

  there :
      (t : ℕ)
      → t ≤ ktime_max
      → u_timespec_to_ktime to_ktime (ktime_to_u_timespec to_timespec64 t)
        ≡ to_ktime (record { tv_sec = t / one_billion; tv_nsec = t % one_billion })
  unfolding u_timespec_to_ktime ktime_to_u_timespec
  there t h =
      ap (λ (ts : Timespec64). to_ktime (record { tv_sec = ts.tv_sec; tv_nsec = ts.tv_nsec }))
        (splits t h)

  back :
      (u : UserTimespec)
      → u.tv_sec < ktime_sec_max
      → u.tv_nsec < one_billion
      → ktime_to_u_timespec to_timespec64 (u_timespec_to_ktime to_ktime u) ≡ u
  unfolding u_timespec_to_ktime ktime_to_u_timespec
  back u s n =
      let t = u.tv_sec * one_billion + u.tv_nsec in
      let user = λ (ts : Timespec64).
        let r : UserTimespec = record { tv_sec = ts.tv_sec; tv_nsec = ts.tv_nsec } in r in
      ap (λ k. user (to_timespec64 k)) (joins u.tv_sec u.tv_nsec s n)
      ∙ ap user (splits t (omega arith))
      ∙ ap₂ (λ a b. let r : UserTimespec = record { tv_sec = a; tv_nsec = b } in r) (omega arith)
          (omega arith)

  -- A `ktime_t` below KTIME_SEC_MAX seconds comes back as it was from a user's timespec; a later
  -- one, KTIME_MAX included, comes back as KTIME_MAX, which is EVL_NONBLOCK. A user's timespec with
  -- fewer than KTIME_SEC_MAX seconds and fewer than 10^9 nanoseconds comes back as it was from a
  -- `ktime_t`. The conversions between the user's and the kernel's timers are inverse.
  pub u_timespec_to_ktime_lem :
      (t : ℕ) (u_ts : UserTimespec) (u_its : UserItimerspec) (its64 : Itimerspec64)
      → t ≤ ktime_max
      → (t < ktime_sec_max * one_billion
          → u_timespec_to_ktime to_ktime (ktime_to_u_timespec to_timespec64 t) ≡ t)
        × (ktime_sec_max * one_billion ≤ t
            → u_timespec_to_ktime to_ktime (ktime_to_u_timespec to_timespec64 t) ≡ ktime_max)
        × (u_ts.tv_sec < ktime_sec_max
            → u_ts.tv_nsec < one_billion
            → ktime_to_u_timespec to_timespec64 (u_timespec_to_ktime to_ktime u_ts) ≡ u_ts)
        × (itimerspec64_to_u_itimerspec (u_itimerspec_to_itimerspec64 u_its) ≡ u_its)
        × (u_itimerspec_to_itimerspec64 (itimerspec64_to_u_itimerspec its64) ≡ its64)
  unfolding itimerspec64_to_u_itimerspec u_itimerspec_to_itimerspec64
  u_timespec_to_ktime_lem t u_ts u_its its64 h = (
    (λ early.
        there t h
        ∙ joins (t / one_billion) (t % one_billion) (omega arith) (omega arith)
        ∙ omega arith),
    (λ late. there t h ∙ saturates (t / one_billion) (t % one_billion) (omega arith) (omega arith)),
    back u_ts,
    refl,
    refl,
  )
