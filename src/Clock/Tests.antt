-- ===== src/Clock/Tests.antt =====
-- The conversions of times on concrete inputs.
use spacemit_xenomai.Base.{◌+◌, ◌*◌, ◌/◌, ◌%◌, ◌≤◌, ◌<◌, ◌≡◌, refl, arith, leb, if◌then◌else◌}
use spacemit_xenomai.Clock.Convert.{
  UserTimespec, UserItimerspec, Itimerspec64, KernelTime, ktime_max, ktime_sec_max, one_billion,
  u_timespec_to_ktime, ktime_to_u_timespec, u_itimerspec_to_itimerspec64,
  itimerspec64_to_u_itimerspec, u_timespec_to_ktime_lem,
}

-- The kernel's two conversions, for times that are not negative.
abbrev kernel : KernelTime
kernel = record {
  to_ktime =
      λ ts. if leb ktime_sec_max ts.tv_sec then ktime_max else ts.tv_sec * one_billion + ts.tv_nsec;
  to_timespec64 = λ t. record { tv_sec = t / one_billion; tv_nsec = t % one_billion };
  splits = λ t h. refl;
  joins = λ sec nsec s n. ground arith;
  saturates = λ sec nsec s n. ground arith;
}

-- A second and a half.
abbrev u_ts : UserTimespec
u_ts = record { tv_sec = 1; tv_nsec = 500000000 }

abbrev u_its : UserItimerspec
u_its = record { it_interval = u_ts; it_value = record { tv_sec = 2; tv_nsec = 0 } }

abbrev its64 : Itimerspec64
its64 = record {
  it_interval = record { tv_sec = 3; tv_nsec = 1 };
  it_value = record { tv_sec = 4; tv_nsec = 2 };
}

u_timespec_to_ktime_example :
    (ktime_max < ktime_sec_max * one_billion
      → u_timespec_to_ktime kernel.to_ktime (ktime_to_u_timespec kernel.to_timespec64 ktime_max)
        ≡ ktime_max)
    × (ktime_sec_max * one_billion ≤ ktime_max
        → u_timespec_to_ktime kernel.to_ktime (ktime_to_u_timespec kernel.to_timespec64 ktime_max)
          ≡ ktime_max)
    × (1 < ktime_sec_max
        → 500000000 < one_billion
        → ktime_to_u_timespec kernel.to_timespec64 (u_timespec_to_ktime kernel.to_ktime u_ts)
          ≡ u_ts)
    × (itimerspec64_to_u_itimerspec (u_itimerspec_to_itimerspec64 u_its) ≡ u_its)
    × (u_itimerspec_to_itimerspec64 (itimerspec64_to_u_itimerspec its64) ≡ its64)
u_timespec_to_ktime_example =
    u_timespec_to_ktime_lem kernel ktime_max u_ts u_its its64 (omega arith)
