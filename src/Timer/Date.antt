-- ===== src/Timer/Date.antt =====
-- The dates of a periodic timer: what the gravity takes off, the expiry gives back.
use spacemit_xenomai.Base.{ℕ, suc, ◌+◌, ◌-◌, ◌*◌, ◌^◌, ◌<◌, ◌≡◌, refl, ap, ◌∙◌, arith, u64, ==_iff}
use spacemit_xenomai.Clock.{Gravity}
use spacemit_xenomai.Timer.Core.{
  Timer, set_date, get_timer_gravity, update_timer_date, get_timer_next_date, get_timer_expiry,
}

-- The three anticipations of a clock are words.
pub record IsWord (g : Gravity) : Type 0 where
  pub irq : g.irq < 2 ^ 64
  pub kernel : g.kernel < 2 ^ 64
  pub user : g.user < 2 ^ 64

gravity-lt :
    (gravity : ℕ → Gravity) (t : Timer)
    → IsWord (gravity t.clock)
    → get_timer_gravity gravity t < 2 ^ 64
unfolding get_timer_gravity
gravity-lt gravity t w = ground arith

set_date_self : (dates : ℕ → ℕ) (n d : ℕ) → set_date dates n d n ≡ d
set_date_self dates n d = ground (arith, (==_iff n n).1 refl)

-- A product that is one period longer.
next_product : (k i : ℕ) → suc k * i ≡ k * i + i
next_product k i = grind arith

-- After `evl_update_timer_date` the expiry of a timer, whatever its gravity, is its start date plus
-- `periodic_ticks` intervals, in 64-bit arithmetic; it is the date that
-- `evl_get_timer_next_date` gives if all ticks are consumed; and one tick more moves it by one
-- interval.
pub update_timer_date_expiry :
    (gravity : ℕ → Gravity) (dates : ℕ → ℕ) (t : Timer)
    → IsWord (gravity t.clock)
    → let expiry = λ (s : Timer). get_timer_expiry gravity (update_timer_date gravity dates s) s in
      (expiry t ≡ u64 (t.start_date + t.periodic_ticks * t.interval))
      × (t.consumed_ticks ≡ t.periodic_ticks → expiry t ≡ get_timer_next_date t)
      × (expiry (record t { periodic_ticks = suc t.periodic_ticks }) ≡ u64 (expiry t + t.interval))
update_timer_date_expiry gravity dates t w = (
  ideal t w,
  (λ e. ideal t w ∙ next e),
  ideal (record t { periodic_ticks = suc t.periodic_ticks }) w
      ∙ omega (arith, ideal t w, next_product t.periodic_ticks t.interval),
)
  where
    ideal :
        (t : Timer)
        → IsWord (gravity t.clock)
        → get_timer_expiry gravity (update_timer_date gravity dates t) t
          ≡ u64 (t.start_date + t.periodic_ticks * t.interval)
    ideal t w =
        unfold get_timer_expiry update_timer_date in
        omega (
          arith,
          gravity-lt gravity t w,
          set_date_self dates t.node (
              u64 (
                t.start_date
                + u64
                    (u64 (t.periodic_ticks * t.interval) + 2 ^ 64 - get_timer_gravity gravity t))),
        )

    next :
        t.consumed_ticks ≡ t.periodic_ticks
        → u64 (t.start_date + t.periodic_ticks * t.interval) ≡ get_timer_next_date t
    next e = unfold get_timer_next_date in omega (arith, ap (λ (k : ℕ). k * t.interval) e)
