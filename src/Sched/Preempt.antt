-- ===== src/Sched/Preempt.antt =====
-- kernel-overlay/include/evl/sched.h: the preemption count of the current task, and
-- kernel-overlay/include/evl/lock.h: the spin locks that disable preemption, without
-- CONFIG_EVL_DEBUG_CORE. A state is the count and the rest of the machine, `W`. `schedule` stands
-- for a call of `evl_schedule`, the operations of raw spin locks are the kernel's.
pub mod Debug
mod Tests
use spacemit_xenomai.Base.{
  ◌&&◌, ℕ, suc, ◌+◌, ◌-◌, ◌^◌, ◌<◌, ◌≡◌, refl, ap, ◌∙◌, Bool, true, false, not, List, [], ◌∷◌,
  arith, ◌==◌, if◌then◌else◌, length, u32, test_flags,
}
use spacemit_xenomai.Sched.Resched.{in_irq}
use spacemit_xenomai.Sched.{Rq}
use spacemit_xenomai.Thread.{Thread}
use spacemit_xenomai.Thread.Flags.{StateFlag, state_flag}

unfoldable pub is_inband : Thread → Bool
is_inband curr = test_flags curr.state (state_flag StateFlag.root)

unfoldable pub cannot_block : Rq → Thread → Bool
unfolding is_inband in_irq
cannot_block rq curr = if in_irq rq then true else is_inband curr

module _ {W : Type 0} where
  unfoldable pub preempt_count : ℕ × W → ℕ
  preempt_count s = s.0

  unfoldable pub disable_preempt : ℕ × W → ℕ × W
  disable_preempt (c, w) = (u32 (c + 1), w)

  unfoldable pub enable_preempt : (W → W) → ℕ × W → ℕ × W
  enable_preempt schedule (c, w) =
      let c' = u32 (c + 2 ^ 32 - 1) in (c', if c' == 0 then schedule w else w)

  -- The forms that callers use, without CONFIG_EVL_DEBUG_CORE.
  unfoldable pub evl_disable_preempt : ℕ × W → ℕ × W
  unfolding disable_preempt
  evl_disable_preempt s = disable_preempt s

  unfoldable pub evl_enable_preempt : (W → W) → ℕ × W → ℕ × W
  unfolding enable_preempt
  evl_enable_preempt schedule s = enable_preempt schedule s

-- `struct evl_spinlock`: the address of its raw lock.
pub record EvlSpinlock : Type 0 where
  pub lock : ℕ

-- `init` stands for `raw_spin_lock_init`.
unfoldable pub spin_lock_init : {W : Type 0} → (ℕ → W → W) → EvlSpinlock → W → W
spin_lock_init init lock w = init lock.lock w

-- The raw spin lock operations, by the lock's address; the flags of the `irqsave` forms are part of
-- `W`.
pub record RawLocks (W : Type 0) : Type 0 where
  pub raw_spin_lock : ℕ → W → W
  pub raw_spin_unlock : ℕ → W → W
  pub raw_spin_trylock : ℕ → W → W × Bool
  pub raw_spin_lock_irq : ℕ → W → W
  pub raw_spin_unlock_irq : ℕ → W → W
  pub raw_spin_lock_irqsave : ℕ → W → W
  pub raw_spin_unlock_irqrestore : ℕ → W → W

module _ {W : Type 0} (raw : RawLocks W) (schedule : W → W) where
  unfoldable pub spin_lock : ℕ → ℕ × W → ℕ × W
  unfolding disable_preempt
  spin_lock lock s = let (c, w) = disable_preempt s in (c, raw.raw_spin_lock lock w)

  unfoldable pub spin_trylock : ℕ → ℕ × W → (ℕ × W) × Bool
  unfolding disable_preempt
  spin_trylock lock s =
      let (c, w) = disable_preempt s in
      let (w', got) = raw.raw_spin_trylock lock w in ((c, w'), got)

  unfoldable pub spin_unlock : ℕ → ℕ × W → ℕ × W
  unfolding enable_preempt
  spin_unlock lock (c, w) = enable_preempt schedule (c, raw.raw_spin_unlock lock w)

  unfoldable pub spin_lock_irq : ℕ → ℕ × W → ℕ × W
  unfolding disable_preempt
  spin_lock_irq lock s = let (c, w) = disable_preempt s in (c, raw.raw_spin_lock_irq lock w)

  unfoldable pub spin_unlock_irq : ℕ → ℕ × W → ℕ × W
  unfolding enable_preempt
  spin_unlock_irq lock (c, w) = enable_preempt schedule (c, raw.raw_spin_unlock_irq lock w)

  unfoldable pub spin_lock_irqsave : ℕ → ℕ × W → ℕ × W
  unfolding disable_preempt
  spin_lock_irqsave lock s = let (c, w) = disable_preempt s in (c, raw.raw_spin_lock_irqsave lock w)

  unfoldable pub spin_unlock_irqrestore : ℕ → ℕ × W → ℕ × W
  unfolding enable_preempt
  spin_unlock_irqrestore lock (c, w) =
      enable_preempt schedule (c, raw.raw_spin_unlock_irqrestore lock w)

  -- A section that takes the locks of a list one inside the other.
  unfoldable pub guarded : List ℕ → (W → W) → ℕ × W → ℕ × W
  unfolding spin_lock spin_unlock
  guarded [] body (c, w) = (c, body w)
  guarded (l ∷ ls) body s = spin_unlock l (guarded ls body (spin_lock l s))

  -- The same with raw locks.
  abbrev pub raw_guarded : List ℕ → (W → W) → W → W
  raw_guarded [] body w = body w
  raw_guarded (l ∷ ls) body w = raw.raw_spin_unlock l (raw_guarded ls body (raw.raw_spin_lock l w))

  enabled :
      (c l : ℕ) (w : W)
      → suc c < 2 ^ 32
      → spin_unlock l (suc c, w)
        ≡ (c, if c == 0 then schedule (raw.raw_spin_unlock l w) else raw.raw_spin_unlock l w)
  unfolding spin_unlock enable_preempt
  enabled c l w h =
      let w' = raw.raw_spin_unlock l w in
      ap (λ k. (k, if k == 0 then schedule w' else w')) (down c h)
    where
      down : (c : ℕ) → suc c < 2 ^ 32 → u32 (suc c + 2 ^ 32 - 1) ≡ c
      down c h = omega arith

  locked : (c l : ℕ) (w : W) → suc c < 2 ^ 32 → spin_lock l (c, w) ≡ (suc c, raw.raw_spin_lock l w)
  unfolding spin_lock disable_preempt
  locked c l w h = ap (λ k. (k, raw.raw_spin_lock l w)) (up c h)
    where
      up : (c : ℕ) → suc c < 2 ^ 32 → u32 (c + 1) ≡ suc c
      up c h = omega arith

  -- Sections nested on any number of locks do to the machine what they do on the raw locks, and
  -- leave the preemption count as it was; if it was 0 and there is a lock, `evl_schedule` is called
  -- once, after the outermost unlock, and else never. The count must not overflow.
  pub guarded_lem :
      (locks : List ℕ) (body : W → W) (c : ℕ) (w : W)
      → c + length locks < 2 ^ 32
      → guarded locks body (c, w) ≡ (
        c,
        if not (length locks == 0) && (c == 0)
            then schedule (raw_guarded locks body w)
            else raw_guarded locks body w,
      )
  unfolding guarded
  guarded_lem [] body c w h = refl
  guarded_lem (l ∷ ls) body c w h =
      ap (λ s. spin_unlock l (guarded ls body s)) (locked c l w (omega arith))
      ∙ ap (spin_unlock l) (guarded_lem ls body (suc c) (raw.raw_spin_lock l w) (omega arith))
      ∙ ap (λ b. spin_unlock l (suc c, if b then schedule (inner ls) else inner ls)) (never c ls)
      ∙ enabled c l (inner ls) (omega arith)
      ∙ ap
          (λ b. (
            c,
            if b
                then schedule (raw.raw_spin_unlock l (inner ls))
                else raw.raw_spin_unlock l (inner ls),
          ))
          (outermost c ls)
    where
      inner : List ℕ → W
      inner ls = raw_guarded ls body (raw.raw_spin_lock l w)

      never : (c : ℕ) (ls : List ℕ) → (not (length ls == 0) && (suc c == 0)) ≡ false
      never c ls = ground arith

      outermost : (c : ℕ) (ls : List ℕ) → (c == 0) ≡ (not (suc (length ls) == 0) && (c == 0))
      outermost c ls = ground arith

  -- A try that gets the lock is undone by `evl_spin_unlock`, which leaves the count as it was and
  -- calls `evl_schedule` if that is 0. A try that fails leaves the count one higher than before,
  -- with no lock to release.
  pub spin_trylock_lem :
      (l c : ℕ) (w : W)
      → suc c < 2 ^ 32
      → let (s, got) = spin_trylock l (c, w) in
        let (w', raw_got) = raw.raw_spin_trylock l w in
        let w'' = raw.raw_spin_unlock l w' in
        (got ≡ raw_got)
        × (got ≡ true → spin_unlock l s ≡ (c, if c == 0 then schedule w'' else w''))
        × (got ≡ false → s ≡ (suc c, w'))
  unfolding spin_trylock disable_preempt
  spin_trylock_lem l c w h =
      let w' = (raw.raw_spin_trylock l w).0 in
      (
        refl,
        (λ e. ap (λ k. spin_unlock l (k, w')) (up c h) ∙ enabled c l w' h),
        (λ e. ap (λ k. (k, w')) (up c h)),
      )
    where
      up : (c : ℕ) → suc c < 2 ^ 32 → u32 (c + 1) ≡ suc c
      up c h = omega arith
