-- ===== src/Wait/Raise.antt =====
-- kernel-overlay/include/evl/flag.h: how a flag is raised, flushed and pulsed, and what that does to
-- the threads that wait for it. `flush` stands for `evl_flush_wait_locked`.
use spacemit_xenomai.Base.{
  suc, none, ◌==◌, ◌||◌, ◌∙◌, test_flags, contains, length, ==_iff, arith, if◌then◌else◌, ℕ, ◌≡◌,
  refl, Bool, true, false, some, List, [], ◌∷◌,
}
use spacemit_xenomai.SchedQueue.Mlq.{list_empty}
use spacemit_xenomai.Sched.Preempt.{RawLocks}
use spacemit_xenomai.Thread.Flags.{InfoFlag, info_flag}
use spacemit_xenomai.Wait.{WaitQueue, Awake, wait_rounds, wait_active}
use spacemit_xenomai.Wait.Flag.{
  Flag, read_flag, peek_flag, raise_flag_locked, flush_flag_locked, pulse_flag_locked,
}

-- The machine that a flag stands in: the flag, the `info` of the threads, the address of the flag's
-- lock, and `evl_schedule`. The interrupt flags are part of the state.
pub record FlagMachine (W : Type 0) : Type 0 where
  pub raw : RawLocks W
  pub flag : W → Flag
  pub put_flag : Flag → W → W
  pub infos : W → ℕ → ℕ
  pub put_infos : (ℕ → ℕ) → W → W
  pub lock : ℕ
  pub schedule : W → W

module _ {W : Type 0} (machine : FlagMachine W)
    (flush : WaitQueue → ℕ → (ℕ → ℕ) → WaitQueue × (ℕ → ℕ)) where
  open machine use {raw, flag, put_flag, infos, put_infos, lock, schedule}

  unfoldable pub lock_flag : W → W
  lock_flag w = raw.raw_spin_lock_irqsave lock w

  unfoldable pub unlock_flag : W → W
  unlock_flag w = raw.raw_spin_unlock_irqrestore lock w

  abbrev update_flag : (Flag → (ℕ → ℕ) → Flag × (ℕ → ℕ)) → W → W
  update_flag f w = let (wf, threads) = f (flag w) (infos w) in put_infos threads (put_flag wf w)

  unfoldable pub raise_flag_nosched : W → W
  unfolding lock_flag unlock_flag raise_flag_locked
  raise_flag_nosched w = unlock_flag (update_flag (raise_flag_locked flush) (lock_flag w))

  unfoldable pub raise_flag : W → W
  unfolding raise_flag_nosched
  raise_flag w = schedule (raise_flag_nosched w)

  unfoldable pub flush_flag_nosched : ℕ → W → W
  unfolding lock_flag unlock_flag flush_flag_locked
  flush_flag_nosched reason w =
      unlock_flag (update_flag (λ wf. flush_flag_locked flush wf reason) (lock_flag w))

  unfoldable pub flush_flag : ℕ → W → W
  unfolding flush_flag_nosched
  flush_flag reason w = schedule (flush_flag_nosched reason w)

  unfoldable pub pulse_flag_nosched : W → W
  unfolding flush_flag_nosched
  pulse_flag_nosched w = flush_flag_nosched (info_flag InfoFlag.bcast) w

  unfoldable pub pulse_flag : W → W
  unfolding flush_flag
  pulse_flag w = flush_flag (info_flag InfoFlag.bcast) w

-- A sleep that ends when the flag is `wf`: woken up, or by a broadcast.
abbrev pub woken_at : Flag → Bool → Flag → Awake Flag
woken_at wf bcast asleep = record { state = wf; ret = 0; bcast = bcast }

-- What a thread reads from its `info` after it was woken up.
abbrev pub is_bcast : ℕ → Bool
is_bcast info = test_flags info (info_flag InfoFlag.bcast)

-- Threads that were woken up run one after the other: each goes through the loop of
-- `evl_wait_flag_timeout` once, with the flag as those before it left it. The flag that is left, and
-- how many of the threads have returned 0; the others sleep on.
abbrev pub through : (ℕ → ℕ) → Flag → List ℕ → Flag → Flag × ℕ
through infos asleep [] wf = (wf, 0)
through infos asleep (t ∷ ts) wf =
    elim (wait_rounds read_flag (woken_at wf (is_bcast (infos t)) ∷ []) asleep) [
      | none ↦ through infos asleep ts wf
      | some (wf', ret) ↦
          let (left, done) = through infos asleep ts wf' in
          (left, if ret == 0 then suc done else done)
    ]

-- All of some threads read the same.
abbrev pub AllRead : Bool → (ℕ → ℕ) → List ℕ → Type 0
AllRead b infos ts = (t : ℕ) → contains t ts ≡ true → is_bcast (infos t) ≡ b

-- `evl_flush_wait_locked` takes all waiters off the queue, and they are woken up for the reason that
-- it is given: EVL_T_BCAST is in the `info` of each if it was or if the reason has it.
abbrev pub WakesAll : (WaitQueue → ℕ → (ℕ → ℕ) → WaitQueue × (ℕ → ℕ)) → Type 0
WakesAll flush =
    (q : WaitQueue) (reason : ℕ) (infos : ℕ → ℕ)
    → ((flush q reason infos).0.wchan.wait_list ≡ [])
      × ((t : ℕ)
          → contains t q.wchan.wait_list ≡ true
          → is_bcast ((flush q reason infos).1 t) ≡ (is_bcast (infos t) || is_bcast reason))

first_read :
    (b : Bool) (infos : ℕ → ℕ) (t : ℕ) (ts : List ℕ)
    → AllRead b infos (t ∷ ts)
    → is_bcast (infos t) ≡ b
first_read b infos t ts h = h t (ground (arith, (==_iff t t).1 refl))

rest_read :
    (b : Bool) (infos : ℕ → ℕ) (t : ℕ) (ts : List ℕ) → AllRead b infos (t ∷ ts) → AllRead b infos ts
rest_read b infos t ts h s c = h s (ground arith)

abbrev lowered : WaitQueue → Flag
lowered wait = record { wait = wait; raised = false }

none_through :
    (infos : ℕ → ℕ) (asleep : Flag) (wait : WaitQueue) (ts : List ℕ)
    → AllRead false infos ts
    → through infos asleep ts (lowered wait) ≡ (lowered wait, 0)
unfolding wait_rounds read_flag
none_through infos asleep wait [] h = refl
none_through infos asleep wait (t ∷ ts) h =
    rw (first_read false infos t ts h, through)
      (none_through infos asleep wait ts (rest_read false infos t ts h))

one_through :
    (infos : ℕ → ℕ) (asleep : Flag) (wait : WaitQueue) (ts : List ℕ)
    → AllRead false infos ts
    → through infos asleep ts (record { wait = wait; raised = true })
      ≡ (record { wait = wait; raised = list_empty ts }, if list_empty ts then 0 else 1)
unfolding wait_rounds read_flag list_empty
one_through infos asleep wait [] h = refl
one_through infos asleep wait (t ∷ ts) h =
    rw
      (
        first_read false infos t ts h,
        through,
        none_through infos asleep wait ts (rest_read false infos t ts h),
      )
      refl

all_through :
    (infos : ℕ → ℕ) (asleep wf : Flag) (ts : List ℕ)
    → AllRead true infos ts
    → through infos asleep ts wf ≡ (wf, length ts)
unfolding wait_rounds read_flag
all_through infos asleep wf [] h = refl
all_through infos asleep wf (t ∷ ts) h =
    rw
      (
        first_read true infos t ts h,
        through,
        all_through infos asleep wf ts (rest_read true infos t ts h),
      )
      refl

or_false : (b : Bool) → (b || false) ≡ b
or_false b = ground arith

or_true : (b : Bool) → (b || true) ≡ true
or_true b = ground arith

-- For an `evl_flush_wait_locked` that takes all waiters off the queue and wakes them up for the
-- reason that it is given, and waiters of which none has EVL_T_BCAST in its `info`:
-- `evl_raise_flag_locked` leaves the flag raised with no thread queued, and of the threads that were
-- queued exactly one, the first to run, returns 0, and the flag is clear then; if none was queued,
-- the flag stays raised. `evl_pulse_flag_locked` leaves the flag itself as it was, with no thread
-- queued, and all threads that were queued return 0 and leave the flag as it is.
pub raise_flag_locked_lem :
    (flush : WaitQueue → ℕ → (ℕ → ℕ) → WaitQueue × (ℕ → ℕ)) (wf asleep : Flag) (infos : ℕ → ℕ)
    → WakesAll flush
    → AllRead false infos wf.wait.wchan.wait_list
    → let waiters = wf.wait.wchan.wait_list in
      let (raised, woken) = raise_flag_locked flush wf infos in
      let (pulsed, pulsed_woken) = pulse_flag_locked flush wf infos in
      (peek_flag raised ≡ true)
      × (wait_active raised.wait ≡ false)
      × (through woken asleep waiters raised
          ≡ (record raised { raised = list_empty waiters }, if list_empty waiters then 0 else 1))
      × (peek_flag pulsed ≡ peek_flag wf)
      × (wait_active pulsed.wait ≡ false)
      × (through pulsed_woken asleep waiters pulsed ≡ (pulsed, length waiters))
unfolding raise_flag_locked pulse_flag_locked flush_flag_locked peek_flag wait_active
raise_flag_locked_lem flush wf asleep infos wakes unset =
    let q = wf.wait in
    let bcast = info_flag InfoFlag.bcast in
    let raising = wakes q 0 infos in
    let pulsing = wakes q bcast infos in
    (
      refl,
      rw raising.0 refl,
      one_through (flush q 0 infos).1 asleep (flush q 0 infos).0 q.wchan.wait_list
          (λ t c. raising.1 t c ∙ or_false (is_bcast (infos t)) ∙ unset t c),
      refl,
      rw pulsing.0 refl,
      all_through (flush q bcast infos).1 asleep
          (record { wait = (flush q bcast infos).0; raised = wf.raised }) q.wchan.wait_list
          (λ t c. pulsing.1 t c ∙ or_true (is_bcast (infos t))),
    )
