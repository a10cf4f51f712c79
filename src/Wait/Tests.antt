-- ===== src/Wait/Tests.antt =====
-- Flags and mutexes on concrete inputs.
use spacemit_xenomai.Base.{
  contains, bit_or, ◌||◌, test_flags-pow, bit-bit_or, bit-le, if◌then◌else◌, List, refl, ℕ, ◌≤◌,
  ◌≡◌, ◌≢◌, true, false, none, some, [], ◌∷◌, ◌++◌, arith, neg32,
}
use spacemit_xenomai.Sched.Fifo.{fifo_max_prio, chk_fifo_schedparam}
use spacemit_xenomai.SchedQueue.Mlq.{list_empty}
use spacemit_xenomai.Thread.Flags.{info_flag}
use spacemit_xenomai.Thread.Samples.{sample}
use spacemit_xenomai.Wait.Raise.{is_bcast, WakesAll, through, raise_flag_locked_lem}
use spacemit_xenomai.Wait.{WaitQueue, wait_active, Awake, eagain, nonblock}
use spacemit_xenomai.Wait.Flag.{
  peek_flag, raise_flag_locked, pulse_flag_locked, Flag, wait_flag_timeout, clear_flag, for_nothing,
  sleeps_to, wait_flag_timeout_lem,
}
use spacemit_xenomai.Wait.Mutex.{ceiling_priority, ceiling_priority_lem}

abbrev flag : Flag
flag = record {
  wait = record { flags = 1; clock = 1; wchan = record { owner = none; wait_list = []; name = 2 } };
  raised = false;
}

-- ETIMEDOUT is 110.
abbrev timed_out : Flag → Awake Flag
timed_out wf = record { state = wf; ret = neg32 110; bcast = false }

abbrev second : ℕ
second = 1000000000

wait_flag_timeout_example :
    (flag.raised ≡ true → wait_flag_timeout [] second flag ≡ some (clear_flag flag, 0))
    × (flag.raised ≡ false
        → (wait_flag_timeout [] nonblock flag ≡ some (flag, neg32 eagain))
          × (second ≢ nonblock
              → (wait_flag_timeout (for_nothing 2 ++ (sleeps_to true ∷ [])) second flag
                  ≡ some (clear_flag flag, 0))
                × (wait_flag_timeout (for_nothing 2 ++ (timed_out ∷ [])) second flag
                    ≡ some (flag, neg32 110))
                × (wait_flag_timeout (for_nothing 2) second flag ≡ none)))
wait_flag_timeout_example = wait_flag_timeout_lem flag second 2 [] timed_out (omega arith)

ceiling_priority_example :
    let prio = ceiling_priority 100 4000000000 in
    (1 ≤ prio)
    × (prio ≤ fifo_max_prio 100)
    × (1 ≤ 4000000000 → 4000000000 ≤ fifo_max_prio 100 → prio ≡ 4000000000)
    × (chk_fifo_schedparam 100 sample (record { prio = prio; id = 0 }) ≡ 0)
ceiling_priority_example = ceiling_priority_lem 100 4000000000 sample 0 (omega arith) (omega arith)

-- Two threads wait for the flag.
abbrev awaited : Flag
awaited = record flag {
  wait = record flag.wait { wchan = record flag.wait.wchan { wait_list = 64 ∷ 65 ∷ [] } };
}

-- All waiters are taken off and get the reason in their `info`.
abbrev wake_waiters : WaitQueue → ℕ → (ℕ → ℕ) → WaitQueue × (ℕ → ℕ)
wake_waiters q reason infos = (
  record q { wchan = record q.wchan { wait_list = [] } },
  λ t. if contains t q.wchan.wait_list then bit_or (infos t) reason else infos t,
)

or_bcast : (info reason : ℕ) → is_bcast (bit_or info reason) ≡ (is_bcast info || is_bcast reason)
unfolding info_flag
or_bcast info reason =
    let read = test_flags-pow 9 (bit_or info reason) in
    ground (
      arith,
      test_flags-pow 9 info,
      test_flags-pow 9 reason,
      read,
      bit-bit_or 9 info reason,
      bit-le info 9,
      bit-le reason 9,
    )

wake_waiters-WakesAll : WakesAll wake_waiters
wake_waiters-WakesAll q reason infos = (refl, λ t c. rw c (or_bcast (infos t) reason))

raise_flag_locked_example :
    let waiters : List ℕ = 64 ∷ 65 ∷ [] in
    let (raised, woken) = raise_flag_locked wake_waiters awaited (λ t. 0) in
    let (pulsed, pulsed_woken) = pulse_flag_locked wake_waiters awaited (λ t. 0) in
    (peek_flag raised ≡ true)
    × (wait_active raised.wait ≡ false)
    × (through woken flag waiters raised ≡ (clear_flag raised, 1))
    × (peek_flag pulsed ≡ peek_flag awaited)
    × (wait_active pulsed.wait ≡ false)
    × (through pulsed_woken flag waiters pulsed ≡ (pulsed, 2))
unfolding clear_flag list_empty
raise_flag_locked_example =
    raise_flag_locked_lem wake_waiters awaited flag (λ t. 0) wake_waiters-WakesAll (λ t c. refl)
