-- ===== src/Wait/Flag.antt =====
-- kernel-overlay/include/evl/flag.h: a flag that threads wait for. `flush` stands for
-- `evl_flush_wait_locked`, which wakes the waiters of a queue up for a reason; locks are not
-- represented, and `schedule` stands for `evl_schedule`.
use spacemit_xenomai.Base.{
  ℕ, zero, suc, ◌≡◌, ◌≢◌, refl, ◌∙◌, Bool, true, false, Option, none, some, List, [], ◌∷◌, ◌++◌,
  arith, if◌then◌else◌, neg32,
}
use spacemit_xenomai.Thread.Flags.{InfoFlag, info_flag}
use spacemit_xenomai.Wait.{
  WaitQueue, wait_initializer, Awake, wait_event_timeout, wait_rounds, timeout_nonblock, eagain,
  nonblock, infinite,
}

pub record Flag : Type 0 where
  pub wait : WaitQueue
  pub raised : Bool

unfoldable pub init_flag : ℕ → ℕ → Flag
unfolding wait_initializer
init_flag mono name = record { wait = wait_initializer mono name; raised = false }

-- `destroy_wait` stands for `evl_destroy_wait`.
unfoldable pub destroy_flag : (WaitQueue → WaitQueue) → Flag → Flag
destroy_flag destroy_wait wf = record wf { wait = destroy_wait wf.wait }

unfoldable pub peek_flag : Flag → Bool
peek_flag wf = wf.raised

unfoldable pub read_flag : Flag → Flag × Bool
read_flag wf = if wf.raised then (record wf { raised = false }, true) else (wf, false)

unfoldable pub wait_flag_timeout : List (Flag → Awake Flag) → ℕ → Flag → Option (Flag × ℕ)
unfolding wait_event_timeout read_flag
wait_flag_timeout sleeps timeout wf = wait_event_timeout read_flag sleeps timeout wf

unfoldable pub wait_flag : List (Flag → Awake Flag) → Flag → Option (Flag × ℕ)
unfolding wait_flag_timeout
wait_flag sleeps wf = wait_flag_timeout sleeps infinite wf

-- `head` stands for `evl_wait_head`.
unfoldable pub wait_flag_head : (WaitQueue → Option ℕ) → Flag → Option ℕ
wait_flag_head head wf = head wf.wait

-- The `info` of the threads stands by address beside the flag.
module _ (flush : WaitQueue → ℕ → (ℕ → ℕ) → WaitQueue × (ℕ → ℕ)) where
  unfoldable pub flush_flag_locked : Flag → ℕ → (ℕ → ℕ) → Flag × (ℕ → ℕ)
  flush_flag_locked wf reason infos =
      let (wait, infos') = flush wf.wait reason infos in (record wf { wait = wait }, infos')

  unfoldable pub raise_flag_locked : Flag → (ℕ → ℕ) → Flag × (ℕ → ℕ)
  raise_flag_locked wf infos =
      let wf' = record wf { raised = true } in
      let (wait, infos') = flush wf'.wait 0 infos in (record wf' { wait = wait }, infos')

  unfoldable pub pulse_flag_locked : Flag → (ℕ → ℕ) → Flag × (ℕ → ℕ)
  unfolding flush_flag_locked
  pulse_flag_locked wf infos = flush_flag_locked wf (info_flag InfoFlag.bcast) infos

unfoldable pub clear_flag : Flag → Flag
clear_flag wf = record wf { raised = false }

-- A sleep that ends without error or broadcast, and with the flag as `raised` says.
abbrev pub sleeps_to : Bool → Flag → Awake Flag
sleeps_to raised wf = record { state = record wf { raised = raised }; ret = 0; bcast = false }

-- `n` sleeps that end for nothing.
abbrev pub for_nothing : ℕ → List (Flag → Awake Flag)
for_nothing zero = []
for_nothing (suc n) = sleeps_to false ∷ for_nothing n

abbrev low : WaitQueue → Flag
low q = record { wait = q; raised = false }

rounds_for_nothing :
    (n : ℕ) (rest : List (Flag → Awake Flag)) (q : WaitQueue)
    → wait_rounds read_flag (for_nothing n ++ rest) (low q) ≡ wait_rounds read_flag rest (low q)
unfolding wait_rounds read_flag
rounds_for_nothing zero rest q = refl
rounds_for_nothing (suc n) rest q = rounds_for_nothing n rest q

no_rounds : (n : ℕ) (q : WaitQueue) → wait_rounds read_flag (for_nothing n) (low q) ≡ none
unfolding wait_rounds read_flag
no_rounds zero q = refl
no_rounds (suc n) q = no_rounds n q

-- The call on a flag that is not raised, with a timeout that lets it sleep.
sleeps_on :
    (sleeps : List (Flag → Awake Flag)) (timeout : ℕ) (q : WaitQueue)
    → timeout ≢ nonblock
    → wait_flag_timeout sleeps timeout (low q) ≡ wait_rounds read_flag sleeps (low q)
unfolding wait_flag_timeout wait_event_timeout read_flag timeout_nonblock
sleeps_on sleeps timeout q ne = ground arith

failing :
    (sleeps : List (Flag → Awake Flag)) (failed : Flag → Awake Flag) (q : WaitQueue)
    → (failed (low q)).ret ≢ 0
    → wait_rounds read_flag (failed ∷ sleeps) (low q)
      ≡ some ((failed (low q)).state, (failed (low q)).ret)
unfolding wait_rounds
failing sleeps failed q bad = ground arith

wait_at :
    (q : WaitQueue) (b : Bool) (timeout n : ℕ) (sleeps : List (Flag → Awake Flag))
    (failed : Flag → Awake Flag)
    → let wf : Flag = record { wait = q; raised = b } in
      (failed wf).ret ≢ 0
      → (wf.raised ≡ true → wait_flag_timeout sleeps timeout wf ≡ some (clear_flag wf, 0))
        × (wf.raised ≡ false
            → (wait_flag_timeout sleeps nonblock wf ≡ some (wf, neg32 eagain))
              × (timeout ≢ nonblock
                  → (wait_flag_timeout (for_nothing n ++ (sleeps_to true ∷ sleeps)) timeout wf
                      ≡ some (clear_flag wf, 0))
                    × (wait_flag_timeout (for_nothing n ++ (failed ∷ sleeps)) timeout wf
                        ≡ some ((failed wf).state, (failed wf).ret))
                    × (wait_flag_timeout (for_nothing n) timeout wf ≡ none)))
unfolding wait_flag_timeout wait_event_timeout wait_rounds read_flag clear_flag timeout_nonblock
wait_at q true timeout n sleeps failed bad = ((λ e. refl), (λ e. cc))
wait_at q false timeout n sleeps failed bad = (
  (λ e. cc),
  (λ e. (
    refl,
    (λ ne. (
      sleeps_on (for_nothing n ++ (sleeps_to true ∷ sleeps)) timeout q ne
          ∙ rounds_for_nothing n (sleeps_to true ∷ sleeps) q,
      sleeps_on (for_nothing n ++ (failed ∷ sleeps)) timeout q ne
          ∙ rounds_for_nothing n (failed ∷ sleeps) q
          ∙ failing sleeps failed q bad,
      sleeps_on (for_nothing n) timeout q ne ∙ no_rounds n q,
    )),
  )),
)

-- `evl_wait_flag_timeout` of a flag that is raised returns 0 at once and clears it, whatever the
-- timeout. Of a flag that is not raised: with EVL_NONBLOCK it returns -EAGAIN at once and leaves it
-- as it is; with any other timeout it sleeps on through any number of sleeps that end for nothing,
-- then returns 0 and clears the flag after a sleep in which it was raised, or returns the error,
-- with the flag as the sleep left it, after a sleep that fails; and it has not returned before.
pub wait_flag_timeout_lem :
    (wf : Flag) (timeout n : ℕ) (sleeps : List (Flag → Awake Flag)) (failed : Flag → Awake Flag)
    → (failed wf).ret ≢ 0
    → (wf.raised ≡ true → wait_flag_timeout sleeps timeout wf ≡ some (clear_flag wf, 0))
      × (wf.raised ≡ false
          → (wait_flag_timeout sleeps nonblock wf ≡ some (wf, neg32 eagain))
            × (timeout ≢ nonblock
                → (wait_flag_timeout (for_nothing n ++ (sleeps_to true ∷ sleeps)) timeout wf
                    ≡ some (clear_flag wf, 0))
                  × (wait_flag_timeout (for_nothing n ++ (failed ∷ sleeps)) timeout wf
                      ≡ some ((failed wf).state, (failed wf).ret))
                  × (wait_flag_timeout (for_nothing n) timeout wf ≡ none)))
wait_flag_timeout_lem wf timeout n sleeps failed bad =
    wait_at wf.wait wf.raised timeout n sleeps failed bad
