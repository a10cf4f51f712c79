-- ===== src/Stat/Account.antt =====
-- kernel-overlay/include/evl/stat.h: execution time accounts. The totals stand in a memory of
-- accounts by address; a time is a 64-bit word, and `now` is what `evl_get_timestamp` reads.
use spacemit_xenomai.Base.{
  ℕ, ◌+◌, ◌-◌, ◌^◌, ◌≤◌, ◌<◌, ◌≡◌, ap, ◌∙◌, sym, List, [], ◌∷◌, arith, ◌==◌, ==_iff, if◌then◌else◌,
  u64, ℕ_discrete,
}

pub record Account : Type 0 where
  pub start : ℕ  -- ktime_t
  pub total : ℕ  -- ktime_t

-- The accounting members of `struct evl_rq`.
pub record RqAccounting : Type 0 where
  pub last_account_switch : ℕ  -- ktime_t
  pub current_account : ℕ

abbrev pub Accounts : Type 0
Accounts = ℕ → Account

abbrev pub put_account : Accounts → ℕ → Account → Accounts
put_account m a v b = if b == a then v else m b

unfoldable pub get_account_total : Accounts → ℕ → ℕ
get_account_total m a = (m a).total

unfoldable pub reset_account : ℕ → Accounts → ℕ → Accounts
reset_account now m a = put_account m a (record { start = now; total = 0 })

unfoldable pub update_account : ℕ → Accounts → RqAccounting → Accounts × RqAccounting
update_account now m rq =
    let a = rq.current_account in
    (
      put_account m a (record (m a) {
        total = u64 ((m a).total + u64 (now + 2 ^ 64 - rq.last_account_switch));
      }),
      record rq { last_account_switch = now },
    )

unfoldable pub get_last_account_switch : RqAccounting → ℕ
get_last_account_switch rq = rq.last_account_switch

-- The runqueue with the new account, and the address of the one before.
unfoldable pub set_current_account : RqAccounting → ℕ → RqAccounting × ℕ
set_current_account rq a = (record rq { current_account = a }, rq.current_account)

unfoldable pub close_account : ℕ → RqAccounting → ℕ → RqAccounting
close_account now rq a = record rq { last_account_switch = now; current_account = a }

unfoldable pub switch_account : ℕ → Accounts → RqAccounting → ℕ → Accounts × RqAccounting × ℕ
unfolding update_account set_current_account
switch_account now m rq a =
    let (m', rq') = update_account now m rq in
    let (rq'', previous) = set_current_account rq' a in (m', rq'', previous)

-- A run of switches: the time of each, and the account that it switches to.
unfoldable pub run_switches : Accounts → RqAccounting → List (ℕ × ℕ) → Accounts × RqAccounting
unfolding switch_account
run_switches m rq [] = (m, rq)
run_switches m rq ((now, a) ∷ rest) =
    let (m', rq', previous) = switch_account now m rq a in run_switches m' rq' rest

-- Times do not fall, and end at `last`.
abbrev pub Runs : ℕ → List (ℕ × ℕ) → ℕ → Type 0
Runs now [] last = now ≡ last
Runs now ((next, a) ∷ rest) last = (now ≤ next) × (next < 2 ^ 64) × Runs next rest last

-- What an account is owed by a run: the time between each switch to it and the next.
abbrev pub owed : ℕ → ℕ → ℕ → List (ℕ × ℕ) → ℕ
owed a since current [] = 0
owed a since current ((now, next) ∷ rest) =
    (if current == a then now - since else 0) + owed a now next rest

-- One switch pays the account that it leaves.
gained :
    (a now next : ℕ) (m : Accounts) (rq : RqAccounting)
    → rq.last_account_switch < 2 ^ 64
    → rq.last_account_switch ≤ now
    → now < 2 ^ 64
    → u64 ((switch_account now m rq next).0 a).total
      ≡ u64 ((m a).total + (if rq.current_account == a then now - rq.last_account_switch else 0))
unfolding switch_account
gained a now next m rq w le small = elim (ℕ_discrete a rq.current_account) [
  | yes e ↦ ground (
    arith,
    (==_iff a rq.current_account).1 e,
    (==_iff rq.current_account a).1 (sym e),
    ap (λ b. (m b).total) e,
  )
  | no n ↦ ground arith
]

-- Over any run of `evl_switch_account` calls at times that do not fall, each account's total grows
-- by the time during which it was the current one, in 64-bit arithmetic; and the runqueue ends
-- with the time of the last switch.
pub run_switches_total :
    (m : Accounts) (rq : RqAccounting) (rest : List (ℕ × ℕ)) (last a : ℕ)
    → rq.last_account_switch < 2 ^ 64
    → Runs rq.last_account_switch rest last
    → let (m', rq') = run_switches m rq rest in
      (u64 (m' a).total ≡ u64 ((m a).total + owed a rq.last_account_switch rq.current_account rest))
      × (rq'.last_account_switch ≡ last)
unfolding run_switches
run_switches_total m rq [] last a w r = (omega arith, r)
run_switches_total m rq ((now, next) ∷ rest) last a w r =
    let (m', rq', previous) = switch_account now m rq next in
    let ih = run_switches_total m' rq' rest last a r.1 r.2 in
    (ih.0 ∙ omega (arith, gained a now next m rq w r.0 r.1), ih.1)
