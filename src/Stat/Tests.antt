-- ===== src/Stat/Tests.antt =====
-- An account of execution time on a concrete run.
use spacemit_xenomai.Base.{◌≡◌, [], ◌∷◌, arith, u64}
use spacemit_xenomai.Stat.Account.{Accounts, run_switches, run_switches_total}

abbrev fresh : Accounts
fresh a = record { start = 0; total = 0 }

-- Account 1 runs from 10 to 15 and from 22 to 30, account 2 in between.
run_switches_total_example :
    let (m', rq') =
      run_switches fresh
        (record { last_account_switch = 10; current_account = 1 })
        ((15, 2) ∷ (22, 1) ∷ (30, 2) ∷ []) in
    (u64 (m' 1).total ≡ 13) × (rq'.last_account_switch ≡ 30)
run_switches_total_example =
    run_switches_total fresh (record { last_account_switch = 10; current_account = 1 })
      ((15, 2) ∷ (22, 1) ∷ (30, 2) ∷ []) 30 1 (omega arith) (omega arith)
