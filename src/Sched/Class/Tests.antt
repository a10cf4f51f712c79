-- ===== src/Sched/Class/Tests.antt =====
-- The counts of the threads of a class on concrete inputs.
use spacemit_xenomai.Base.{
  ℕ, ◌+◌, ◌^◌, ◌<◌, ◌≡◌, ◌≢◌, refl, ap, subst, false, Option, some, none, [], ◌==◌, if◌then◌else◌,
  neg32,
}
use spacemit_xenomai.Sched.{ClassOps, SchedParam}
use spacemit_xenomai.Sched.Class.{State, declare_thread, forget_thread, base_of, same_class}
use spacemit_xenomai.Sched.Class.Count.{KeepsCounts, count_after, declare_thread_lem}
use spacemit_xenomai.Sched.Runnable.{linear}
use spacemit_xenomai.Thread.{SchedClass, fifo, other}
use spacemit_xenomai.Thread.Samples.{sample}

abbrev accept : ℕ → SchedParam → State linear → State linear × ℕ
accept t p s = (s, if t == 99 then neg32 12 else 0)

abbrev let_go : ℕ → State linear → State linear
let_go t s = s

-- Classes that accept all threads but 99.
abbrev table : SchedClass → ClassOps (State linear)
table c = record {
  sched_init = none;
  sched_enqueue = λ t s. s;
  sched_dequeue = λ t s. s;
  sched_requeue = λ t s. s;
  sched_pick = λ rq s. (s, none);
  sched_yield = none;
  sched_migrate = none;
  sched_setparam = λ t p s. (s, false);
  sched_getparam = λ t p s. p;
  sched_chkparam = none;
  sched_trackprio = λ t p s. s;
  sched_ceilprio = λ t prio s. s;
  sched_declare = some accept;
  sched_forget = some let_go;
  sched_kick = none;
  weight = 1024;
  policy = 1;
  name = 0;
}

abbrev or_else {ℓ} : {A : Type ℓ} → A → Option A → A
or_else a none = a
or_else a (some b) = b

table-KeepsCounts : KeepsCounts linear table
table-KeepsCounts = record {
  declared = λ c declare e t p s.
      subst
        (λ (d : ℕ → SchedParam → State linear → State linear × ℕ).
          ((d t p s).0.nthreads ≡ s.nthreads)
          × (base_of linear table (d t p s).0 t ≡ base_of linear table s t))
        (ap (or_else accept) e) (refl, refl);
  forgot = λ c forget e t s.
      subst (λ (f : ℕ → State linear → State linear). (f t s).nthreads ≡ s.nthreads)
        (ap (or_else let_go) e) refl;
}

-- Threads of the FIFO class, of which there are three, and one thread in each other class.
abbrev before : State linear
unfolding linear
before = record {
  core = record { threads = λ t. sample; runnable = λ rq. [] };
  nthreads = λ c. if same_class c fifo then 3 else 1;
}

abbrev later : State linear
unfolding linear
later = record {
  core = record { threads = λ t. record sample { base_class = other 5 }; runnable = λ rq. [] };
  nthreads = λ c. if same_class c (other 5) then 2 else before.nthreads c;
}

declare_thread_example :
    let (s', ret) = declare_thread linear table (other 5) 64 (record { prio = 1; id = 0 }) before in
    (ret ≢ 0 → s'.nthreads ≡ before.nthreads)
    × (ret ≡ 0 → (d : SchedClass) → s'.nthreads d ≡ count_after linear table before (other 5) 64 d)
    × (ret ≡ 0
        → same_class (other 5) fifo ≡ false
        → before.nthreads (other 5) + 1 < 2 ^ 32
        → later.nthreads ≡ s'.nthreads
        → base_of linear table later 64 ≡ other 5
        → (d : SchedClass) → (forget_thread linear table later 64).nthreads d ≡ before.nthreads d)
unfolding before
declare_thread_example =
    declare_thread_lem linear table before later (other 5) 64 (record { prio = 1; id = 0 })
      table-KeepsCounts
