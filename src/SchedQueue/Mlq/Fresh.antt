-- ===== src/SchedQueue/Mlq/Fresh.antt =====
-- A queue of runnable threads with a list for each level and nothing in it.
use spacemit_xenomai.Base.{
  ℕ, zero, suc, ◌≤◌, ◌^◌, ◌≡◌, refl, sym, ap, ◌∙◌, List, [], arith, replicate, length, All, u32,
  bit-zero, subst,
}
use spacemit_xenomai.SchedQueue.Mlq.{SchedQueue, head_at}
use spacemit_xenomai.SchedQueue.Mlq.Heads.{chain, Placed}
use spacemit_xenomai.SchedQueue.Mlq.Invariant.{IsValid, InRange, busy, level_of}

abbrev pub no_threads : ℕ → SchedQueue
no_threads levels = record { elems = 0; prio_map = 0; heads = replicate levels [] }

head_at-replicate : (n i : ℕ) → head_at (replicate n []) i ≡ []
head_at-replicate zero i = refl
head_at-replicate (suc n) zero = refl
head_at-replicate (suc n) (suc i) = head_at-replicate n i

pub chain-replicate : (n : ℕ) → chain (replicate n []) ≡ []
chain-replicate zero = refl
chain-replicate (suc n) = chain-replicate n

length-replicate : (n : ℕ) (l : List ℕ) → length (replicate n l) ≡ n
length-replicate zero l = refl
length-replicate (suc n) l = omega (arith, length-replicate n l)

Placed-replicate : (lev : ℕ → ℕ) (off n : ℕ) → Placed lev off (replicate n [])
Placed-replicate lev off zero = tt
Placed-replicate lev off (suc n) = (tt, Placed-replicate lev (suc off) n)

pub no_threads-IsValid :
    (levels : ℕ) (cprio : ℕ → ℕ) → levels ≤ 2 ^ 31 → IsValid levels cprio (no_threads levels)
no_threads-IsValid levels cprio h = record {
  small = h;
  size = length-replicate levels [];
  counted = ap (λ l. u32 (length l)) (sym (chain-replicate levels));
  mapped = λ i b. bit-zero i ∙ ap busy (sym (head_at-replicate levels i));
  placed = Placed-replicate (level_of levels cprio) 0 levels;
  ranged = subst (All (InRange levels cprio)) (sym (chain-replicate levels)) tt;
}
